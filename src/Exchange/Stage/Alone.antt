-- ===== src/Exchange/Stage/Alone.antt =====
-- A staged creation while nobody else works: it puts its directory in place.
use closed_loop_bench.Base.{String, Bool, false, none, some, [], ◌∷◌, ◌≡◌, refl, ◌∙◌, arith}
use closed_loop_bench.Base.Outcome.{Outcome, ok, err}
use closed_loop_bench.Files.{
  path_eq, FilePath, ◌▹◌, Folder, Files, Exec, file, update, mkdirs, make_last, continue, ◌>>=◌,
}
use closed_loop_bench.Files.Frame.{update_ne, deeper_differs, mkdirs-IsMade}
use closed_loop_bench.Exchange.Stage.{stage}
use closed_loop_bench.Exchange.Stage.Laws.{IsFresh, is_refused, stage_lem}
use closed_loop_bench.Files.Frame.{update_self}

-- Nothing stands at a path.
pub record IsFree {B : Type 0} (fs : Files B) (p : FilePath) : Type 0 where
  pub no_dir : fs p ≡ none
  pub no_file : file fs p ≡ none

-- No plain file stands where `mkdir(parents=True)` wants a directory.
abbrev pub IsOpen : {B : Type 0} → Files B → FilePath → Type 0
IsOpen fs [] = Unit
IsOpen fs (n ∷ d) = (file fs (n ∷ d) ≡ none) × IsOpen fs d

module _ {B : Type 0} where
  make_last_open : (p : FilePath) (fs : Files B) → file fs p ≡ none → (make_last p fs).0 ≡ ok tt
  unfolding make_last
  make_last_open p fs h = ground arith

  mkdirs_step :
      (n : String) (d : FilePath) (r : Outcome (Unit {0}) × Files B)
      → r.0 ≡ ok tt
      → file r.1 (n ∷ d) ≡ none
      → (continue r.0 (λ _. make_last (n ∷ d)) r.1).0 ≡ ok tt
  mkdirs_step n d (ok u, gs) h absent = make_last_open (n ∷ d) gs absent
  mkdirs_step n d (err e, gs) h absent = cc

  pub mkdirs_open : (d : FilePath) (fs : Files B) → IsOpen fs d → (mkdirs d fs).0 ≡ ok tt
  unfolding mkdirs ◌>>=◌
  mkdirs_open [] fs h = ground arith
  mkdirs_open (n ∷ d) fs h =
      mkdirs_step n d (mkdirs d fs) (mkdirs_open d fs h.1) ((mkdirs-IsMade d fs).same (n ∷ d) ∙ h.0)

  pub mkdirs-IsFree :
      (d : FilePath) (n : String) (fs : Files B)
      → IsFree fs (d ▹ n)
      → IsFree (mkdirs d fs).1 (d ▹ n)
  mkdirs-IsFree d n fs h = record {
    no_dir = (mkdirs-IsMade d fs).longer (d ▹ n) (omega arith) ∙ h.no_dir;
    no_file = (mkdirs-IsMade d fs).same (d ▹ n) ∙ h.no_file;
  }

module _ {B : Type 0} (posix : Bool) (d : FilePath) (n k : String) (fill : Exec B (Unit {0}))
    (others : Files B → Files B) (handler : Files B → Outcome (Unit {0})) (es : Folder B)
    (fs : Files B) where
  unrefused :
      IsFresh fs d n
      → IsFree fs (d ▹ k)
      → path_eq (d ▹ n) (d ▹ k) ≡ false
      → is_refused posix d n (d ▹ k) (update (d ▹ n) (some es) fs) ≡ false
  unrefused fresh free apart =
      let e = update_ne (d ▹ n) (d ▹ k) (some es) fs apart in
      let e' = update_ne (d ▹ n) d (some es) fs (deeper_differs (d ▹ n) d (omega arith)) in
      ground (arith, e, e', fresh.parent, free.no_dir, free.no_file)

  -- Where the target is free and nobody else works, the directory is put in place.
  pub stage_alone :
      IsFresh fs d n
      → fill (update (d ▹ n) (some []) fs) ≡ (ok tt, update (d ▹ n) (some es) fs)
      → ((gs : Files B) → others gs ≡ gs)
      → IsFree fs (d ▹ k)
      → path_eq (d ▹ n) (d ▹ k) ≡ false
      → stage posix (d ▹ n) (d ▹ k) fill others handler fs
        ≡ (ok tt, update (d ▹ n) none (update (d ▹ k) (some es) (update (d ▹ n) (some es) fs)))
  stage_alone fresh filled idle free apart =
      stage_lem posix d n (d ▹ k) fill others handler es fs (update (d ▹ n) (some es) fs) fresh
        filled (idle _) (update_self (d ▹ n) (some es) fs)
      ∙ rw (unrefused fresh free apart) refl

  -- No other directory changes.
  pub staged_elsewhere :
      (q : FilePath)
      → path_eq (d ▹ n) q ≡ false
      → path_eq (d ▹ k) q ≡ false
      → update (d ▹ n) none (update (d ▹ k) (some es) (update (d ▹ n) (some es) fs)) q ≡ fs q
  staged_elsewhere q a b =
      update_ne (d ▹ n) q none _ a
      ∙ update_ne (d ▹ k) q (some es) _ b
      ∙ update_ne (d ▹ n) q (some es) fs a
