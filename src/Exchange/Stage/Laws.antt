-- ===== src/Exchange/Stage/Laws.antt =====
-- What the staged creation of a directory does to the files.
use closed_loop_bench.Base.{
  Bool-cases, ◌⊎◌, inl, inr, String, ◌||◌, not, Bool, true, false, Option, none, some, [], ◌∷◌, ◌≡◌,
  refl, ◌∙◌, sym, ap, arith, if◌then◌else◌,
}
use closed_loop_bench.Base.Outcome.{Outcome, ok, err, os_error}
use closed_loop_bench.Files.{
  path_eq, FilePath, ◌▹◌, Folder, Files, Exec, ◌>>=◌, file, is_file, is_dir, is_blocked,
  parent_is_dir, update, mkdir, rename_dir, rmtree,
}
use closed_loop_bench.Files.Frame.{
  update_self, update_ne, update-update, IsKept, IsKept-refl, IsKept-update, HoldsNone,
  HoldsNone-IsKept,
}
use closed_loop_bench.Exchange.Stage.{stage, rename_or}

-- Nothing stands at a staging directory yet, and its parent is a directory.
pub record IsFresh {B : Type 0} (fs : Files B) (d : FilePath) (n : String) : Type 0 where
  pub no_dir : fs (d ▹ n) ≡ none
  pub no_file : file fs (d ▹ n) ≡ none
  pub below : (m : String) → fs (d ▹ n ▹ m) ≡ none
  pub parent : is_dir fs d ≡ true

module _ {B : Type 0} (posix : Bool) (d : FilePath) (n : String) (target : FilePath) where
  -- Whether the rename onto the target is refused.
  abbrev pub is_refused : Files B → Bool
  is_refused fs = is_file fs target || is_blocked posix (fs target) || not (parent_is_dir fs target)

  pub mkdir_fresh :
      (fs : Files B) → IsFresh fs d n → mkdir (d ▹ n) fs ≡ (ok tt, update (d ▹ n) (some []) fs)
  unfolding mkdir
  mkdir_fresh fs h = ground arith

  pub rename_present :
      (fs : Files B) (es : Folder B)
      → fs (d ▹ n) ≡ some es
      → rename_dir posix (d ▹ n) target fs ≡ (
          if is_refused fs
          then (err os_error, fs)
          else (ok tt, update (d ▹ n) none (update target (some es) fs)))
  unfolding rename_dir
  rename_present fs es h = rw (h, rename_dir) refl

  module _ (fill : Exec B (Unit {0})) (others : Files B → Files B)
      (handler : Files B → Outcome (Unit {0})) (es : Folder B) where
    pub stage_lem :
        (fs fs' : Files B)
        → IsFresh fs d n
        → fill (update (d ▹ n) (some []) fs) ≡ (ok tt, update (d ▹ n) (some es) fs)
        → others (update (d ▹ n) (some es) fs) ≡ fs'
        → fs' (d ▹ n) ≡ some es
        → stage posix (d ▹ n) target fill others handler fs ≡ (
            if is_refused fs'
            then (handler fs', update (d ▹ n) none fs')
            else (ok tt, update (d ▹ n) none (update target (some es) fs')))
    unfolding stage ◌>>=◌ rename_or rename_dir rmtree
    stage_lem fs fs' fresh filled moved kept =
        rw (mkdir_fresh fs fresh, filled, moved, rename_present fs' es kept)
          (ground (arith, update-update {B = B} (d ▹ n) none none (update target (some es) fs')))

-- What the worker relies on while others work: they keep every file, and leave its staging
-- directory alone, whose name they do not know.
pub record Respects {B : Type 0} (d : FilePath) (n : String) (others : Files B → Files B)
    : Type 0 where
  pub keeps : (fs : Files B) → IsKept fs (others fs)
  pub leaves : (fs : Files B) → others fs (d ▹ n) ≡ fs (d ▹ n)

bare_target :
    {B : Type 0} (posix : Bool) (o : Option (Folder B)) → is_blocked posix o ≡ false → HoldsNone o
bare_target posix none h n = refl
bare_target posix (some []) h n = refl
bare_target posix (some (e ∷ es)) h n = cc

module _ {B : Type 0} (posix : Bool) (d : FilePath) (n : String) (target : FilePath)
    (fill : Exec B (Unit {0})) (others : Files B → Files B) (handler : Files B → Outcome (Unit {0}))
    (es : Folder B) (fs : Files B) (fresh : IsFresh fs d n)
    (filled : fill (update (d ▹ n) (some []) fs) ≡ (ok tt, update (d ▹ n) (some es) fs))
    (respects : Respects d n others) where
  -- The files at the moment of the rename.
  abbrev pub meanwhile : Files B
  meanwhile = others (update (d ▹ n) (some es) fs)

  abbrev pub after : Outcome (Unit {0}) × Files B
  after = stage posix (d ▹ n) target fill others handler fs

  pub staged-IsKept : IsKept fs meanwhile
  staged-IsKept p b h =
      respects.keeps _ p b
        (IsKept-update (d ▹ n) (some es) fs fs (λ m. rw fresh.no_dir) (IsKept-refl fs) p b h)

  present : meanwhile (d ▹ n) ≡ some es
  present = respects.leaves _ ∙ update_self (d ▹ n) (some es) fs

  pub stage-cases :
      ((is_refused posix d n target meanwhile ≡ true)
        × (after ≡ (handler meanwhile, update (d ▹ n) none meanwhile)))
      ⊎ ((is_refused posix d n target meanwhile ≡ false)
          × (after ≡ (ok tt, update (d ▹ n) none (update target (some es) meanwhile))))
  stage-cases =
      let e =
        stage_lem posix d n target fill others handler es fs meanwhile fresh filled refl present in
      elim (Bool-cases (is_refused posix d n target meanwhile)) [
        | inl blocked ↦ inl (blocked, e ∙ rw blocked refl)
        | inr free ↦ inr (free, e ∙ rw free refl)
      ]

  -- Whatever happens, every file stays.
  pub stage-IsKept : IsKept fs after.1
  stage-IsKept = elim stage-cases [
    | inl (blocked, e) ↦
        rw e (IsKept-update (d ▹ n) none fs meanwhile (λ m. rw fresh.no_dir) staged-IsKept)
    | inr (free, e) ↦ rw e (
        IsKept-update (d ▹ n) none fs _ (λ m. rw fresh.no_dir)
          (IsKept-update target (some es) fs meanwhile
            (HoldsNone-IsKept target fs meanwhile staged-IsKept
              (bare_target posix (meanwhile target) (ground arith)))
            staged-IsKept))
  ]

  -- A staged creation whose contents were written, and whose staging name nobody else touches, leaves
  -- no staging directory behind, whether the rename succeeds or is refused.
  pub stage_clean : after.1 (d ▹ n) ≡ none
  stage_clean = elim stage-cases [
    | inl (blocked, e) ↦ rw e (update_self (d ▹ n) none _)
    | inr (free, e) ↦ rw e (update_self (d ▹ n) none _)
  ]

  -- A call that returns either left a target that was there to the handler, or filled the target.
  pub stage-ok :
      path_eq (d ▹ n) target ≡ false
      → after.0 ≡ ok tt
      → ((handler meanwhile ≡ ok tt) × (after.1 ≡ update (d ▹ n) none meanwhile))
        ⊎ (after.1 target ≡ some es)
  stage-ok apart h = elim stage-cases [
    | inl (blocked, e) ↦ inl (sym (ap (λ r. r.0) e) ∙ h, ap (λ r. r.1) e)
    | inr (free, e) ↦ inr (
        ap (λ r. r.1 target) e
        ∙ update_ne (d ▹ n) target none (update target (some es) meanwhile) apart
        ∙ update_self target (some es) meanwhile)
  ]
