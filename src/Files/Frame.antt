-- ===== src/Files/Frame.antt =====
-- What each step on the files leaves as it was, and the staged creation of a record directory.
use mathlib.Core.Path.{fun_ext}
use closed_loop_bench.Base.{
  ◌==◌, String, true, false, Option, none, some, [], ◌∷◌, ◌≡◌, refl, ap, ◌∙◌, arith, length, ◌<◌,
  Bool-cases, Option-cases, inl, inr, eq_iff, eq_refl,
}
use closed_loop_bench.Base.Outcome.{Outcome, ok, err, Error, os_error}
use closed_loop_bench.Files.{
  ◌▹◌, in_folder, make_last, continue, ◌>>=◌, FilePath, path_eq, Folder, Files, file, is_dir,
  update, mkdirs,
}

pub path_eq_refl : (p : FilePath) → path_eq p p ≡ true
unfolding path_eq
path_eq_refl [] = refl
path_eq_refl (n ∷ p) = ground (arith, eq_refl n, path_eq_refl p)

pub path_eq→eq : (p q : FilePath) → path_eq p q ≡ true → p ≡ q
unfolding path_eq
path_eq→eq [] [] h = refl
path_eq→eq [] (n ∷ q) h = cc
path_eq→eq (m ∷ p) [] h = cc
path_eq→eq (m ∷ p) (n ∷ q) h = ground (arith, eq_iff m n, path_eq→eq p q)

-- A path is not its own parent.
pub path_eq-parent : (n : String) (d : FilePath) → path_eq d (n ∷ d) ≡ false
unfolding path_eq
path_eq-parent n [] = refl
path_eq-parent n (m ∷ d) = ground (arith, path_eq-parent m d, eq_iff m n)

pub differs : (p q : FilePath) → length p < length q → path_eq p q ≡ false
differs p q h = elim (Bool-cases (path_eq p q)) [
  | inl same ↦ absurd (omega (arith, ap length (path_eq→eq p q same)))
  | inr other ↦ other
]

pub deeper_differs : (p q : FilePath) → length q < length p → path_eq p q ≡ false
deeper_differs p q h = elim (Bool-cases (path_eq p q)) [
  | inl same ↦ absurd (omega (arith, ap length (path_eq→eq p q same)))
  | inr other ↦ other
]

module _ {B : Type 0} where
  pub update_self : (p : FilePath) (o : Option (Folder B)) (fs : Files B) → update p o fs p ≡ o
  unfolding update
  update_self p o fs = ground (arith, path_eq_refl p)

  pub update-update :
      (p : FilePath) (o o' : Option (Folder B)) (fs : Files B)
      → update p o (update p o' fs) ≡ update p o fs
  unfolding update
  update-update p o o' fs = fun_ext λ q. ground arith

  pub update_ne :
      (p q : FilePath) (o : Option (Folder B)) (fs : Files B)
      → path_eq p q ≡ false
      → update p o fs q ≡ fs q
  unfolding update
  update_ne p q o fs h = ground arith

  -- Every file stays as it was.
  abbrev pub IsKept : Files B → Files B → Type 0
  IsKept fs fs' = (p : FilePath) (b : B) → file fs p ≡ some b → file fs' p ≡ some b

  abbrev pub HoldsNone : Option (Folder B) → Type 0
  HoldsNone o = (n : String) → in_folder n o ≡ none

  pub IsKept-refl : (fs : Files B) → IsKept fs fs
  IsKept-refl fs p b h = h

  pub IsKept-trans : (fs gs hs : Files B) → IsKept fs gs → IsKept gs hs → IsKept fs hs
  IsKept-trans fs gs hs h k p b e = k p b (h p b e)

  -- A directory that had no file may change.
  pub IsKept-update :
      (p : FilePath) (o : Option (Folder B)) (fs fs' : Files B)
      → HoldsNone (fs p)
      → IsKept fs fs'
      → IsKept fs (update p o fs')
  IsKept-update p o fs fs' bare kept [] b h = cc
  IsKept-update p o fs fs' bare kept (n ∷ q) b h = elim (Bool-cases (path_eq p q)) [
    | inl same ↦
        absurd
          (ground (arith, path_eq→eq p q, bare n, ap (in_folder n) (ap fs (path_eq→eq p q same))))
    | inr other ↦ rw (update_ne p q o fs' other) (kept (n ∷ q) b h)
  ]

  pub HoldsNone-IsKept :
      (p : FilePath) (fs fs' : Files B) → IsKept fs fs' → HoldsNone (fs' p) → HoldsNone (fs p)
  HoldsNone-IsKept p fs fs' kept bare n = elim (Option-cases (in_folder n (fs p))) [
    | inl absent ↦ absent
    | inr (b, e) ↦ absurd (ground (arith, kept (n ∷ p) b e, bare n))
  ]

  -- `mkdirs` adds no file, and touches no path that is longer than the one it makes.
  pub record IsMade (d : FilePath) (fs : Files B) (r : Outcome (Unit {0}) × Files B) : Type 0 where
    pub same : (p : FilePath) → file r.1 p ≡ file fs p
    pub longer : (q : FilePath) → length d < length q → r.1 q ≡ fs q
    pub made : r.0 ≡ ok tt → is_dir r.1 d ≡ true
    pub refused : (e : Error) → r.0 ≡ err e → e ≡ os_error

  file-update :
      (p : FilePath) (fs : Files B)
      → is_dir fs p ≡ false
      → (q : FilePath) → file (update p (some []) fs) q ≡ file fs q
  file-update p fs absent [] = refl
  file-update p fs absent (n ∷ q) = elim (Bool-cases (path_eq p q)) [
    | inl same ↦ rw (← path_eq→eq p q same) (rw (update_self p (some []) fs) (ground arith))
    | inr other ↦ rw (update_ne p q (some []) fs other)
  ]

  make_last-IsMade : (p : FilePath) (fs : Files B) → IsMade p fs (make_last p fs)
  unfolding make_last
  make_last-IsMade p fs = elim (Bool-cases (is_dir fs p)) [
    | inl there ↦ record {
      same = λ q. ground arith;
      longer = λ q h. ground arith;
      made = λ e. ground arith;
      refused = λ e h. ground arith;
    }
    | inr absent ↦ record {
      same = λ q. ground (arith, file-update p fs absent q);
      longer = λ q h. ground (arith, update_ne p q (some []) fs (differs p q h));
      made = λ e. ground (arith, update_self p (some []) fs);
      refused = λ e h. ground arith;
    }
  ]

  -- The directories above are made first, and an exception there ends the call.
  mkdirs-step :
      (n : String) (d : FilePath) (r : Outcome (Unit {0}) × Files B) (fs : Files B)
      → IsMade d fs r
      → IsMade (n ∷ d) fs (continue r.0 (λ _. make_last (n ∷ d)) r.1)
  mkdirs-step n d (ok u, gs) fs h =
      let last = make_last-IsMade (n ∷ d) gs in
      record {
        same = λ q. last.same q ∙ h.same q;
        longer = λ q l. last.longer q l ∙ h.longer q (omega arith);
        made = last.made;
        refused = last.refused;
      }
  mkdirs-step n d (err e, gs) fs h = record {
    same = h.same;
    longer = λ q l. h.longer q (omega arith);
    made = λ p. cc;
    refused = h.refused;
  }

  pub mkdirs-IsMade : (d : FilePath) (fs : Files B) → IsMade d fs (mkdirs d fs)
  unfolding mkdirs ◌>>=◌
  mkdirs-IsMade [] fs = unfold mkdirs make_last in make_last-IsMade [] fs
  mkdirs-IsMade (n ∷ d) fs = mkdirs-step n d (mkdirs d fs) fs (mkdirs-IsMade d fs)

pub siblings_differ :
    (d : FilePath) (m n : String) → (m == n) ≡ false → path_eq (d ▹ m) (d ▹ n) ≡ false
unfolding path_eq
siblings_differ d m n h = ground arith
