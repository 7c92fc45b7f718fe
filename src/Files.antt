-- ===== src/Files.antt =====
-- The part of a file system that the program uses (pathlib, os, shutil of the standard library),
-- below one root and without symbolic links. A path is the list of its components, the last one
-- first. Each directory holds its own plain files, so a record directory moves and goes as a whole;
-- the program never moves or removes a directory that has directories below it.
pub mod Frame
use closed_loop_bench.Base.{
  ◌==◌, ◌&&◌, ◌||◌, not, String, Bool, true, false, Option, none, some, List, [], ◌∷◌, ◌≡◌, refl,
  arith, eq_iff, if◌then◌else◌,
}
use closed_loop_bench.Base.Outcome.{Outcome, ok, err, os_error}

abbrev pub FilePath : Type 0
FilePath = List String

infixl 66 ◌▹◌
abbrev pub ◌▹◌ : FilePath → String → FilePath
d ▹ n = n ∷ d

unfoldable pub path_eq : FilePath → FilePath → Bool
path_eq [] [] = true
path_eq [] (n ∷ q) = false
path_eq (m ∷ p) [] = false
path_eq (m ∷ p) (n ∷ q) = path_eq p q && m == n

abbrev pub Folder : Type 0 → Type 0
Folder B = List (String × B)

-- The directories, each with its plain files.
abbrev pub Files : Type 0 → Type 0
Files B = FilePath → Option (Folder B)

module _ {B : Type 0} where
  abbrev pub find_file : String → Folder B → Option B
  find_file n [] = none
  find_file n ((m, b) ∷ es) = if m == n then some b else find_file n es

  abbrev pub drop_file : String → Folder B → Folder B
  drop_file n [] = []
  drop_file n ((m, b) ∷ es) = let rest = drop_file n es in if m == n then rest else (m, b) ∷ rest

  abbrev pub put_file : String → B → Folder B → Folder B
  put_file n b es = (n, b) ∷ drop_file n es

  -- The contents of the plain file at a path.
  abbrev pub in_folder : String → Option (Folder B) → Option B
  in_folder n none = none
  in_folder n (some es) = find_file n es

  abbrev pub file : Files B → FilePath → Option B
  file fs [] = none
  file fs (n ∷ d) = in_folder n (fs d)

  abbrev pub is_file : Files B → FilePath → Bool
  is_file fs p = elim (file fs p) [ none ↦ false | some b ↦ true ]

  abbrev pub is_dir : Files B → FilePath → Bool
  is_dir fs p = elim (fs p) [ none ↦ false | some es ↦ true ]

  abbrev pub path_exists : Files B → FilePath → Bool
  path_exists fs p = is_dir fs p || is_file fs p

  -- `read_bytes`
  abbrev pub read : Files B → FilePath → Outcome B
  read fs p = elim (file fs p) [ none ↦ err os_error | some b ↦ ok b ]

  unfoldable pub update : FilePath → Option (Folder B) → Files B → Files B
  update p o fs q = if path_eq p q then o else fs q

-- A method that works on the files and may raise: what it wrote before the exception stays.
abbrev pub Exec : Type 0 → Type 0 → Type 0
Exec B A = Files B → Outcome A × Files B

module _ {B : Type 0} where
  abbrev pub pure : {A : Type 0} → A → Exec B A
  pure a fs = (ok a, fs)

  abbrev pub lift : {A : Type 0} → Outcome A → Exec B A
  lift r fs = (r, fs)

  -- A step that only reads.
  abbrev pub look : {A : Type 0} → (Files B → Outcome A) → Exec B A
  look f fs = (f fs, fs)

  abbrev pub continue : {A C : Type 0} → Outcome A → (A → Exec B C) → Exec B C
  continue (ok a) f fs = f a fs
  continue (err e) f fs = (err e, fs)

  infixl 5 ◌>>=◌ ◌>>◌
  unfoldable pub ◌>>=◌ : {A C : Type 0} → Exec B A → (A → Exec B C) → Exec B C
  ◌>>=◌ m f fs = let (r, fs') = m fs in continue r f fs'

  abbrev pub ◌>>◌ : {A C : Type 0} → Exec B A → Exec B C → Exec B C
  m >> k = m >>= λ _. k

  -- `try: m finally: cleanup`, for a cleanup that does not raise
  abbrev pub finally : {A : Type 0} → Exec B A → (Files B → Files B) → Exec B A
  finally m cleanup fs = let (r, fs') = m fs in (r, cleanup fs')

  -- `p.mkdir()`
  unfoldable pub mkdir : FilePath → Exec B (Unit {0})
  unfolding update
  mkdir [] fs = (err os_error, fs)
  mkdir (n ∷ d) fs =
      if path_exists fs (n ∷ d) || not (is_dir fs d)
      then (err os_error, fs)
      else (ok tt, update (n ∷ d) (some []) fs)

  -- The last directory of `mkdirs`.
  unfoldable pub make_last : FilePath → Exec B (Unit {0})
  unfolding update
  make_last p fs =
      if is_dir fs p
      then (ok tt, fs)
      else if is_file fs p
      then (err os_error, fs)
      else (ok tt, update p (some []) fs)

  -- `p.mkdir(parents=True, exist_ok=True)`
  unfoldable pub mkdirs : FilePath → Exec B (Unit {0})
  unfolding update make_last ◌>>=◌
  mkdirs [] fs = if is_dir fs [] then (ok tt, fs) else (ok tt, update [] (some []) fs)
  mkdirs (n ∷ d) fs = (mkdirs d >>= λ _. make_last (n ∷ d)) fs

  -- `p.write_text(...)`
  unfoldable pub write : FilePath → B → Exec B (Unit {0})
  unfolding update
  write [] b fs = (err os_error, fs)
  write (n ∷ d) b fs = if is_dir fs (n ∷ d) then (err os_error, fs) else elim (fs d) [
    | none ↦ (err os_error, fs)
    | some es ↦ (ok tt, update d (some (put_file n b es)) fs)
  ]

  -- POSIX lets a directory take the place of an empty one, Windows does not.
  abbrev pub is_blocked : Bool → Option (Folder B) → Bool
  is_blocked posix none = false
  is_blocked posix (some []) = not posix
  is_blocked posix (some (e ∷ es)) = true

  abbrev pub parent_is_dir : Files B → FilePath → Bool
  parent_is_dir fs [] = false
  parent_is_dir fs (n ∷ d) = is_dir fs d

  -- `os.rename(src, dst)` of a directory
  unfoldable pub rename_dir : Bool → FilePath → FilePath → Exec B (Unit {0})
  unfolding update
  rename_dir posix src dst fs = elim (fs src) [
    | none ↦ (err os_error, fs)
    | some es ↦
        if is_file fs dst || is_blocked posix (fs dst) || not (parent_is_dir fs dst)
        then (err os_error, fs)
        else (ok tt, update src none (update dst (some es) fs))
  ]

  abbrev move_file :
      Bool → FilePath → String → String → Folder B → Files B → Outcome (Unit {0}) × Files B
  move_file posix d m n es fs = elim (find_file m es) [
    | none ↦ (err os_error, fs)
    | some b ↦
        if is_dir fs (n ∷ d) || (is_file fs (n ∷ d) && not posix)
        then (err os_error, fs)
        else (ok tt, update d (some (put_file n b (drop_file m es))) fs)
  ]

  -- `os.rename(d / m, d / n)` of a plain file: POSIX replaces a file that is there, Windows refuses.
  unfoldable pub rename_file : Bool → FilePath → String → String → Exec B (Unit {0})
  unfolding update
  rename_file posix d m n fs = elim (fs d) [
    | none ↦ (err os_error, fs)
    | some es ↦ move_file posix d m n es fs
  ]

  -- `if p.exists(): shutil.rmtree(p)`
  unfoldable pub rmtree : FilePath → Files B → Files B
  unfolding update
  rmtree p fs = update p none fs

  -- `if p.exists(): p.unlink()`
  unfoldable pub unlink : FilePath → Files B → Files B
  unfolding update
  unlink [] fs = fs
  unlink (n ∷ d) fs = elim (fs d) [ none ↦ fs | some es ↦ update d (some (drop_file n es)) fs ]
