-- ===== src/Exchange/Stage.antt =====
-- The staged creation of a record directory, which `_reserve_record`, `publish_message` and
-- `claim_job` share: fill a hidden directory, rename it to its target, and drop it if it is still
-- there. Here is the function; what it does to the files is in the child.
pub mod Laws
pub mod Alone
use closed_loop_bench.Base.{Bool}
use closed_loop_bench.Base.Outcome.{Outcome, ok, err}
use closed_loop_bench.Files.{
  FilePath, Files, Exec, continue, ◌>>=◌, ◌>>◌, finally, mkdir, rename_dir, rmtree,
}

module _ {B : Type 0} where
  -- `except OSError`: the handler looks at the files.
  abbrev pub or_handle :
      Outcome (Unit {0}) → (Files B → Outcome (Unit {0})) → Files B → Outcome (Unit {0})
  or_handle (ok _) handler fs = ok tt
  or_handle (err e) handler fs = handler fs

  -- `try: os.rename(staging, target) except OSError: ...`
  unfoldable pub rename_or :
      Bool → FilePath → FilePath → (Files B → Outcome (Unit {0})) → Exec B (Unit {0})
  unfolding rename_dir
  rename_or posix staging target handler fs =
      let (r, fs') = rename_dir posix staging target fs in (or_handle r handler fs', fs')

  -- `others` is what other workers do before the rename.
  unfoldable pub stage :
      Bool
      → FilePath
      → FilePath
      → Exec B (Unit {0})
      → (Files B → Files B)
      → (Files B → Outcome (Unit {0}))
      → Exec B (Unit {0})
  unfolding mkdir rename_or rmtree ◌>>=◌
  stage posix staging target fill others handler =
      finally
        (do mkdir staging; fill; λ fs. (ok tt, others fs); rename_or posix staging target handler)
        (rmtree staging)
