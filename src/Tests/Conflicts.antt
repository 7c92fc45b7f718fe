-- ===== src/Tests/Conflicts.antt =====
-- Publications that meet what others published.
use closed_loop_bench.Base.{true, none, some, [], ◌∷◌, ◌≡◌, refl, ap}
use closed_loop_bench.Base.Outcome.{ok, err, exists_error, conflict_error}
use closed_loop_bench.Json.{null, str}
use closed_loop_bench.Files.{
  FilePath, ◌▹◌, Files, Folder, Exec, write, rename_file, unlink, update, file,
}
use closed_loop_bench.Files.Frame.{update-update}
use closed_loop_bench.Exchange.Platform.{Document, Turn}
use closed_loop_bench.Exchange.Segment.{contained_artifact, split_slash}
use closed_loop_bench.Exchange.Reading.{record_of}
use closed_loop_bench.Exchange.Artifact.{reference_to, validate_artifact_on_disk}
use closed_loop_bench.Exchange.Stage.{stage}
use closed_loop_bench.Exchange.Stage.Laws.{stage_clean}
use closed_loop_bench.Exchange.Writes.{
  publish_message, reserve_idempotency, install_artifact, publish_artifact, describe_artifact,
  rename_artifact, publishing,
}
use closed_loop_bench.Exchange.Writes.Conflict.{publish_message_conflict, taken_text}
use closed_loop_bench.Exchange.Writes.Artifacts.{publish_artifact-validates}
use closed_loop_bench.Exchange.Writes.Race.{install_artifact_race}
use closed_loop_bench.Tests.Sample.{platform, empty, turn, message, Blob, document, text}
use closed_loop_bench.Tests.Exchange.{hello, run, polite}

-- The exchange after one publication.
held : Files Blob
unfolding run
held = (run hello empty).1

-- Another message with the key of the first, and the first message under another key.
abbrev rival : Document platform
rival = message "scene.result" "m2" "k1" null

abbrev again : Document platform
again = message "scene.result" "m1" "k2" null

abbrev held_record : Document platform
held_record = record_of platform (str "run") (str "k1") (str "scene.result") (str "m1")

publish_message_conflict_example :
    publish_message platform (turn "a") (turn "b") rival none true held
    ≡ (err (conflict_error taken_text), (reserve_idempotency platform (turn "a") rival held).1)
unfolding held
publish_message_conflict_example =
    publish_message_conflict platform rival
      (record_of platform (str "run") (str "k1") (str "scene.result") (str "m2"))
      ([] ▹ "idempotency" ▹ "run") "k1" (document held_record) held_record held refl refl refl refl
      refl refl (turn "a") (turn "b") none true ("scene.result", "m2")
      (record { no_dir = refl; no_file = refl; below = λ m. refl; respects = polite _ _ }) refl refl

publish_artifact-validates_example :
    (target : FilePath) × (contained_artifact platform "artifacts/scene" ≡ ok target)
    × (validate_artifact_on_disk platform
          (publish_artifact platform
            (turn "a")
            (λ gs. gs)
            (some (text "d1"))
            "artifacts/scene"
            "scene"
            "text"
            none
            empty).1
          (reference_to platform "artifacts/scene" "scene" "text" none (text "d1"))
        ≡ ok target)
unfolding run split_slash contained_artifact publish_artifact install_artifact rename_artifact
    describe_artifact rename_file unlink validate_artifact_on_disk
publish_artifact-validates_example =
    publish_artifact-validates platform (λ gs. gs) (turn "a") (some (text "d1")) "artifacts/scene"
      "scene" "text" none empty
      (reference_to platform "artifacts/scene" "scene" "text" none (text "d1"))
      (λ target inside gs. refl) refl

-- Another worker's artifact comes to `artifacts/scene`.
abbrev root : Files Blob
root = update ([] ▹ "artifacts") (some []) empty

abbrev mine : Folder Blob
mine = (publishing "scene" "a", text "d1") ∷ []

abbrev both : Folder Blob
both = ("scene", text "d2") ∷ mine

abbrev busy : Turn Blob
busy = record { uuid = "a"; others = update ([] ▹ "artifacts") (some both) }

install_artifact_race_example :
    ((install_artifact platform busy ([] ▹ "artifacts" ▹ "scene") (text "d1") root).0 ≡ ok tt)
    × (file
          (install_artifact platform busy ([] ▹ "artifacts" ▹ "scene") (text "d1") root).1
          ([] ▹ "artifacts" ▹ "scene")
        ≡ some (text "d1"))
unfolding run install_artifact rename_artifact rename_file unlink
install_artifact_race_example =
    install_artifact_race platform busy ([] ▹ "artifacts") "scene" (text "d1") (text "d2") both root
      (update ([] ▹ "artifacts") (some mine) root) refl refl refl refl refl

abbrev staged : Folder Blob
staged = ("f", text "d1") ∷ []

abbrev fill : Exec Blob (Unit {0})
fill = write ([] ▹ "artifacts" ▹ "s" ▹ "f") (text "d1")

stage_clean_example :
    (stage true
        ([] ▹ "artifacts" ▹ "s")
        ([] ▹ "artifacts" ▹ "t")
        fill
        (λ fs. fs)
        (λ fs. err (exists_error "taken"))
        root).1
      ([] ▹ "artifacts" ▹ "s")
    ≡ none
unfolding run
stage_clean_example =
    stage_clean true ([] ▹ "artifacts") "s" ([] ▹ "artifacts" ▹ "t") fill (λ fs. fs)
      (λ fs. err (exists_error "taken")) staged root
      (record { no_dir = refl; no_file = refl; below = λ m. refl; parent = refl })
      (ap (λ gs. (ok tt, gs))
        (update-update {B = Blob} ([] ▹ "artifacts" ▹ "s") (some staged) (some []) root))
      (polite _ _)
