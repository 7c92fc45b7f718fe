-- ===== src/Tests/Exchange.antt =====
-- Runs and instances of the exchange.
use closed_loop_bench.Base.{String, true, none, [], ◌≡◌, refl}
use closed_loop_bench.Base.Outcome.{Outcome, ok, err, exists_error, conflict_error}
use closed_loop_bench.Json.{null, str, obj, field, end, equal}
use closed_loop_bench.Files.{
  FilePath, ◌▹◌, Files, mkdir, mkdirs, write, rename_dir, rmtree, make_last, update, path_eq,
}
use closed_loop_bench.Files
use closed_loop_bench.Exchange.Platform.{Document}
use closed_loop_bench.Exchange.Segment.{is_safe, matches_segment, safe_segment, identity}
use closed_loop_bench.Exchange.Reading.{
  idempotency_path, reservation, expected_reservation, validate_idempotency, read_json,
}
use closed_loop_bench.Exchange.Artifact.{validate_document, validate_each, references}
use closed_loop_bench.Exchange.Message.{load_message, check_ready}
use closed_loop_bench.Exchange.Stage.{stage, rename_or}
use closed_loop_bench.Exchange.Stage.Laws.{Respects}
use closed_loop_bench.Exchange.Writes.{
  compare_record, publish_message, reserve_idempotency, reserve_record, install_message,
  stage_message, write_message, refuse_existing,
}
use closed_loop_bench.Exchange.Writes.Texts.{HasTexts}
use closed_loop_bench.Base.{All, count, ◌≤◌, false}
use closed_loop_bench.Files.Frame.{IsKept}
use closed_loop_bench.Exchange.Segment.{contained_artifact, split_slash}
use closed_loop_bench.Exchange.Segment.Inside.{
  IsComponent, is_hidden, safe_segment-IsComponent, contained_artifact-IsComponent,
}
use closed_loop_bench.Exchange.Writes.Kept.{publish_message-IsKept}
use closed_loop_bench.Exchange.Writes.RoundTrip.{publish_message-load}
use closed_loop_bench.Tests.Sample.{platform, lawful, empty, turn, message, Blob}

abbrev pub hello : Document platform
hello = message "scene.result" "m1" "k1" null

-- Everything that a publication computes with.
unfoldable pub run : Document platform → Files Blob → Outcome FilePath × Files Blob
unfolding is_safe matches_segment publish_message identity safe_segment validate_document
    reserve_idempotency reservation idempotency_path reserve_record install_message refuse_existing
    stage_message write_message stage rename_or mkdir mkdirs make_last write rename_dir rmtree
    update path_eq Files.◌>>=◌ compare_record read_json references validate_each load_message
    check_ready validate_idempotency equal expected_reservation
run m = publish_message platform (turn "a") (turn "b") m none true

abbrev pub hello_texts : HasTexts platform hello
hello_texts = record {
  type = "scene.result";
  id = "m1";
  scope = "run";
  key = "k1";
  idempotency = obj (field "scope" (str "run") (field "key" (str "k1") end));
  type_at = refl;
  id_at = refl;
  idempotency_at = refl;
  scope_at = refl;
  key_at = refl;
}

pub polite : (d : FilePath) (n : String) → Respects d n (turn "a").others
polite d n = record { keeps = λ fs p b h. h; leaves = λ fs. refl }

first_run : (run hello empty).0 ≡ ok ([] ▹ "messages" ▹ "scene.result" ▹ "m1")
unfolding run
first_run = refl

second_run : (run hello (run hello empty).1).0 ≡ err (exists_error "message already exists")
unfolding run
second_run = refl

other_message :
    (run (message "scene.result" "m2" "k1" null) (run hello empty).1).0
    ≡ err (conflict_error "idempotency key already belongs to another message")
unfolding run
other_message = refl

publish_message-load_example :
    load_message platform (run hello empty).1 (str "scene.result") (str "m1") none true ≡ ok hello
unfolding run
publish_message-load_example =
    publish_message-load platform lawful (turn "a") (turn "b") hello hello_texts none true empty
      ([] ▹ "messages" ▹ "scene.result" ▹ "m1")
      (λ path spot. record {
        no_dir = refl;
        no_file = refl;
        below = λ m. refl;
        respects = polite _ _;
      })
      (record { no_dir = refl; no_file = refl; below = λ m. refl; respects = polite _ _ }) refl

publish_message-IsKept_example : IsKept empty (run hello empty).1
unfolding run
publish_message-IsKept_example =
    publish_message-IsKept platform (turn "a") (turn "b") hello none true empty
      (λ path spot. record {
        no_dir = refl;
        no_file = refl;
        below = λ m. refl;
        respects = polite _ _;
      })
      (λ names named. record {
        no_dir = refl;
        no_file = refl;
        below = λ m. refl;
        respects = polite _ _;
      })

safe_segment-IsComponent_example : IsComponent "m1" × (count "m1" ≤ 128) × (is_hidden "m1" ≡ false)
unfolding run
safe_segment-IsComponent_example = safe_segment-IsComponent platform (str "m1") "message id" refl

contained_artifact-IsComponent_example : All IsComponent ([] ▹ "artifacts" ▹ "scene.json")
unfolding contained_artifact split_slash
contained_artifact-IsComponent_example =
    contained_artifact-IsComponent platform "artifacts/scene.json" ([] ▹ "artifacts" ▹ "scene.json")
      refl
