-- ===== src/Tests/Evaluation.antt =====
-- The result of a concrete run.
use closed_loop_bench.Base.{String, true, false, some, [], ◌≡◌, refl, ◌==◌, if◌then◌else◌}
use closed_loop_bench.Base.Outcome.{Outcome, ok, err}
use closed_loop_bench.Json.{ℤ, pos, Value, int, str, null, obj, field, end}
use closed_loop_bench.Json.{equal}
use closed_loop_bench.Exchange.Job.{leb_ℤ}
use closed_loop_bench.Evaluation.{
  Environment, Inputs, mismatched, asked_of, names_apart, validate_report_identity, duration,
  integer_or_none, is_listed, add_artifacts, timeout_count, summary_of, error_of, runtime_status,
  payload_of, message_of, check_inputs, build_evaluation_result_message,
}
use closed_loop_bench.Evaluation.Attributed.{IsResult, build_evaluation_result_message-IsResult}
use closed_loop_bench.Tests.Sample.{floats}

abbrev environment : Environment floats
environment = record {
  repr = λ v. "{}";
  instant = λ s. if s == "t1" then some (pos 1) else some (pos 5);
  between = λ a b. b;
  is_later = λ a b. if leb_ℤ a b then false else true;
  validate_shared_document = λ v. ok tt;
  validate_artifact_reference = λ v. ok tt;
}

abbrev algorithm : Value ℤ
algorithm = obj (field "algorithm_id" (str "tfpp") (field "algorithm_version" (str "1") end))

abbrev request : Value ℤ
request = obj (
    field "schema_version" (str "evaluation_run_request.v1") (
      field "message_id" (str "m1") (
        field "correlation"
          (obj (field "correlation_id" (str "c") (field "root_message_id" (str "r") end)))
          (field "payload"
            (obj (
              field "run_id" (str "run1") (
                field "scene_id" (str "s1") (
                  field "scene_version" (str "v1") (
                    field "algorithm" algorithm (
                      field "odd" (obj (field "odd_id" (str "clear") end))
                        (field "seed" (int (pos 3)) end)))))))
            end))))

abbrev report : ℤ → String → Value ℤ
report seed status = obj (
    field "run_id" (str "run1") (
      field "scenario_id" (str "s1") (
        field "status" (str status) (
          field "experiment"
            (obj (
              field "scene_version" (str "v1") (
                field "algorithm_id" (str "tfpp") (
                  field "algorithm_version" (str "1")
                    (field "odd_id" (str "clear") (field "seed" (int seed) end))))))
            end))))

abbrev inputs : Inputs floats environment
inputs = record {
  report_reference = obj (
      field "role" (str "closed_loop_report")
        (field "media_type" (str "application/json") (field "path" (str "runs/report.json") end)));
  started_at = "t1";
  finished_at = "t5";
  producer = obj end;
  artifact_references = [];
  warnings = [];
}

result : ℤ → String → Outcome (Value ℤ)
unfolding equal mismatched asked_of names_apart validate_report_identity duration integer_or_none
    is_listed add_artifacts timeout_count summary_of error_of runtime_status payload_of message_of
    check_inputs build_evaluation_result_message
result seed status =
    build_evaluation_result_message floats environment request (report seed status) inputs

abbrev message_or : Outcome (Value ℤ) → Value ℤ
message_or (ok m) = m
message_or (err e) = null

other_seed : message_or (result (pos 4) "completed") ≡ null
unfolding result
other_seed = refl

build_evaluation_result_message-IsResult_example :
    IsResult floats environment request
      (report (pos 3) "failed")
      (message_or (result (pos 3) "failed"))
unfolding result
build_evaluation_result_message-IsResult_example =
    build_evaluation_result_message-IsResult floats environment request (report (pos 3) "failed")
      inputs (message_or (result (pos 3) "failed")) refl
