-- ===== src/Evaluation.antt =====
-- adapters/evaluation_protocol.py: the result message that answers an evaluation request with the
-- report of its run.
pub mod Agreement
pub mod Attributed
use closed_loop_bench.Base.{
  String, ◌<>◌, Bool, true, false, ◌==◌, ◌&&◌, ◌||◌, not, List, [], ◌∷◌, ◌++◌, any, is_empty,
  Option, none, some, if◌then◌else◌,
}
use closed_loop_bench.Base.Outcome.{
  Outcome, ok, err, evaluation_error, type_error, value_error, guard, refuse, ◌>>=◌, ◌>>◌,
}
use closed_loop_bench.Json.{
  ℤ, pos, negsuc, Floats, Value, Items, nil, item, Fields, end, field, null, bool, int, float, str,
  arr, obj, find, get, at, is_text, is_null, as_float, to_int, equal, truthy, text_of,
}

abbrev pub success_statuses : List String
success_statuses = "completed" ∷ "ego_closed_loop" ∷ "interactive_closed_loop" ∷ []

abbrev pub is_in : String → List String → Bool
is_in s ts = any (λ t. t == s) ts

abbrev pub is_success : String → Bool
is_success status = is_in status success_statuses

abbrev pub outcome_of : String → String
outcome_of text = if is_in text ("pass" ∷ "fail" ∷ "unknown" ∷ []) then text else "unknown"

abbrev pub status_text : Bool → String
status_text true = "succeeded"
status_text false = "failed"

-- The validators, the clock format and the float of a number of microseconds.
pub record Environment (fl : Floats) : Type 0 where
  pub repr : Value fl.Float → String
  pub instant : String → Option ℤ
  pub between : ℤ → ℤ → fl.Float
  pub is_later : ℤ → ℤ → Bool
  pub validate_shared_document : Value fl.Float → Outcome (Unit {0})
  pub validate_artifact_reference : Value fl.Float → Outcome (Unit {0})

module _ (fl : Floats) (e : Environment fl) where
  abbrev pub Data : Type 0
  Data = Value fl.Float

  -- `v or {}`
  abbrev pub or_empty : Data → Data
  or_empty v = if truthy fl v then v else obj end

  abbrev pub or_else : Data → Data → Data
  or_else a b = if truthy fl a then a else b

  -- `str(v or default)`
  abbrev pub text_or : Data → String → String
  text_or v default = if truthy fl v then text_of e.repr v else default

  abbrev pub if_differs : String → Data → Data → List String → List String
  if_differs name actual expected rest = if equal fl actual expected then rest else name ∷ rest

  -- What a request asks for: the run, the scene and its version, the algorithm and its version, the
  -- odd and the seed.
  pub record Asked : Type 0 where
    pub run_id : Data
    pub scene_id : Data
    pub scene_version : Data
    pub algorithm_id : Data
    pub algorithm_version : Data
    pub odd_id : Data
    pub seed : Data

  unfoldable pub asked_of : Data → Outcome Asked
  asked_of payload = do
    run_id ← at "run_id" payload
    scene_id ← at "scene_id" payload
    scene_version ← at "scene_version" payload
    algorithm ← at "algorithm" payload
    algorithm_id ← at "algorithm_id" algorithm
    algorithm_version ← at "algorithm_version" algorithm
    odd ← at "odd" payload
    odd_id ← at "odd_id" odd
    seed ← at "seed" payload
    ok (record {
      run_id = run_id;
      scene_id = scene_id;
      scene_version = scene_version;
      algorithm_id = algorithm_id;
      algorithm_version = algorithm_version;
      odd_id = odd_id;
      seed = seed;
    })

  -- The names for which the report tells something else than what is asked for.
  unfoldable pub names_apart : Data → Data → Asked → Outcome (List String)
  names_apart report experiment a = do
    own_run ← get "run_id" report
    experiment_run ← get "run_id" experiment
    own_scene ← get "scenario_id" report
    own_version ← get "scene_version" experiment
    own_algorithm ← get "algorithm_id" experiment
    own_algorithm_version ← get "algorithm_version" experiment
    own_odd ← get "odd_id" experiment
    own_seed ← get "seed" experiment
    ok (
        if_differs "run_id" (or_else own_run experiment_run) a.run_id (
          if_differs "scenario_id" own_scene a.scene_id (
            if_differs "scene_version" own_version a.scene_version (
              if_differs "algorithm_id" own_algorithm a.algorithm_id (
                if_differs "algorithm_version" own_algorithm_version a.algorithm_version
                  (if_differs "odd_id" own_odd a.odd_id (if_differs "seed" own_seed a.seed [])))))))

  -- The names in which the report is not that of the request.
  unfoldable pub mismatched : Data → Data → Outcome (List String)
  mismatched request report = do
    payload ← at "payload" request
    section ← get "experiment" report
    asked ← asked_of payload
    names_apart report (or_empty section) asked

  unfoldable pub validate_report_identity : Data → Data → Outcome (Unit {0})
  validate_report_identity request report = do
    names ← mismatched request report
    guard (is_empty names) (evaluation_error "report identity does not match request")

  abbrev pub parse : String → Outcome ℤ
  parse s = elim (e.instant s) [
    | none ↦ err (value_error "invalid isoformat string")
    | some t ↦ ok t
  ]

  unfoldable pub duration : String → String → Outcome fl.Float
  duration started_at finished_at = do
    finished ← parse finished_at
    started ← parse started_at
    refuse (e.is_later started finished) (evaluation_error "finished_at precedes started_at")
    ok (e.between started finished)

  -- `_number_or_none`
  abbrev pub number_or_none : Data → Data
  number_or_none (bool b) = null
  number_or_none v = elim (as_float fl v) [ none ↦ null | some x ↦ float x ]

  unfoldable pub integer_or_none : Data → Outcome Data
  integer_or_none (int n) = ok (int n)
  integer_or_none (float x) = to_int fl (float x) >>= λ n. ok (int n)
  integer_or_none _ = ok null

  -- An artifact with the path and the role of the reference is there already.
  unfoldable pub is_listed : Data → List Data → Outcome Bool
  is_listed reference [] = ok false
  is_listed reference (known ∷ rest) = do
    path ← at "path" known
    own_path ← at "path" reference
    if equal fl path own_path
        then (do
          role ← at "role" known
          own_role ← at "role" reference
          if equal fl role own_role then ok true else is_listed reference rest)
        else is_listed reference rest

  unfoldable pub add_artifacts : List Data → List Data → Outcome (List Data)
  add_artifacts listed [] = ok listed
  add_artifacts listed (reference ∷ references) = do
    e.validate_artifact_reference reference
    known ← is_listed reference listed
    add_artifacts (if known then listed else listed ++ (reference ∷ [])) references

  abbrev pub array : List Data → Items fl.Float
  array [] = nil
  array (v ∷ vs) = item v (array vs)

  abbrev pub copied : String → Data → Fields fl.Float → Outcome (Fields fl.Float)
  copied name (obj fs) rest = elim (find name fs) [
    | none ↦ ok rest
    | some v ↦ ok (field name v rest)
  ]
  copied name _ rest = err type_error

  unfoldable pub timeout_count : Data → Data → Outcome Data
  timeout_count report summary = do
    runtime ← get "runtime" report
    diagnostics ← get "ego_driver_diagnostics" (or_empty runtime)
    own ← get "control_timeout_count" summary
    if is_null own then get "fallback_count" (or_empty diagnostics) else ok own

  unfoldable pub summary_of : Data → Data → Outcome Data
  summary_of summary timeouts = do
    collisions ← get "collision_count" summary
    collision_count ← integer_or_none collisions
    min_ttc ← get "min_ttc" summary
    route_progress ← get "route_progress" summary
    brakes ← get "hard_brake_count" summary
    hard_brake_count ← integer_or_none brakes
    max_jerk ← get "max_jerk" summary
    control_timeout_count ← integer_or_none timeouts
    ok (
        obj (
          field "collision_count" collision_count (
            field "min_ttc" (number_or_none min_ttc) (
              field "route_progress" (number_or_none route_progress) (
                field "hard_brake_count" hard_brake_count (
                  field "max_jerk" (number_or_none max_jerk)
                    (field "control_timeout_count" control_timeout_count end)))))))

  -- The `error` of a run that did not succeed.
  unfoldable pub error_of : Data → String → Outcome (Fields fl.Float)
  error_of report status = do
    runtime ← get "runtime" report
    reason ← get "failure_reason" (or_empty runtime)
    ok (
        field "error"
          (obj (
            field "code" (str "EVALUATION_RUNTIME_FAILED") (
              field "message"
                (str (
                  text_or reason
                    ("Closed-loop runtime ended with status " <> e.repr (str status) <> ".")))
                (field "retryable" (bool (is_in status ("not_run" ∷ "planned" ∷ "failed" ∷ [])))
                  end))))
          end)

  -- `runtime_status`
  unfoldable pub runtime_status : Data → Outcome String
  runtime_status report = do status ← get "status" report; ok (text_or status "failed")

  pub record Inputs : Type 0 where
    pub report_reference : Data
    pub started_at : String
    pub finished_at : String
    pub producer : Data
    pub artifact_references : List Data
    pub warnings : List String

  abbrev pub texts : List String → Items fl.Float
  texts [] = nil
  texts (s ∷ ss) = item (str s) (texts ss)

  -- The payload, but for the error.
  unfoldable pub payload_of :
      Data → String → String → Data → Data → List Data → Inputs → Fields fl.Float → Outcome Data
  payload_of payload status outcome summary timeouts artifacts i error = do
    run_id ← at "run_id" payload
    scene_id ← at "scene_id" payload
    scene_version ← at "scene_version" payload
    algorithm ← at "algorithm" payload
    algorithm_id ← at "algorithm_id" algorithm
    algorithm_version ← at "algorithm_version" algorithm
    odd ← at "odd" payload
    weather ← copied "weather" odd end
    odd_fields ← copied "odd_id" odd weather
    duration_sec ← duration i.started_at i.finished_at
    numbers ← summary_of summary timeouts
    ok (
        obj (
          field "run_id" run_id (
            field "scene_id" scene_id (
              field "scene_version" scene_version (
                field "status" (str (status_text (is_success status))) (
                  field "runtime_status" (str status) (
                    field "outcome" (str outcome) (
                      field "algorithm"
                        (obj (
                          field "algorithm_id" algorithm_id
                            (field "algorithm_version" algorithm_version end)))
                        (field "odd" (obj odd_fields) (
                          field "started_at" (str i.started_at) (
                            field "finished_at" (str i.finished_at) (
                              field "duration_sec" (float duration_sec) (
                                field "summary" numbers (
                                  field "report" i.report_reference (
                                    field "artifacts" (arr (array artifacts)) (
                                      field "warnings" (arr (texts i.warnings))
                                        error))))))))))))))))

  unfoldable pub message_of : Data → Data → Inputs → Data → Outcome Data
  message_of request request_payload i payload = do
    run_id ← at "run_id" request_payload
    correlation ← at "correlation" request
    correlation_id ← at "correlation_id" correlation
    root_message_id ← at "root_message_id" correlation
    message_id ← at "message_id" request
    ok (
        obj (
          field "protocol_version" (str "shared_exchange_protocol.v1") (
            field "schema_version" (str "evaluation_run_result.v1") (
              field "message_id" (str ("msg-result-" <> text_of e.repr run_id)) (
                field "message_type" (str "evaluation.run.result") (
                  field "created_at" (str i.finished_at) (
                    field "producer" i.producer (
                      field "correlation"
                        (obj (
                          field "correlation_id" correlation_id (
                            field "root_message_id" root_message_id
                              (field "causation_message_id" message_id end))))
                        (field "idempotency"
                          (obj (
                            field "key" (str ("evaluation-result/" <> text_of e.repr run_id))
                              (field "scope" (str "run") end)))
                          (field "payload" payload end))))))))))

  -- The checks before anything is read from the report.
  unfoldable pub check_inputs : Data → Data → Inputs → Outcome (Unit {0})
  check_inputs request report i = do
    e.validate_shared_document request
    schema ← get "schema_version" request
    guard (is_text schema "evaluation_run_request.v1")
        (evaluation_error "request must use evaluation_run_request.v1")
    e.validate_artifact_reference i.report_reference
    role ← get "role" i.report_reference
    guard (is_text role "closed_loop_report")
        (evaluation_error "report_reference role must be closed_loop_report")
    media_type ← get "media_type" i.report_reference
    guard (is_text media_type "application/json")
        (evaluation_error "closed-loop report must use application/json")
    validate_report_identity request report

  unfoldable pub build_evaluation_result_message : Data → Data → Inputs → Outcome Data
  build_evaluation_result_message request report i = do
    check_inputs request report i
    request_payload ← at "payload" request
    status ← runtime_status report
    evaluation ← get "evaluation" report
    overall ← get "overall_result" (or_empty evaluation)
    summary ← get "summary" report
    timeouts ← timeout_count report (or_empty summary)
    artifacts ← add_artifacts (i.report_reference ∷ []) i.artifact_references
    error ← if is_success status then ok end else error_of report status
    payload ←
        payload_of request_payload status (outcome_of (text_or overall "unknown"))
          (or_empty summary) timeouts artifacts i error
    message ← message_of request request_payload i payload
    e.validate_shared_document message
    ok message
