-- ===== src/Evaluation/Attributed.antt =====
-- A result message answers the request that it names, about the run that the request asked for.
use closed_loop_bench.Base.{
  String, true, List, [], ◌∷◌, is_empty, ◌≡◌, refl, ◌∙◌, ap, sym, if◌then◌else◌,
}
use mathlib.Core.Path.{transport}
use closed_loop_bench.Base.Outcome.{
  Outcome, ok, ◌>>=◌, >>=-eq-ok, guard-bind, guard-eq-ok, ok_unique,
}
use closed_loop_bench.Json.{Floats, Value, Fields, end, str, obj, get, at, is_text}
use closed_loop_bench.Evaluation.Agreement.{
  SameRun, mismatched-SameRun, ErrsJustOtherwise, error_fields-just,
}
use closed_loop_bench.Evaluation.{
  Environment, Inputs, is_success, status_text, mismatched, validate_report_identity, duration,
  check_inputs, runtime_status, timeout_count, add_artifacts, error_of, summary_of, payload_of,
  message_of, build_evaluation_result_message, copied, or_empty, outcome_of, text_or,
}

module _ (fl : Floats) (e : Environment fl) where
  -- The status of a payload, and whether it has an error.
  record Tells (payload : Value fl.Float) (status : String) (error : Fields fl.Float) : Type 0 where
    runtime_at : at "runtime_status" payload ≡ ok (str status)
    status_at : at "status" payload ≡ ok (str (status_text (is_success status)))
    error_at : get "error" payload ≡ get "error" (obj error)

  payload-Tells :
      (request_payload : Value fl.Float) (status outcome : String)
      (summary timeouts : Value fl.Float) (artifacts : List (Value fl.Float)) (i : Inputs fl e)
      (error : Fields fl.Float) (payload : Value fl.Float)
      → payload_of fl e request_payload status outcome summary timeouts artifacts i error
        ≡ ok payload
      → Tells payload status error
  unfolding payload_of
  payload-Tells rp status outcome summary timeouts artifacts i error payload h =
      let (run_id, a1, h1) = >>=-eq-ok (at "run_id" rp) _ h in
      let (scene_id, a2, h2) = >>=-eq-ok (at "scene_id" rp) _ h1 in
      let (scene_version, a3, h3) = >>=-eq-ok (at "scene_version" rp) _ h2 in
      let (algorithm, a4, h4) = >>=-eq-ok (at "algorithm" rp) _ h3 in
      let (algorithm_id, a5, h5) = >>=-eq-ok (at "algorithm_id" algorithm) _ h4 in
      let (version, a6, h6) = >>=-eq-ok (at "algorithm_version" algorithm) _ h5 in
      let (odd, a7, h7) = >>=-eq-ok (at "odd" rp) _ h6 in
      let (weather, a8, h8) = >>=-eq-ok (copied fl e "weather" odd end) _ h7 in
      let (odd_fields, a9, h9) = >>=-eq-ok (copied fl e "odd_id" odd weather) _ h8 in
      let (seconds, a10, h10) = >>=-eq-ok (duration fl e i.started_at i.finished_at) _ h9 in
      let (numbers, a11, h11) = >>=-eq-ok (summary_of fl e summary timeouts) _ h10 in
      transport (ap (λ p. Tells p status error) (ok_unique refl h11))
        (record { runtime_at = refl; status_at = refl; error_at = refl })

  -- The message carries the payload, and answers the request.
  pub record Answers (message request payload : Value fl.Float) : Type 0 where
    pub request_id : Value fl.Float
    pub request_id_at : at "message_id" request ≡ ok request_id
    pub payload_at : at "payload" message ≡ ok payload
    pub causation_at :
        (at "correlation" message >>= λ c. at "causation_message_id" c) ≡ ok request_id

  message-Answers :
      (request request_payload : Value fl.Float) (i : Inputs fl e)
      (payload message : Value fl.Float)
      → message_of fl e request request_payload i payload ≡ ok message
      → Answers message request payload
  unfolding message_of
  message-Answers request rp i payload message h =
      let (run_id, a1, h1) = >>=-eq-ok (at "run_id" rp) _ h in
      let (correlation, a2, h2) = >>=-eq-ok (at "correlation" request) _ h1 in
      let (correlation_id, a3, h3) = >>=-eq-ok (at "correlation_id" correlation) _ h2 in
      let (root, a4, h4) = >>=-eq-ok (at "root_message_id" correlation) _ h3 in
      let (message_id, a5, h5) = >>=-eq-ok (at "message_id" request) _ h4 in
      transport (ap (λ m. Answers m request payload) (ok_unique refl h5)) (record {
        request_id = message_id;
        request_id_at = a5;
        payload_at = refl;
        causation_at = refl;
      })

  -- The error of a payload whose run has a status.
  abbrev error_fields : Value fl.Float → String → Outcome (Fields fl.Float)
  error_fields report status = if is_success status then ok end else error_of fl e report status

  -- A result message that is about a run of a request.
  pub record IsResult (request report message : Value fl.Float) : Type 0 where
    pub same_run : SameRun fl e request report
    pub status : String
    pub status_read : runtime_status fl e report ≡ ok status
    pub payload : Value fl.Float
    pub runtime_told : at "runtime_status" payload ≡ ok (str status)
    pub status_told : at "status" payload ≡ ok (str (status_text (is_success status)))
    pub error_told : ErrsJustOtherwise fl e status (get "error" payload)
    pub answers : Answers message request payload
    pub valid : e.validate_shared_document message ≡ ok tt

  no_names : (names : List String) → is_empty names ≡ true → names ≡ []
  no_names [] h = refl
  no_names (n ∷ ns) h = cc

  inputs_same :
      (request report : Value fl.Float) (i : Inputs fl e)
      → check_inputs fl e request report i ≡ ok tt
      → mismatched fl e request report ≡ ok []
  unfolding check_inputs validate_report_identity
  inputs_same request report i h =
      let (u, a1, h1) = >>=-eq-ok (e.validate_shared_document request) _ h in
      let (schema, a2, h2) = >>=-eq-ok (get "schema_version" request) _ h1 in
      let (a3, h3) = guard-bind (is_text schema "evaluation_run_request.v1") _ _ h2 in
      let (v, a4, h4) = >>=-eq-ok (e.validate_artifact_reference i.report_reference) _ h3 in
      let (role, a5, h5) = >>=-eq-ok (get "role" i.report_reference) _ h4 in
      let (a6, h6) = guard-bind (is_text role "closed_loop_report") _ _ h5 in
      let (media, a7, h7) = >>=-eq-ok (get "media_type" i.report_reference) _ h6 in
      let (a8, h8) = guard-bind (is_text media "application/json") _ _ h7 in
      let (names, a9, h9) = >>=-eq-ok (mismatched fl e request report) _ h8 in
      a9 ∙ ap ok (no_names names (guard-eq-ok (is_empty names) _ h9))

  -- A result message is built only for a report whose run, scene, algorithm, odd and seed are those
  -- of the request. It names the request as its cause and passes the contract; it succeeded just when
  -- the runtime status is a success, and has an error just otherwise, with the code of a runtime failure
  -- and the mark whether it is worth another attempt.
  pub build_evaluation_result_message-IsResult :
      (request report : Value fl.Float) (i : Inputs fl e) (message : Value fl.Float)
      → build_evaluation_result_message fl e request report i ≡ ok message
      → IsResult request report message
  unfolding build_evaluation_result_message
  build_evaluation_result_message-IsResult request report i message h =
      let (u, checked, h1) = >>=-eq-ok (check_inputs fl e request report i) _ h in
      let (rp, a1, h2) = >>=-eq-ok (at "payload" request) _ h1 in
      let (status, read, h3) = >>=-eq-ok (runtime_status fl e report) _ h2 in
      let (evaluation, a2, h4) = >>=-eq-ok (get "evaluation" report) _ h3 in
      let (overall, a3, h5) = >>=-eq-ok (get "overall_result" (or_empty fl e evaluation)) _ h4 in
      let (summary, a4, h6) = >>=-eq-ok (get "summary" report) _ h5 in
      let (timeouts, a5, h7) = >>=-eq-ok (timeout_count fl e report (or_empty fl e summary)) _ h6 in
      let (artifacts, a6, h8) =
        >>=-eq-ok (add_artifacts fl e (i.report_reference ∷ []) i.artifact_references) _ h7 in
      let (error, a7, h9) = >>=-eq-ok (error_fields report status) _ h8 in
      let (payload, a8, h10) =
        >>=-eq-ok
          (payload_of fl e rp status (outcome_of (text_or fl e overall "unknown"))
            (or_empty fl e summary) timeouts artifacts i error)
          _ h9 in
      let (m, a9, h11) = >>=-eq-ok (message_of fl e request rp i payload) _ h10 in
      let (v, a10, h12) = >>=-eq-ok (e.validate_shared_document m) _ h11 in
      let same : m ≡ message = ok_unique refl h12 in
      let tells = payload-Tells rp status _ _ timeouts artifacts i error payload a8 in
      record {
        same_run = mismatched-SameRun fl e request report (inputs_same request report i checked);
        status = status;
        status_read = read;
        payload = payload;
        runtime_told = tells.runtime_at;
        status_told = tells.status_at;
        error_told =
            transport (ap (ErrsJustOtherwise fl e status) (sym tells.error_at))
              (error_fields-just fl e report status error a7);
        answers = message-Answers request rp i payload message (a9 ∙ ap ok same);
        valid = transport (ap (λ x. e.validate_shared_document x ≡ ok tt) same) a10;
      }
