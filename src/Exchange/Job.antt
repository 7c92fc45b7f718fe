-- ===== src/Exchange/Job.antt =====
-- Job attempts: the checks of `claim_job` and of `complete_job` before they write, `load_job_claim`
-- and `_terminal_record_path`.
pub mod Claimable
use closed_loop_bench.Base.{
  suc, leb, String, ◌<>◌, Bool, true, false, ◌==◌, ◌&&◌, [], some, none, padded, if◌then◌else◌,
}
use closed_loop_bench.Base.Outcome.{
  Outcome, ok, err, message_error, validation_error, os_error, decode_error, key_error, value_error,
  type_error, guard, refuse, ◌>>=◌, ◌>>◌,
}
use closed_loop_bench.Json.{ℤ, pos, negsuc, str, get, at, is_text, truthy, to_int, equal}
use closed_loop_bench.Files.{FilePath, ◌▹◌, Files, is_file, read}
use closed_loop_bench.Exchange.Platform.{Platform, Document}
use closed_loop_bench.Exchange.Segment.{safe_segment}
use closed_loop_bench.Exchange.Reading.{read_json, validate_idempotency}
use closed_loop_bench.Exchange.Artifact.{validate_document, validate_artifact_on_disk}
use closed_loop_bench.Exchange.Message.{ready_name, load_message}

abbrev pub claim_name : String
claim_name = "claim.json"

abbrev pub job_type : String
job_type = "shared.job.request"

abbrev pub leb_ℤ : ℤ → ℤ → Bool
leb_ℤ (pos m) (pos n) = leb m n
leb_ℤ (pos m) (negsuc n) = false
leb_ℤ (negsuc m) (pos n) = true
leb_ℤ (negsuc m) (negsuc n) = leb n m

-- `n - 1`
abbrev pub before : ℤ → ℤ
before (pos (suc n)) = pos n
before (pos _) = negsuc 0
before (negsuc n) = negsuc (suc n)

-- `f"attempt-{attempt:04d}"`
abbrev pub attempt_name : ℤ → String
attempt_name (pos n) = "attempt-" <> padded 4 n
attempt_name (negsuc n) = "attempt--" <> padded 3 (suc n)

module _ (P : Platform) where
  unfoldable pub terminal_directory : Document P → ℤ → Outcome FilePath
  terminal_directory request_id attempt = do
    id ← safe_segment P request_id "request message id"
    ok ([] ▹ "terminals" ▹ job_type ▹ id ▹ attempt_name attempt)

  unfoldable pub claim_directory : Document P → ℤ → Outcome FilePath
  claim_directory request_id attempt = do
    id ← safe_segment P request_id "request message id"
    ok ([] ▹ "claims" ▹ job_type ▹ id ▹ attempt_name attempt)

  unfoldable pub load_job_claim : Files P.Bytes → Document P → ℤ → Outcome (Document P)
  load_job_claim fs request_id attempt = do
    guard (leb_ℤ (pos 1) attempt) (message_error "claim attempt must be positive")
    claim_dir ← claim_directory request_id attempt
    let claim_path = claim_dir ▹ claim_name
    guard (is_file fs claim_path && is_file fs (claim_dir ▹ ready_name))
        (message_error "job claim is not ready")
    claim ← read_json P fs claim_path
    ready ← read_json P fs (claim_dir ▹ ready_name)
    ready_id ← get "message_id" ready
    claim_id ← get "message_id" claim
    guard (equal P.floats ready_id claim_id) (message_error "claim READY identity mismatch")
    content ← read fs claim_path
    digest ← get "message_sha256" ready
    guard (is_text digest (P.sha256 content)) (message_error "claim changed after publication")
    validate_document P fs claim none true
    validate_idempotency P fs claim
    ok claim

  -- `datetime.fromisoformat(value.replace("Z", "+00:00"))`
  abbrev pub parse_time : Document P → Outcome ℤ
  parse_time (str s) = elim (P.instant s) [
    | none ↦ err (value_error "invalid isoformat string")
    | some t ↦ ok t
  ]
  parse_time _ = err type_error

  -- `payload[key]` equals `request_payload[key]`
  abbrev pub same_field : String → Document P → Document P → Outcome Bool
  same_field key a b = do x ← at key a; y ← at key b; ok (equal P.floats x y)

  abbrev pub business_schema : Document P → Outcome String
  business_schema (str kind) =
      if kind == "reconstruction"
      then ok "reconstruction_request.v1"
      else if kind == "evaluation"
      then ok "evaluation_run_request.v1"
      else err (key_error kind)
  business_schema _ = err type_error

  -- `except (OSError, json.JSONDecodeError, SharedProtocolValidationError)`
  abbrev invalid_business : {A : Type 0} → Outcome A → Outcome A
  invalid_business (ok a) = ok a
  invalid_business (err os_error) = err (message_error "invalid business request artifact")
  invalid_business (err decode_error) = err (message_error "invalid business request artifact")
  invalid_business (err (validation_error text)) =
      err (message_error "invalid business request artifact")
  invalid_business (err e) = err e

  unfoldable pub load_business : Files P.Bytes → FilePath → Outcome (Document P)
  load_business fs path =
      invalid_business
        (do business ← read_json P fs path; P.validate_shared_document business; ok business)

  -- The request artifact of the job and the request that caused it agree.
  unfoldable pub check_business : Files P.Bytes → Document P → Document P → Outcome (Unit {0})
  check_business fs request request_payload = do
    artifact ← at "request_artifact" request_payload
    path ← validate_artifact_on_disk P fs artifact
    business ← load_business fs path
    business_id ← get "message_id" business
    wanted_id ← at "request_message_id" request_payload
    guard (equal P.floats business_id wanted_id)
        (message_error "job request_artifact message ID does not match")
    correlation ← at "correlation" request
    causation ← get "causation_message_id" correlation
    own_id ← at "message_id" business
    guard (equal P.floats causation own_id)
        (message_error "job request causation does not match its business request")
    kind ← at "job_kind" request_payload
    schema ← business_schema kind
    business_version ← get "schema_version" business
    guard (is_text business_version schema)
        (message_error "business request type does not match job_kind")

  -- The claim or the result names the job of the request.
  unfoldable pub check_job : Document P → Document P → Document P → String → Outcome (Unit {0})
  check_job payload request_payload request_id what = do
    named ← at "request_message_id" payload
    guard (equal P.floats named request_id)
        (message_error (what <> " request_message_id does not match"))
    same_id ← same_field "job_id" payload request_payload
    guard same_id (message_error (what <> " job_id does not match the job request"))
    same_kind ← same_field "job_kind" payload request_payload
    guard same_kind (message_error (what <> " job_kind does not match the job request"))

  -- `document["producer"]["project"]` is the target project of the job.
  unfoldable pub check_producer : Document P → Document P → String → Outcome (Unit {0})
  check_producer document request_payload what = do
    producer ← at "producer" document
    project ← at "project" producer
    target ← at "target_project" request_payload
    guard (equal P.floats project target)
        (message_error (what <> " producer is not the target project"))

  unfoldable pub check_correlation :
      Document P → Document P → Document P → String → Outcome (Unit {0})
  check_correlation document request cause what = do
    correlation ← at "correlation" document
    id ← at "correlation_id" correlation
    request_correlation ← at "correlation" request
    request_id ← at "correlation_id" request_correlation
    guard (equal P.floats id request_id)
        (message_error (what <> " correlation_id does not match the job request"))
    causation ← get "causation_message_id" correlation
    guard (equal P.floats causation cause)
        (message_error (what <> " causation_message_id does not match"))

  -- `(payload.get("error") or {}).get("retryable")`
  abbrev retryable_error : Document P → Outcome Bool
  retryable_error e =
      if truthy P.floats e
      then (do flag ← get "retryable" e; ok (truthy P.floats flag))
      else ok false

  -- `payload["status"] == "failed" and bool(...)` of the terminal message.
  unfoldable pub is_retryable : Document P → Outcome Bool
  is_retryable terminal = do
    payload ← at "payload" terminal
    status ← at "status" payload
    if is_text status "failed" then (do e ← get "error" payload; retryable_error e) else ok false

  -- The terminal message that the record of an attempt names.
  unfoldable pub load_terminal : Files P.Bytes → FilePath → Outcome (Document P)
  load_terminal fs path = do
    record' ← read_json P fs path
    type ← at "message_type" record'
    id ← at "message_id" record'
    load_message P fs type id none true

  -- The terminal result of the previous attempt asks for another one.
  unfoldable pub check_terminal : Files P.Bytes → FilePath → Outcome (Unit {0})
  check_terminal fs path = do
    terminal ← load_terminal fs path
    retryable ← is_retryable terminal
    guard retryable (message_error "previous attempt is terminal and not retryable")

  -- The claim comes after the lease of the previous one.
  unfoldable pub check_lease : Document P → Document P → Outcome (Unit {0})
  check_lease previous payload = do
    previous_payload ← at "payload" previous
    expiry ← at "lease_expires_at" previous_payload
    claimed_at ← at "claimed_at" payload
    claimed ← parse_time claimed_at
    expires ← parse_time expiry
    refuse (leb_ℤ claimed expires) (message_error "previous attempt lease has not expired")

  -- An attempt after the first wants its predecessor to have failed retryably, or to have outlived
  -- its lease.
  unfoldable pub check_predecessor :
      Files P.Bytes → Document P → ℤ → Document P → Outcome (Unit {0})
  check_predecessor fs request_id attempt payload = do
    previous ← load_job_claim fs request_id (before attempt)
    terminal_dir ← terminal_directory request_id (before attempt)
    if is_file fs (terminal_dir ▹ "record.json")
        then check_terminal fs (terminal_dir ▹ "record.json")
        else check_lease previous payload

  -- The checks of `claim_job` up to the reservation; the attempt is returned.
  unfoldable pub check_claim : Files P.Bytes → Document P → Document P → Outcome ℤ
  check_claim fs request_id claim = do
    request ← load_message P fs (str job_type) request_id none true
    validate_document P fs claim none true
    schema ← get "schema_version" claim
    guard (is_text schema "shared_job_claim.v1")
        (message_error "claim must use shared_job_claim.v1")
    payload ← at "payload" claim
    request_payload ← at "payload" request
    check_business fs request request_payload
    check_job payload request_payload request_id "claim"
    check_producer claim request_payload "claim"
    attempt_value ← at "attempt" payload
    attempt ← to_int P.floats attempt_value
    max_value ← at "max_attempts" request_payload
    max_attempts ← to_int P.floats max_value
    guard (leb_ℤ attempt max_attempts) (message_error "claim attempt exceeds max_attempts")
    check_correlation claim request request_id "claim"
    if leb_ℤ attempt (pos 1) then ok tt else check_predecessor fs request_id attempt payload
    ok attempt

  -- The checks of `complete_job` up to the reservation; the attempt is returned.
  unfoldable pub check_result : Files P.Bytes → Document P → Document P → Outcome ℤ
  check_result fs request_id result = do
    request ← load_message P fs (str job_type) request_id none true
    validate_document P fs result none true
    schema ← get "schema_version" result
    guard (is_text schema "shared_job_result.v1")
        (message_error "terminal job result must use shared_job_result.v1")
    payload ← at "payload" result
    request_payload ← at "payload" request
    check_job payload request_payload request_id "result"
    attempt_value ← at "attempt" payload
    attempt ← to_int P.floats attempt_value
    claim ← load_job_claim fs request_id attempt
    named ← at "claim_message_id" payload
    claim_id ← at "message_id" claim
    guard (equal P.floats named claim_id)
        (message_error "result claim_message_id does not match the claimed attempt")
    check_producer result request_payload "result"
    check_correlation result request claim_id "result"
    ok attempt
