-- ===== src/Exchange/Job/Claimable.antt =====
-- When an attempt may be claimed: what the checks of `claim_job` establish.
use closed_loop_bench.Base.{true, false, none, ◌≡◌, ◌⊎◌}
use closed_loop_bench.Base.Outcome.{Outcome, ok}
use closed_loop_bench.Json.{ℤ, pos, str, at, get, is_text, to_int, truthy, equal}
use closed_loop_bench.Files.{FilePath, ◌▹◌, Files, is_file}
use closed_loop_bench.Exchange.Platform.{Platform, Document}
use closed_loop_bench.Exchange.Artifact.{validate_document}
use closed_loop_bench.Exchange.Message.{load_message}
use closed_loop_bench.Exchange.Job.{
  job_type, leb_ℤ, before, terminal_directory, load_job_claim, parse_time, load_terminal,
}

module _ (P : Platform) where
  -- A payload names a request, and the job and the kind that the payload of the request names.
  pub record NamesJob (payload request_payload request_id : Document P) : Type 0 where
    pub named : Document P
    pub job : Document P
    pub kind : Document P
    pub request_job : Document P
    pub request_kind : Document P
    pub named_at : at "request_message_id" payload ≡ ok named
    pub same_request : equal P.floats named request_id ≡ true
    pub job_at : at "job_id" payload ≡ ok job
    pub request_job_at : at "job_id" request_payload ≡ ok request_job
    pub same_job : equal P.floats job request_job ≡ true
    pub kind_at : at "job_kind" payload ≡ ok kind
    pub request_kind_at : at "job_kind" request_payload ≡ ok request_kind
    pub same_kind : equal P.floats kind request_kind ≡ true

  -- The claim comes later than the end of the lease of the claim before it.
  pub record LeaseOver (previous payload : Document P) : Type 0 where
    pub previous_payload : Document P
    pub expiry : Document P
    pub claimed_at : Document P
    pub now : ℤ
    pub ends : ℤ
    pub previous_payload_at : at "payload" previous ≡ ok previous_payload
    pub expiry_at : at "lease_expires_at" previous_payload ≡ ok expiry
    pub claimed_at_at : at "claimed_at" payload ≡ ok claimed_at
    pub now_at : parse_time P claimed_at ≡ ok now
    pub ends_at : parse_time P expiry ≡ ok ends
    pub later : leb_ℤ now ends ≡ false

  -- A terminal message that failed, with an error that is marked as retryable.
  pub record FailedRetryably (terminal : Document P) : Type 0 where
    pub payload : Document P
    pub status : Document P
    pub error : Document P
    pub flag : Document P
    pub payload_at : at "payload" terminal ≡ ok payload
    pub status_at : at "status" payload ≡ ok status
    pub failed : is_text status "failed" ≡ true
    pub error_at : get "error" payload ≡ ok error
    pub flag_at : get "retryable" error ≡ ok flag
    pub is_set : truthy P.floats flag ≡ true

  -- The result of the attempt before asks for another attempt.
  pub record RetryAsked (fs : Files P.Bytes) (path : FilePath) : Type 0 where
    pub terminal : Document P
    pub loaded : load_terminal P fs path ≡ ok terminal
    pub retryable : FailedRetryably terminal

  -- The attempt before left the job open.
  pub record LeftOpen (fs : Files P.Bytes) (request_id : Document P) (attempt : ℤ)
      (payload : Document P) : Type 0 where
    pub previous : Document P
    pub held : load_job_claim P fs request_id (before attempt) ≡ ok previous
    pub directory : FilePath
    pub spot : terminal_directory P request_id (before attempt) ≡ ok directory
    pub open_again :
        ((is_file fs (directory ▹ "record.json") ≡ true)
          × RetryAsked fs (directory ▹ "record.json"))
        ⊎ ((is_file fs (directory ▹ "record.json") ≡ false) × LeaseOver previous payload)

  -- What a checked claim has: the job's request, its own attempt within the bound, and, after the
  -- first attempt, a predecessor that left the job open.
  pub record IsClaimable (fs : Files P.Bytes) (request_id claim : Document P) (attempt : ℤ)
      : Type 0 where
    pub request : Document P
    pub request_loaded : load_message P fs (str job_type) request_id none true ≡ ok request
    pub payload : Document P
    pub request_payload : Document P
    pub payload_at : at "payload" claim ≡ ok payload
    pub request_payload_at : at "payload" request ≡ ok request_payload
    pub valid : validate_document P fs claim none true ≡ ok tt
    pub names_job : NamesJob payload request_payload request_id
    pub max_value : Document P
    pub max_attempts : ℤ
    pub max_value_at : at "max_attempts" request_payload ≡ ok max_value
    pub max_attempts_at : to_int P.floats max_value ≡ ok max_attempts
    pub within : leb_ℤ attempt max_attempts ≡ true
    pub predecessor : leb_ℤ attempt (pos 1) ≡ false → LeftOpen fs request_id attempt payload
