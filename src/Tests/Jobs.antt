-- ===== src/Tests/Jobs.antt =====
-- A job with two attempts: its request is published, the first attempt is claimed and fails
-- retryably, and the second is claimed.
use closed_loop_bench.Base.{padded, String, true, none, some, [], ◌∷◌, ◌≡◌, refl, ap}
use closed_loop_bench.Base.Outcome.{
  Outcome, ok, err, message_error, claimed_error, conflict_error, ok_unique,
}
use closed_loop_bench.Json
use closed_loop_bench.Json.{pos, null, bool, int, str, obj, field, end, equal}
use closed_loop_bench.Files.{FilePath, ◌▹◌, Files, update}
use closed_loop_bench.Files.Frame.{IsKept}
use closed_loop_bench.Exchange.Platform.{Document}
use closed_loop_bench.Exchange.Segment.{contained_artifact, split_slash}
use closed_loop_bench.Exchange.Reading.{record_of}
use closed_loop_bench.Exchange.Artifact.{reference_to, validate_artifact_on_disk}
use closed_loop_bench.Exchange.Job.{
  check_claim, check_result, check_business, check_job, check_producer, check_correlation,
  check_predecessor, check_lease, check_terminal, is_retryable, load_terminal, load_business,
  load_job_claim, claim_directory, terminal_directory,
}
use closed_loop_bench.Exchange.Writes.{
  publish_message, reserve_idempotency, reserve_record, claim_job, install_claim, stage_claim,
  write_claim, complete_job, terminal_record,
}
use closed_loop_bench.Exchange.Writes.Kept.{IsReserveFit, IsMessageFit}
use mathlib.Core.Path.{transport}
use closed_loop_bench.Exchange.Writes.KeptJobs.{
  claim_job-IsKept, complete_job-IsKept, IsRecorded, after_terminal,
}
use closed_loop_bench.Exchange.Writes.Conflict.{claim_job_conflict}
use closed_loop_bench.Exchange.Writes.Exclusive.{complete_job_conflict}
use closed_loop_bench.Tests.Sample.{platform, empty, turn, Blob, document, fit_at}
use closed_loop_bench.Tests.Exchange.{run, polite}

-- A document of the job's protocol.
abbrev shared :
    String → String → String → String → Document platform → Document platform → Document platform
shared schema type id key correlation payload = obj (
    field "protocol_version" (str "shared_exchange_protocol.v1") (
      field "schema_version" (str schema) (
        field "message_type" (str type) (
          field "message_id" (str id) (
            field "producer" (obj (field "project" (str "p") end)) (
              field "idempotency" (obj (field "scope" (str "run") (field "key" (str key) end)))
                (field "correlation" correlation (field "payload" payload end))))))))

abbrev caused_by : String → Document platform
caused_by id = obj (field "correlation_id" (str "c") (field "causation_message_id" (str id) end))

abbrev business : Document platform
business =
    obj
      (field "schema_version" (str "evaluation_run_request.v1") (field "message_id" (str "b1") end))

abbrev request : Document platform
request = shared "shared_job_request.v1" "shared.job.request" "r1" "k0" (caused_by "b1") (
    obj (
      field "request_artifact"
        (reference_to platform "artifacts/b.json" "request" "json" none (document business))
        (field "request_message_id" (str "b1") (
          field "job_id" (str "j") (
            field "job_kind" (str "evaluation")
              (field "target_project" (str "p") (field "max_attempts" (int (pos 3)) end)))))))

-- What a claim and a result say of their job.
abbrev of_job : Json.Fields Json.ℤ → Document platform
of_job fs = obj (
    field "request_message_id" (str "r1")
      (field "job_id" (str "j") (field "job_kind" (str "evaluation") fs)))

abbrev claim : Json.ℤ → String → String → String → String → Document platform
claim n id key at ends = shared "shared_job_claim.v1" "shared.job.claim" id key (caused_by "r1") (
    of_job (
      field "attempt" (int n)
        (field "claimed_at" (str at) (field "lease_expires_at" (str ends) end))))

abbrev result : String → String → Document platform
result id key = shared "shared_job_result.v1" "shared.job.result" id key (caused_by "c1") (
    of_job (
      field "attempt" (int (pos 1)) (
        field "claim_message_id" (str "c1") (
          field "status" (str "failed")
            (field "error" (obj (field "retryable" (bool true) end)) end)))))

abbrev first_claim : Document platform
first_claim = claim (pos 1) "c1" "k1" "t1" "t5"

abbrev second_claim : Document platform
second_claim = claim (pos 2) "c2" "k2" "t1" "t5"

abbrev stored : Files Blob
stored = update ([] ▹ "artifacts") (some (("b.json", document business) ∷ [])) empty

-- The request is published.
requested : Files Blob
unfolding run split_slash contained_artifact validate_artifact_on_disk
requested = (publish_message platform (turn "a") (turn "b") request none true stored).1

check : Files Blob → Document platform → Outcome Json.ℤ
unfolding run split_slash contained_artifact validate_artifact_on_disk check_claim check_business
    check_job check_producer check_correlation check_predecessor check_lease check_terminal padded
    is_retryable load_terminal load_business load_job_claim claim_directory terminal_directory
check fs c = check_claim platform fs (str "r1") c

first_ok : check requested first_claim ≡ ok (pos 1)
unfolding requested check
first_ok = refl

claimed : Files Blob
unfolding padded requested check claim_job install_claim stage_claim write_claim
claimed = (claim_job platform (turn "d") (turn "e") "r1" first_claim requested).1

-- The first attempt fails, and asks for another one.
failed : Files Blob
unfolding padded claimed check_result complete_job terminal_record
failed = (complete_job platform (turn "f") (turn "g") (turn "h") "r1" (result "t1" "k5") claimed).1

second_refused :
    check claimed second_claim ≡ err (message_error "previous attempt lease has not expired")
unfolding padded claimed
second_refused = refl

second_ok : check failed second_claim ≡ ok (pos 2)
unfolding padded failed
second_ok = refl

claim_job-IsKept_example :
    IsKept requested (claim_job platform (turn "d") (turn "e") "r1" first_claim requested).1
unfolding padded claimed
claim_job-IsKept_example =
    claim_job-IsKept platform (turn "d") (turn "e") "r1" first_claim requested
      (fit_at first_claim requested (turn "d") ([] ▹ "idempotency" ▹ "run" ▹ "k1") refl
        (record { no_dir = refl; no_file = refl; below = λ m. refl; respects = polite _ _ }))
      (λ attempt. record {
        no_dir = refl;
        no_file = refl;
        below = λ m. refl;
        respects = polite _ _;
      })

claim_job_conflict_example :
    claim_job platform (turn "d") (turn "e") "r1" (claim (pos 1) "c9" "k1" "t1" "t5") claimed ≡ (
      err (claimed_error "job attempt already has a claim identity"),
      (reserve_idempotency platform (turn "d") (claim (pos 1) "c9" "k1" "t1" "t5") claimed).1,
    )
unfolding padded claimed
claim_job_conflict_example =
    claim_job_conflict platform (claim (pos 1) "c9" "k1" "t1" "t5")
      (record_of platform (str "run") (str "k1") (str "shared.job.claim") (str "c9"))
      ([] ▹ "idempotency" ▹ "run") "k1"
      (document (record_of platform (str "run") (str "k1") (str "shared.job.claim") (str "c1")))
      (record_of platform (str "run") (str "k1") (str "shared.job.claim") (str "c1")) claimed refl
      refl refl refl refl refl (turn "d") (turn "e") "r1" (pos 1)
      (record { no_dir = refl; no_file = refl; below = λ m. refl; respects = polite _ _ }) refl

-- The directory of the terminal records of the request.
abbrev terminal_root : FilePath
terminal_root = [] ▹ "terminals" ▹ "shared.job.request" ▹ "r1"

-- The terminal record of the first attempt.
abbrev terminal_of : String → Document platform
terminal_of id = obj (
    field "protocol_version" (str "shared_exchange_protocol.v1") (
      field "request_message_id" (str "r1") (
        field "attempt" (int (pos 1))
          (field "message_type" (str "shared.job.result") (field "message_id" (str id) end)))))

complete_job_conflict_example :
    complete_job platform (turn "i") (turn "j") (turn "k") "r1" (result "t2" "k6") failed ≡ (
      err (conflict_error "job attempt already has a different terminal result"),
      (reserve_record platform
          (turn "i")
          (terminal_root ▹ "attempt-0001")
          (terminal_of "t2")
          "job attempt already has a different terminal result"
          failed).1,
    )
unfolding padded failed
complete_job_conflict_example =
    complete_job_conflict platform (turn "i") (turn "j") (turn "k") "r1" (result "t2" "k6")
      (terminal_of "t2") (terminal_of "t1") failed (pos 1) terminal_root "attempt-0001"
      (document (terminal_of "t1"))
      (record { no_dir = refl; no_file = refl; below = λ m. refl; respects = polite _ _ }) refl refl
      refl refl refl refl refl

carry :
    {A B : Type 0} (Q : A → B → Type 0) {a a' : A} {b b' : B} → a ≡ a' → b ≡ b' → Q a b → Q a' b'
carry Q {a' = a'} {b = b} p q h = transport (ap (Q a') q) (transport (ap (λ x. Q x b) p) h)

-- The record of the first attempt is the one that is written.
recorded_first :
    (path : FilePath) (payload : Document platform)
    → IsRecorded platform claimed "r1" (result "t1" "k5") path payload
    → (terminal_root ▹ "attempt-0001" ≡ path) × (terminal_of "t1" ≡ payload)
unfolding padded failed
recorded_first path payload h =
    let one : h.attempt ≡ pos 1 = ok_unique h.checked refl in
    (
      ok_unique {r = terminal_directory platform (str "r1") (pos 1)} refl
          (transport (ap (λ n. terminal_directory platform (str "r1") n ≡ ok path) one) h.path_at),
      ok_unique {r = terminal_record platform "r1" (result "t1" "k5") (pos 1)} refl (
          transport (ap (λ n. terminal_record platform "r1" (result "t1" "k5") n ≡ ok payload) one)
            h.payload_at),
    )

complete_job-IsKept_example :
    IsKept claimed
      (complete_job platform (turn "f") (turn "g") (turn "h") "r1" (result "t1" "k5") claimed).1
unfolding padded failed
complete_job-IsKept_example =
    complete_job-IsKept platform (turn "f") (turn "g") (turn "h") "r1" (result "t1" "k5") claimed
      (λ path payload h.
        carry (λ p r. IsReserveFit platform claimed (turn "f") p) (recorded_first path payload h).0
          (recorded_first path payload h).1
          (record { no_dir = refl; no_file = refl; below = λ m. refl; respects = polite _ _ }))
      (λ path spot payload h known.
        carry
          (λ p r.
            IsReserveFit platform (after_terminal platform (turn "f") p r claimed) (turn "g") spot)
          (recorded_first path payload h).0 (recorded_first path payload h).1
          (fit_at (result "t1" "k5") _ (turn "g") ([] ▹ "idempotency" ▹ "run" ▹ "k5") refl
            (record { no_dir = refl; no_file = refl; below = λ m. refl; respects = polite _ _ })
            spot known))
      (λ path payload names h named.
        carry
          (λ p r.
            IsMessageFit platform
              (reserve_idempotency platform (turn "g") (result "t1" "k5")
                (after_terminal platform (turn "f") p r claimed)).1
              (turn "h") names.0 names.1)
          (recorded_first path payload h).0 (recorded_first path payload h).1
          (transport
            (ap
              (λ m.
                IsMessageFit platform
                  (reserve_idempotency platform (turn "g") (result "t1" "k5") (
                    after_terminal platform (turn "f") (terminal_root ▹ "attempt-0001")
                      (terminal_of "t1") claimed)).1
                  (turn "h") m.0 m.1)
              (ok_unique {a = ("shared.job.result", "t1")} refl named))
            (record { no_dir = refl; no_file = refl; below = λ m. refl; respects = polite _ _ })))
