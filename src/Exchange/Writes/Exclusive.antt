-- ===== src/Exchange/Writes/Exclusive.antt =====
-- Targets that are taken: a second message of one identity, a second claim of one attempt, a second
-- terminal result of one attempt.
use closed_loop_bench.Base.{String, Bool, true, false, Option, some, ◌≡◌, refl, arith}
use closed_loop_bench.Base.Outcome.{
  Outcome, ok, err, conflict_error, exists_error, claimed_error, Error,
}
use closed_loop_bench.Json.{ℤ, str, equal}
use closed_loop_bench.Files.{FilePath, ◌▹◌, Files, Exec, ◌>>=◌, file, path_exists, mkdirs}
use closed_loop_bench.Exchange.Platform.{Platform, Document, Turn}
use closed_loop_bench.Exchange.Artifact.{validate_document}
use closed_loop_bench.Exchange.Job.{check_result, terminal_directory}
use closed_loop_bench.Exchange.Writes.{
  type_root, claim_root, refuse_existing, reserve_idempotency, reserve_claim, reserve_record,
  complete_job, terminal_record,
}
use closed_loop_bench.Exchange.Writes.Kept.{IsReserveFit}
use closed_loop_bench.Exchange.Writes.Conflict.{reserve_record_taken}

-- A directory that holds a file is there.
exists_of_file :
    {B : Type 0} (fs : Files B) (p : FilePath) (n : String) (b : B)
    → file fs (p ▹ n) ≡ some b
    → path_exists fs p ≡ true
exists_of_file fs p n b h = ground arith

pub refused_of_file :
    {B A : Type 0} (fs : Files B) (p : FilePath) (n : String) (b : B) (e : Error)
    (k : Unit {0} → Exec B A)
    → file fs (p ▹ n) ≡ some b
    → (refuse_existing p e >>= k) fs ≡ (err e, fs)
unfolding refuse_existing ◌>>=◌
refused_of_file fs p n b e k h = rw (exists_of_file fs p n b h) refl

module _ (P : Platform) where
  abbrev is_there : Error
  is_there = exists_error "message already exists"

  -- How the publication of a message ends whose directory is taken: one of the steps before the look
  -- at the directory raised, or that look did.
  pub data PublishRefused (first : Turn P.Bytes) (m : Document P)
      (validate : Option (Document P → Outcome (Unit {0}))) (verify : Bool) (fs : Files P.Bytes)
      (type : String) : Outcome FilePath → Type 0 where
    invalid :
        (e : Error)
        → validate_document P fs m validate verify ≡ err e
        → PublishRefused first m validate verify fs type (err e)
    unreserved :
        (e : Error)
        → (reserve_idempotency P first m fs).0 ≡ err e
        → PublishRefused first m validate verify fs type (err e)
    unmade :
        (e : Error)
        → (mkdirs (type_root type) (reserve_idempotency P first m fs).1).0 ≡ err e
        → PublishRefused first m validate verify fs type (err e)
    taken : PublishRefused first m validate verify fs type (err is_there)

  -- How a claim that passed its checks ends whose directory is taken.
  pub data ClaimRefused (first : Turn P.Bytes) (request_id : String) (claim : Document P)
      (fs : Files P.Bytes) : Outcome FilePath → Type 0 where
    unreserved :
        (e : Error)
        → (reserve_claim P first claim fs).0 ≡ err e
        → ClaimRefused first request_id claim fs (err e)
    unmade :
        (e : Error)
        → (mkdirs (claim_root request_id) (reserve_claim P first claim fs).1).0 ≡ err e
        → ClaimRefused first request_id claim fs (err e)
    taken :
        ClaimRefused first request_id claim fs
          (err (claimed_error "job attempt is already claimed"))

  -- A result that passes its checks, for an attempt whose terminal record names another one, raises the
  -- conflict, and the files are left as the refused reservation left them: nothing of the publication
  -- of the result was done.
  pub complete_job_conflict :
      (first second third : Turn P.Bytes) (request_id : String) (result payload v : Document P)
      (fs : Files P.Bytes) (attempt : ℤ) (d : FilePath) (n : String) (b : P.Bytes)
      → IsReserveFit P fs first (d ▹ n)
      → check_result P fs (str request_id) result ≡ ok attempt
      → terminal_directory P (str request_id) attempt ≡ ok (d ▹ n)
      → terminal_record P request_id result attempt ≡ ok payload
      → (mkdirs d fs).0 ≡ ok tt
      → file fs (d ▹ n ▹ "record.json") ≡ some b
      → P.loads b ≡ some v
      → equal P.floats v payload ≡ false
      → complete_job P first second third request_id result fs ≡ (
        err (conflict_error "job attempt already has a different terminal result"),
        (reserve_record P first
            (d ▹ n)
            payload
            "job attempt already has a different terminal result"
            fs).1,
      )
  unfolding complete_job ◌>>=◌
  complete_job_conflict first second third request_id result payload v fs attempt d n b fit checked
        spot recorded made there loaded other =
      rw
        (
          checked,
          spot,
          recorded,
          reserve_record_taken P first d n payload
              "job attempt already has a different terminal result" fs b v fit made there loaded
              other,
        )
        refl
