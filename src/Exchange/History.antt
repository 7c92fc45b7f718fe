-- ===== src/Exchange/History.antt =====
-- Histories of the exchange: `publish_message`, `claim_job` and `complete_job` called by any number
-- of workers, one after the other, each with what the others do inside its critical sections.
pub mod Marks
pub mod Distinct
pub mod Register
use closed_loop_bench.Base.{String, true, Option, none, List, [], ◌∷◌, ◌++◌, ◌≡◌}
use closed_loop_bench.Base.Outcome.{Outcome, ok, err}
use closed_loop_bench.Json.{ℤ, str}
use closed_loop_bench.Files.{FilePath, Files}
use closed_loop_bench.Exchange.Platform.{Platform, Document, Turn}
use closed_loop_bench.Exchange.Reading.{idempotency_path}
use closed_loop_bench.Exchange.Job.{check_claim}
use closed_loop_bench.Exchange.Writes.{
  reserve_idempotency, publish_message, claim_job, complete_job,
}
use closed_loop_bench.Exchange.Writes.Kept.{IsReserveFit, IsMessageFit}
use closed_loop_bench.Exchange.Writes.KeptJobs.{IsClaimFit}
use closed_loop_bench.Exchange.Writes.Texts.{HasTexts}
use closed_loop_bench.Exchange.Writes.Claimed.{claim_file}
use closed_loop_bench.Exchange.Writes.Published.{message_file, IsCompleteFit}

module _ (P : Platform) where
  -- What a call that returned has brought about.
  pub data Event : Type 0 where
    publication : String → String → Document P → Event
    claim_made : String → ℤ → Document P → Event

  -- The file that shows it.
  abbrev pub mark : Event → FilePath
  mark (publication type id m) = message_file P type id
  mark (claim_made request_id attempt claim) = claim_file P request_id attempt

  abbrev pub content : Event → P.Bytes
  content (publication type id m) = P.dumps m
  content (claim_made request_id attempt claim) = P.dumps claim

  -- A call that raised has brought about nothing.
  abbrev pub on_return : {A : Type 0} → Outcome A → Event → List Event
  on_return (ok a) e = e ∷ []
  on_return (err text) e = []

  -- The attempt of a claim is known when its checks have passed.
  abbrev pub on_claim : {A : Type 0} → Outcome ℤ → Outcome A → String → Document P → List Event
  on_claim (err text) r request_id claim = []
  on_claim (ok attempt) r request_id claim = on_return r (claim_made request_id attempt claim)

  -- One call of a worker with its default arguments, whether it returns or raises. Its staging
  -- names are new, and what the others do meanwhile keeps files and leaves those names alone.
  pub data Step : Files P.Bytes → List Event → Files P.Bytes → Type 0 where
    publish :
        (first second : Turn P.Bytes) (m : Document P) (t : HasTexts P m) (fs : Files P.Bytes)
        → ((path : FilePath) → idempotency_path P m ≡ ok path → IsReserveFit P fs first path)
        → IsMessageFit P (reserve_idempotency P first m fs).1 second t.type t.id
        → Step fs
            (on_return
              (publish_message P first second m none true fs).0
              (publication t.type t.id m))
            (publish_message P first second m none true fs).1
    claim :
        (first second : Turn P.Bytes) (request_id : String) (m : Document P) (fs : Files P.Bytes)
        → ((path : FilePath) → idempotency_path P m ≡ ok path → IsReserveFit P fs first path)
        → ((attempt : ℤ)
            → IsClaimFit P (reserve_idempotency P first m fs).1 second request_id attempt)
        → Step fs
            (on_claim
              (check_claim P fs (str request_id) m)
              (claim_job P first second request_id m fs).0
              request_id
              m)
            (claim_job P first second request_id m fs).1
    complete :
        (first second third : Turn P.Bytes) (request_id : String) (m : Document P)
        (t : HasTexts P m) (fs : Files P.Bytes)
        → IsCompleteFit P first second third request_id m fs
        → Step fs
            (on_return
              (complete_job P first second third request_id m fs).0
              (publication t.type t.id m))
            (complete_job P first second third request_id m fs).1

  -- Calls one after the other, with their events, the latest first.
  pub data History (fs : Files P.Bytes) : List Event → Files P.Bytes → Type 0 where
    here : History fs [] fs
    next :
        {es new : List Event} {gs hs : Files P.Bytes}
        → History fs es gs
        → Step gs new hs
        → History fs (new ++ es) hs
