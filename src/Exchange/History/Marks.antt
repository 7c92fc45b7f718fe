-- ===== src/Exchange/History/Marks.antt =====
-- What one call of a history does to the files: it keeps them, and what it brought about was not
-- there before and is there afterwards.
use closed_loop_bench.Base.{String, true, none, some, List, [], ◌∷◌, ◌≡◌, refl, ◌∙◌, ap}
use closed_loop_bench.Base.Outcome.{Outcome, ok, err}
use closed_loop_bench.Json.{ℤ, str}
use closed_loop_bench.Files.{FilePath, Files, file}
use closed_loop_bench.Files.Frame.{IsKept}
use closed_loop_bench.Exchange.Platform.{Platform, Document, Turn}
use closed_loop_bench.Exchange.Job.{check_claim}
use closed_loop_bench.Exchange.Writes.{complete_job}
use closed_loop_bench.Exchange.Writes.Kept.{publish_message-IsKept, reserve_record-IsKept}
use closed_loop_bench.Exchange.Writes.KeptJobs.{
  claim_job-IsKept, complete_job-IsKept, after_terminal,
}
use closed_loop_bench.Exchange.Writes.Texts.{HasTexts, names_text}
use closed_loop_bench.Exchange.Writes.Claimed.{claim_job-claims, absent-IsKept}
use closed_loop_bench.Exchange.Writes.Published.{
  publish_message-publishes, complete_job-completes, Completion, IsCompleteFit, message_file,
}
use closed_loop_bench.Exchange.Writes.RoundTrip.{publish_named}
use closed_loop_bench.Exchange.History.{Event, mark, content, on_return, on_claim, Step}

module _ (P : Platform) where
  -- The events of a call, as its files show them.
  pub data Shows (fs : Files P.Bytes) : List (Event P) → Files P.Bytes → Type 0 where
    nothing : {gs : Files P.Bytes} → Shows fs [] gs
    one :
        {e : Event P} {gs : Files P.Bytes}
        → file fs (mark P e) ≡ none
        → file gs (mark P e) ≡ some (content P e)
        → Shows fs (e ∷ []) gs

  on_return-Shows :
      {A : Type 0} (r : Outcome A) (e : Event P) (fs gs : Files P.Bytes)
      → ((a : A)
          → r ≡ ok a
          → (file fs (mark P e) ≡ none) × (file gs (mark P e) ≡ some (content P e)))
      → Shows fs (on_return P r e) gs
  on_return-Shows (ok a) e fs gs h = let (absent, there) = h a refl in one absent there
  on_return-Shows (err text) e fs gs h = nothing

  on_claim-Shows :
      {A : Type 0} (checked : Outcome ℤ) (r : Outcome A) (request_id : String) (m : Document P)
      (fs gs : Files P.Bytes)
      → ((attempt : ℤ) (a : A)
          → checked ≡ ok attempt
          → r ≡ ok a
          → let e : Event P = Event.claim_made request_id attempt m in
            (file fs (mark P e) ≡ none) × (file gs (mark P e) ≡ some (content P e)))
      → Shows fs (on_claim P checked r request_id m) gs
  on_claim-Shows (ok attempt) r request_id m fs gs h =
      on_return-Shows r (Event.claim_made request_id attempt m) fs gs λ a e. h attempt a refl e
  on_claim-Shows (err text) r request_id m fs gs h = nothing

  -- What `complete_job` published.
  pub Completion-marks :
      (first second third : Turn P.Bytes) (request_id : String) (m : Document P) (t : HasTexts P m)
      (fs : Files P.Bytes) (target : FilePath)
      → IsCompleteFit P first second third request_id m fs
      → (c : Completion P first second third request_id m fs target)
      → (file fs (message_file P t.type t.id) ≡ none)
        × (file (complete_job P first second third request_id m fs).1 (message_file P t.type t.id)
            ≡ some (P.dumps m))
  Completion-marks first second third request_id m t fs target fit c =
      let gs = after_terminal P first c.path c.payload fs in
      let named = publish_named P second third m t none true gs c.returned in
      let (absent, there) =
        publish_message-publishes P second third m t none true gs target
          (λ spot s. fit.key_fit c.path spot c.payload c.recorded s)
          (fit.message_fit c.path c.payload (t.type, t.id) c.recorded named) c.returned in
      (
        absent-IsKept fs gs (message_file P t.type t.id)
            (reserve_record-IsKept P first c.path c.payload _ fs
              (fit.terminal_fit c.path c.payload c.recorded))
            absent,
        ap (λ r. file r.1 (message_file P t.type t.id)) c.same ∙ there,
      )

  pub Step-IsKept : {fs gs : Files P.Bytes} {es : List (Event P)} → Step P fs es gs → IsKept fs gs
  Step-IsKept (Step.publish first second m t fs fit_first fit_second) =
      publish_message-IsKept P first second m none true fs fit_first
        λ names named. let (p, q) = names_text P m t names named in rw (p, q) fit_second
  Step-IsKept (Step.claim first second request_id m fs fit_first fit_second) =
      claim_job-IsKept P first second request_id m fs fit_first fit_second
  Step-IsKept (Step.complete first second third request_id m t fs fit) =
      complete_job-IsKept P first second third request_id m fs fit.terminal_fit fit.key_fit
        fit.message_fit

  pub Step-Shows : {fs gs : Files P.Bytes} {es : List (Event P)} → Step P fs es gs → Shows fs es gs
  Step-Shows (Step.publish first second m t fs fit_first fit_second) =
      on_return-Shows _ _ fs _ λ target h.
        publish_message-publishes P first second m t none true fs target fit_first fit_second h
  Step-Shows (Step.claim first second request_id m fs fit_first fit_second) =
      on_claim-Shows (check_claim P fs (str request_id) m) _ request_id m fs _
        λ attempt target checked h.
          claim_job-claims P first second request_id m fs attempt target fit_first
            (fit_second attempt) checked h
  Step-Shows (Step.complete first second third request_id m t fs fit) =
      on_return-Shows _ _ fs _ λ target h.
        Completion-marks first second third request_id m t fs target fit
          (complete_job-completes P first second third request_id m fs target h)
