-- ===== src/Plugin/Cases.antt =====
-- The ways in which a call of `predict` can end.
use closed_loop_bench.Base.{ℕ, String, true, Option, some, ◌≡◌, refl, Bool-cases, inl, inr}
use closed_loop_bench.Base.Outcome.{Outcome, ok, err, Error, contract_error, >>=-eq-ok}
use closed_loop_bench.Json.{Floats, Fields, end, field, str}
use closed_loop_bench.Plugin.Checks.{
  Data, zero_float, reason_code, validate_observation, validate_control,
}
use closed_loop_bench.Plugin.Executor.{
  Executor, Replies, frame_field, stop_reply, control_reply, complete_control, caught, on_candidate,
  on_answer, on_valid, admitted, is_ready, predict, require_healthy, is_injected, timeout_ms,
}

module _ (fl : Floats) where
  -- How a call of `predict` ends: a safe stop that changes nothing, a control of the plugin, or an
  -- exception.
  pub data Predicted (e : Executor fl) (observation : Data fl) (r : Replies fl)
      : Outcome (Data fl) × Executor fl → Type 0 where
    stopped :
        (frame : Data fl) (reason : String) (ms : fl.Float) (detail : Fields fl.Float)
        → Predicted e observation r (ok (stop_reply fl e frame reason ms detail), e)
    drove :
        (n : ℕ) (candidate : Data fl) (control : Fields fl.Float)
        → is_ready fl e ≡ true
        → validate_observation fl observation e.capability e.last_frame_id ≡ ok n
        → r.prediction observation ≡ ok candidate
        → validate_control fl candidate n ≡ ok control
        → Predicted e observation r (
          ok (control_reply fl e (complete_control fl r control)),
          record e { last_frame_id = some n },
        )
    escaped : (error : Error) → Predicted e observation r (err error, e)

  caught-Predicted :
      {A : Type 0} (e : Executor fl) (observation : Data fl) (r : Replies fl) (x : Outcome A)
      (frame : Data fl) (ms : fl.Float) (reason : String → String)
      (detail : String → Fields fl.Float) (rest : A → Outcome (Data fl) × Executor fl)
      → ((a : A) → x ≡ ok a → Predicted e observation r (rest a))
      → Predicted e observation r
          (caught fl x (λ text. stop_reply fl e frame (reason text) ms (detail text)) rest e)
  caught-Predicted e observation r (ok a) frame ms reason detail rest h = h a refl
  caught-Predicted e observation r (err (contract_error text)) frame ms reason detail rest h =
      Predicted.stopped frame (reason text) ms (detail text)
  caught-Predicted e observation r (err error) frame ms reason detail rest h =
      Predicted.escaped error

  candidate-Predicted :
      (e : Executor fl) (observation frame candidate : Data fl) (n : ℕ) (r : Replies fl)
      → is_ready fl e ≡ true
      → validate_observation fl observation e.capability e.last_frame_id ≡ ok n
      → r.prediction observation ≡ ok candidate
      → Predicted e observation r (on_candidate fl e frame n r candidate)
  candidate-Predicted e observation frame candidate n r ready valid predicted =
      caught-Predicted e observation r (validate_control fl candidate n) frame (zero_float fl)
        reason_code (λ text. field "detail" (str (r.message (contract_error text))) end) _
        λ control fine. Predicted.drove n candidate control ready valid predicted fine

  prediction-Predicted :
      (e : Executor fl) (observation frame : Data fl) (n : ℕ) (r : Replies fl)
      (p : Outcome (Data fl))
      → is_ready fl e ≡ true
      → validate_observation fl observation e.capability e.last_frame_id ≡ ok n
      → r.prediction observation ≡ p
      → Predicted e observation r (on_answer fl e frame n r p)
  prediction-Predicted e observation frame n r (err error) ready valid predicted =
      Predicted.stopped frame "backend_exception" (zero_float fl) _
  prediction-Predicted e observation frame n r (ok candidate) ready valid predicted =
      elim (Bool-cases (fl.lt_float (timeout_ms fl e) r.elapsed_ms)) [
        | inl late ↦ rw late (Predicted.stopped frame "timeout" r.elapsed_ms _)
        | inr timely ↦
            rw timely (candidate-Predicted e observation frame candidate n r ready valid predicted)
      ]

  valid-Predicted :
      (e : Executor fl) (observation frame : Data fl) (forced : Option String) (r : Replies fl)
      (n : ℕ)
      → is_ready fl e ≡ true
      → validate_observation fl observation e.capability e.last_frame_id ≡ ok n
      → Predicted e observation r (on_valid fl e observation frame forced r n)
  valid-Predicted e observation frame forced r n ready valid =
      elim (Bool-cases (is_injected fl forced)) [
        | inl injected ↦ rw injected (Predicted.stopped frame _ (zero_float fl) _)
        | inr free ↦ rw free (
            prediction-Predicted e observation frame n r (r.prediction observation) ready valid
              refl)
      ]

  admitted-valid :
      (e : Executor fl) (observation : Data fl) (r : Replies fl) {n : ℕ}
      → admitted fl e observation r ≡ ok n
      → validate_observation fl observation e.capability e.last_frame_id ≡ ok n
  admitted-valid e observation r h =
      let (u, healthy, h1) = >>=-eq-ok (require_healthy fl r.health) _ h in h1

  pub predict-Predicted :
      (e : Executor fl) (observation : Data fl) (forced : Option String) (r : Replies fl)
      → Predicted e observation r (predict fl e observation forced r)
  unfolding predict
  predict-Predicted e observation forced r = elim (Bool-cases (is_ready fl e)) [
    | inl ready ↦ rw ready (
        caught-Predicted e observation r (admitted fl e observation r) (frame_field fl observation)
          (zero_float fl) reason_code (λ text. end) _
          λ n fine.
            valid-Predicted e observation (frame_field fl observation) forced r n ready
              (admitted-valid e observation r fine))
    | inr unready ↦
        rw unready (Predicted.stopped (frame_field fl observation) "lifecycle_not_ready" _ end)
  ]
