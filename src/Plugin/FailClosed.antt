-- ===== src/Plugin/FailClosed.antt =====
-- The executor is fail-closed: what it gives is in range, and it gives something, as long as the
-- validity of the sensors is told.
use closed_loop_bench.Base.{String, true, Option, ◌≡◌, refl, ap}
use mathlib.Core.Path.{transport}
use closed_loop_bench.Base.Outcome.{Outcome, ok, ok_unique}
use closed_loop_bench.Json.{pos, negsuc, Floats, Fields, obj, at}
use closed_loop_bench.Plugin.Checks.{Data, zero_float}
use closed_loop_bench.Plugin.Executor.{Executor, Replies, stop_control, predict}
use closed_loop_bench.Plugin.Control.{
  IsControl, validate_control-IsControl, complete_control-IsControl,
}
use closed_loop_bench.Plugin.Cases.{Predicted, predict-Predicted}

module _ (fl : Floats) where
  -- The order of the floats -1.0, 0.0 and 1.0, on which the safe stop relies.
  pub record IsOrdered : Type 0 where
    pub zero_zero : fl.le_float (zero_float fl) (zero_float fl) ≡ true
    pub zero_one : fl.le_float (zero_float fl) (fl.of_int (pos 1)) ≡ true
    pub one_one : fl.le_float (fl.of_int (pos 1)) (fl.of_int (pos 1)) ≡ true
    pub minus_zero : fl.le_float (fl.of_int (negsuc 0)) (zero_float fl) ≡ true

  stop-IsControl :
      (frame : Data fl) (reason : String) (ms : fl.Float)
      → IsOrdered
      → IsControl fl (stop_control fl frame reason ms)
  stop-IsControl frame reason ms o = record {
    throttle_in = record {
      value = zero_float fl;
      found = refl;
      within = rw (o.zero_zero, o.zero_one) refl;
    };
    steer_in = record {
      value = zero_float fl;
      found = refl;
      within = rw (o.minus_zero, o.zero_one) refl;
    };
    brake_in = record {
      value = fl.of_int (pos 1);
      found = refl;
      within = rw (o.zero_one, o.one_one) refl;
    };
  }

  -- A reply that holds a control in range.
  pub record IsSafeReply (reply : Data fl) : Type 0 where
    pub control : Fields fl.Float
    pub held : at "control" reply ≡ ok (obj control)
    pub in_range : IsControl fl control

  safe_case :
      {e : Executor fl} {observation : Data fl} {r : Replies fl}
      {p : Outcome (Data fl) × Executor fl} {reply : Data fl}
      → IsOrdered
      → Predicted fl e observation r p
      → p.0 ≡ ok reply
      → IsSafeReply reply
  safe_case {e = e} o (Predicted.stopped frame reason ms detail) h =
      transport (ap IsSafeReply (ok_unique refl h)) (record {
        control = stop_control fl frame reason ms;
        held = refl;
        in_range = stop-IsControl frame reason ms o;
      })
  safe_case {e = e} {r = r} o (Predicted.drove n candidate control ready valid predicted fine) h =
      transport (ap IsSafeReply (ok_unique refl h)) (record {
        control = _;
        held = refl;
        in_range =
            complete_control-IsControl fl r control
              (validate_control-IsControl fl candidate n fine);
      })
  safe_case o (Predicted.escaped error) h = cc

  -- Whatever the plugin answers and whenever, and in whatever state the executor is, the control of
  -- each reply of `predict` is in range: throttle and brake between 0 and 1, steering between -1 and
  -- 1. The floats -1, 0 and 1 are in order.
  pub predict-IsSafe :
      (e : Executor fl) (observation : Data fl) (forced : Option String) (r : Replies fl)
      (reply : Data fl)
      → IsOrdered
      → (predict fl e observation forced r).0 ≡ ok reply
      → IsSafeReply reply
  predict-IsSafe e observation forced r reply o h =
      safe_case o (predict-Predicted fl e observation forced r) h
