-- ===== src/Bridge/FailClosed.antt =====
-- The bridge is fail-closed.
use closed_loop_bench.Base.{Bool, true, ◌&&◌, all, is_empty, none, some, ◌≡◌, refl, ◌∙◌, ap}
use closed_loop_bench.Base.Outcome.{ok}
use closed_loop_bench.Json.{
  Floats, Value, Items, nil, item, Fields, null, bool, int, float, str, arr, obj, converts,
}
use closed_loop_bench.Observation.{
  Aggregator, Observation, Built, blocked, ready, build, look_up, missing_fields, route_fields,
}
use closed_loop_bench.Observation.SameTick.{build-IsSameTick}
use closed_loop_bench.Driver.{Adapter, safe_stop, tick}
use closed_loop_bench.Driver.Safe.{
  AnswersConvert, IsOrdered, IsSafe, safe_stop-IsSafe, tick-IsSafe, tick_total,
}
use closed_loop_bench.Bridge.{
  Result, held, ticked, published, fields_of, metadata_of, on_build, bridge_tick,
}

module _ (fl : Floats) where
  -- A route with all its fields is a dict.
  is_dict :
      (v : Value fl.Float)
      → is_empty (missing_fields fl v route_fields) ≡ true
      → (fs : Fields fl.Float) × (v ≡ obj fs)
  is_dict (obj fs) h = (fs, refl)
  is_dict null h = cc
  is_dict (bool b) h = cc
  is_dict (int n) h = cc
  is_dict (float x) h = cc
  is_dict (str s) h = cc
  is_dict (arr vs) h = cc

  built_ticks :
      (a : Adapter fl) (b : Built fl)
      → IsOrdered fl
      → AnswersConvert fl a
      → ((o : Observation fl)
          → b ≡ ready o
          → is_empty (missing_fields fl o.route route_fields) ≡ true)
      → (r : Result fl) × (on_build fl a b ≡ ok r) × IsSafe fl (published fl r)
  built_ticks a (blocked reason) order small complete =
      (held reason (safe_stop fl), refl, safe_stop-IsSafe fl order)
  built_ticks a (ready o) order small complete =
      let (route, same) = is_dict o.route (complete o refl) in
      let (t, done) =
        tick_total fl a (fields_of fl o.sensors) o.ego_state route
          (some (obj (fields_of fl o.calibration))) (some (metadata_of fl o)) small in
      let own : tick fl a (fields_of fl o.sensors) o.ego_state o.route
            (some (obj (fields_of fl o.calibration))) (some (metadata_of fl o))
          ≡ ok t =
        ap
          (λ v.
            tick fl a (fields_of fl o.sensors) o.ego_state v
              (some (obj (fields_of fl o.calibration))) (some (metadata_of fl o)))
          same
        ∙ done in
      (ticked t, rw own refl, tick-IsSafe fl a _ _ _ _ _ t order own)

  abbrev row_converts : Items fl.Float → Bool
  row_converts nil = true
  row_converts (item v vs) = converts fl v && row_converts vs

  abbrev rows_convert : Items fl.Float → Bool
  rows_convert nil = true
  rows_convert (item v vs) = (elim v [ arr ws ↦ row_converts ws | _ ↦ true ]) && rows_convert vs

  abbrev matrix_converts : Value fl.Float → Bool
  matrix_converts (arr vs) = rows_convert vs
  matrix_converts _ = true

  -- No entry of the two matrices of a calibration is an int that no float holds.
  abbrev pub calibration_converts : Value fl.Float → Bool
  calibration_converts (obj fs) =
      matrix_converts (look_up fl "intrinsic" fs) && matrix_converts (look_up fl "sensor_to_ego" fs)
  calibration_converts _ = true

  -- Each tick of the bridge publishes a control in range, whatever samples the aggregator holds, at
  -- any time, and whatever the backend predicts or raises: it never ends with an exception. The
  -- commands that the backend predicts and the matrices of the calibrations have no ints that no
  -- float holds, and the floats -1, 0 and 1 are in order.
  pub bridge_tick-IsSafe :
      (aggregator : Aggregator fl) (adapter : Adapter fl) (now : fl.Float)
      → IsOrdered fl
      → AnswersConvert fl adapter
      → all (λ e. calibration_converts e.1.calibration) aggregator.channels ≡ true
      → (r : Result fl) × (bridge_tick fl aggregator adapter now ≡ ok r)
        × IsSafe fl (published fl r)
  unfolding bridge_tick
  bridge_tick-IsSafe aggregator adapter now order small matrices =
      built_ticks adapter (build fl aggregator now none) order small
        (λ o h. (build-IsSameTick fl aggregator now none o h).route_complete)
