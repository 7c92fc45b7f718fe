-- ===== src/Report/Build/Parts.antt =====
-- A report that was built, taken apart: what was measured, and the evaluation of the summary.
use closed_loop_bench.Base.{String, ◌==◌, List, any, map, ◌≡◌, refl, ◌∙◌, ap}
use closed_loop_bench.Base.Outcome.{ok, >>=-eq-ok, guard-bind, ok_unique}
use closed_loop_bench.Json.{Floats, Value, Fields, obj, at}
use closed_loop_bench.Criteria.{evaluate_report}
use closed_loop_bench.Report.Numbers.{
  Row, percentile_of, numeric_percentile, sync_percentile, jerk_values,
}
use closed_loop_bench.Report.Events.{
  collision_count, count_boolean_or_numeric, hard_brake_count, sensor_dropped_frame_count,
}
use closed_loop_bench.Report.Actors.{actor_outcomes, tally_actors, artifacts}
use closed_loop_bench.Report.Build.{
  Measured, measure, full_summary, latency_keys, runtime_statuses, report_run_id, ClosedLoopReport,
  build_closed_loop_report,
}

module _ (fl : Floats) (repr : Value fl.Float → String) where
  pub measure-collisions :
      (run_config : Fields fl.Float) (rows : List (Row fl)) (m : Measured fl repr)
      → measure fl repr run_config rows ≡ ok m
      → collision_count fl rows ≡ ok m.collisions
  unfolding measure
  measure-collisions run_config rows m h =
      let jerks = map (λ (x : fl.Float). fl.abs x) (jerk_values fl rows) in
      let (a1, e1, h1) =
        >>=-eq-ok (count_boolean_or_numeric fl "control_timeout" "control_timeout_count" rows) _
          h in
      let (a2, e2, h2) =
        >>=-eq-ok (count_boolean_or_numeric fl "control_fallback" "control_fallback_count" rows) _
          h1 in
      let (a3, e3, h3) = >>=-eq-ok (collision_count fl rows) _ h2 in
      let (a4, e4, h4) = >>=-eq-ok (hard_brake_count fl rows) _ h3 in
      let (a5, e5, h5) = >>=-eq-ok (percentile_of fl jerks 50) _ h4 in
      let (a6, e6, h6) = >>=-eq-ok (percentile_of fl jerks 95) _ h5 in
      let (a7, e7, h7) = >>=-eq-ok (percentile_of fl jerks 99) _ h6 in
      let (a8, e8, h8) = >>=-eq-ok (numeric_percentile fl rows latency_keys 50) _ h7 in
      let (a9, e9, h9) = >>=-eq-ok (numeric_percentile fl rows latency_keys 95) _ h8 in
      let (b1, f1, g1) = >>=-eq-ok (numeric_percentile fl rows latency_keys 99) _ h9 in
      let (b2, f2, g2) = >>=-eq-ok (actor_outcomes fl repr rows) _ g1 in
      let (b3, f3, g3) = >>=-eq-ok (sensor_dropped_frame_count fl rows) _ g2 in
      let (b4, f4, g4) = >>=-eq-ok (sync_percentile fl rows 100) _ g3 in
      let (b5, f5, g5) = >>=-eq-ok (sync_percentile fl rows 95) _ g4 in
      let (b6, f6, g6) = >>=-eq-ok (tally_actors fl repr "policy" run_config) _ g5 in
      let (b7, f7, g7) = >>=-eq-ok (tally_actors fl repr "closed_loop_level" run_config) _ g6 in
      e3 ∙ ap (λ (x : Measured fl repr). ok x.collisions) (ok_unique refl g7)

  -- A report was built: its evaluation is that of its summary.
  pub record Parts (run_config : Fields fl.Float) (rows : List (Row fl)) (status : String)
      (r : ClosedLoopReport fl repr) : Type 0 where
    pub measured : Measured fl repr
    pub was_measured : measure fl repr run_config rows ≡ ok measured
    pub evaluated :
        evaluate_report fl repr run_config (full_summary fl repr measured rows) rows status
        ≡ ok r.evaluation

  pub report-Parts :
      (run_config : Fields fl.Float) (rows : List (Row fl)) (status : String)
      (r : ClosedLoopReport fl repr)
      → build_closed_loop_report fl repr run_config rows status ≡ ok r
      → Parts run_config rows status r
  unfolding build_closed_loop_report
  report-Parts run_config rows status r h =
      let (known, h1) = guard-bind (any (λ s. status == s) runtime_statuses) _ _ h in
      let (m, was, h2) = >>=-eq-ok (measure fl repr run_config rows) _ h1 in
      let (run_id, e1, h3) = >>=-eq-ok (report_run_id fl repr run_config) _ h2 in
      let (scenario_id, e2, h4) = >>=-eq-ok (at "scenario_id" (obj run_config)) _ h3 in
      let (evaluation, done, h5) =
        >>=-eq-ok (evaluate_report fl repr run_config (full_summary fl repr m rows) rows status) _
          h4 in
      let (paths, e3, h6) = >>=-eq-ok (artifacts fl repr run_config) _ h5 in
      record {
        measured = m;
        was_measured = was;
        evaluated =
            done ∙ ap (λ (x : ClosedLoopReport fl repr). ok x.evaluation) (ok_unique refl h6);
      }
