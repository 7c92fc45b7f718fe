-- ===== src/Report/Build.antt =====
-- `build_closed_loop_report` of metrics/report.py.
pub mod Extremes
pub mod Parts
pub mod Passed
use closed_loop_bench.Base.{
  ℕ, String, Bool, true, false, not, ◌==◌, List, [], ◌∷◌, any, map, Option, none, some,
  if◌then◌else◌,
}
use closed_loop_bench.Base.Outcome.{Outcome, ok, err, value_error, type_error, guard, ◌>>=◌, ◌>>◌}
use closed_loop_bench.Json.{Floats, Value, Fields, end, field, null, str, obj, at, truthy, find}
use closed_loop_bench.Criteria.{Verdict, look_up, Report, evaluate_report}
use closed_loop_bench.Report.Numbers.{
  Data, Row, min_numeric, max_numeric, route_progress, percentile_of, numeric_percentile,
  sync_percentile, min_actor_distance, jerk_values, max_abs,
}
use closed_loop_bench.Report.Events.{
  collision_count, hard_brake_count, count_boolean_or_numeric, rate, sensor_dropped_frame_count,
}
use closed_loop_bench.Report.Durations.{
  average_ego_speed, is_stopped, is_following, duration_for_flag, route_completion_time,
}
use closed_loop_bench.Report.Actors.{actor_outcomes, tally_actors, metric_availability, artifacts}

abbrev pub runtime_statuses : List String
runtime_statuses =
    "not_run" ∷ "planned" ∷ "ego_closed_loop" ∷ "interactive_closed_loop" ∷ "failed" ∷ "completed"
    ∷ []

abbrev pub ttc_keys : List String
ttc_keys = "min_ttc" ∷ "ttc" ∷ []

abbrev latency_keys : List String
latency_keys = "control_latency_ms" ∷ "inference_latency_ms" ∷ []

abbrev pet_keys : List String
pet_keys = "min_pet_sec" ∷ "pet_sec" ∷ "post_encroachment_time_sec" ∷ []

abbrev drac_keys : List String
drac_keys = "max_drac_mps2" ∷ "drac_mps2" ∷ "drac" ∷ []

module _ (fl : Floats) (repr : Value fl.Float → String) where
  -- The values of the summary that can raise, in the order in which they are computed.
  pub record Measured : Type 0 where
    pub timeouts : Data fl
    pub fallbacks : Data fl
    pub collisions : Data fl
    pub hard_brakes : Data fl
    pub jerk_p50 : Data fl
    pub jerk_p95 : Data fl
    pub jerk_p99 : Data fl
    pub latency_p50 : Data fl
    pub latency_p95 : Data fl
    pub latency_p99 : Data fl
    pub outcomes : Data fl
    pub dropped : Data fl
    pub sync_max : Data fl
    pub sync_p95 : Data fl
    pub policies : Data fl
    pub levels : Data fl

  unfoldable pub measure : Fields fl.Float → List (Row fl) → Outcome Measured
  measure run_config rows = do
    let jerks = map (λ x. fl.abs x) (jerk_values fl rows)
    timeouts ← count_boolean_or_numeric fl "control_timeout" "control_timeout_count" rows
    fallbacks ← count_boolean_or_numeric fl "control_fallback" "control_fallback_count" rows
    collisions ← collision_count fl rows
    hard_brakes ← hard_brake_count fl rows
    jerk_p50 ← percentile_of fl jerks 50
    jerk_p95 ← percentile_of fl jerks 95
    jerk_p99 ← percentile_of fl jerks 99
    latency_p50 ← numeric_percentile fl rows latency_keys 50
    latency_p95 ← numeric_percentile fl rows latency_keys 95
    latency_p99 ← numeric_percentile fl rows latency_keys 99
    outcomes ← actor_outcomes fl repr rows
    dropped ← sensor_dropped_frame_count fl rows
    sync_max ← sync_percentile fl rows 100
    sync_p95 ← sync_percentile fl rows 95
    policies ← tally_actors fl repr "policy" run_config
    levels ← tally_actors fl repr "closed_loop_level" run_config
    ok (record {
      timeouts = timeouts;
      fallbacks = fallbacks;
      collisions = collisions;
      hard_brakes = hard_brakes;
      jerk_p50 = jerk_p50;
      jerk_p95 = jerk_p95;
      jerk_p99 = jerk_p99;
      latency_p50 = latency_p50;
      latency_p95 = latency_p95;
      latency_p99 = latency_p99;
      outcomes = outcomes;
      dropped = dropped;
      sync_max = sync_max;
      sync_p95 = sync_p95;
      policies = policies;
      levels = levels;
    })

  abbrev driving_part : Measured → List (Row fl) → Fields fl.Float → Fields fl.Float
  driving_part m rows rest = field "collision_count" m.collisions (
      field "min_ttc" (min_numeric fl rows ttc_keys) (
        field "route_progress" (route_progress fl rows) (
          field "route_completion_time_sec" (route_completion_time fl rows) (
            field "average_speed_mps" (average_ego_speed fl rows) (
              field "stopped_time_sec" (duration_for_flag fl rows (is_stopped fl)) (
                field "following_time_sec" (duration_for_flag fl rows (is_following fl)) (
                  field "min_distance_m" (min_actor_distance fl rows) (
                    field "min_pet_sec" (min_numeric fl rows pet_keys)
                      (field "max_drac_mps2" (max_numeric fl rows drac_keys) rest)))))))))

  abbrev comfort_part : Measured → List (Row fl) → Fields fl.Float → Fields fl.Float
  comfort_part m rows rest = field "hard_brake_count" m.hard_brakes (
      field "max_jerk" (max_abs fl (jerk_values fl rows)) (
        field "jerk_p50_mps3" m.jerk_p50
          (field "jerk_p95_mps3" m.jerk_p95 (field "jerk_p99_mps3" m.jerk_p99 rest))))

  abbrev control_part : Measured → List (Row fl) → Fields fl.Float → Fields fl.Float
  control_part m rows rest = field "control_latency_p50_ms" m.latency_p50 (
      field "control_latency_p95_ms" m.latency_p95 (
        field "control_latency_p99_ms" m.latency_p99 (
          field "control_timeout_count" m.timeouts (
            field "control_timeout_rate"
              (rate fl m.timeouts rows "control_timeout" "control_timeout_count")
              (field "control_fallback_count" m.fallbacks (
                field "control_fallback_rate"
                  (rate fl m.fallbacks rows "control_fallback" "control_fallback_count") rest))))))

  abbrev run_part : Measured → Fields fl.Float → Fields fl.Float
  run_part m rest = field "actor_outcomes" m.outcomes (
      field "sensor_dropped_frame_count" m.dropped (
        field "max_synchronization_error_ms" m.sync_max (
          field "synchronization_error_p95_ms" m.sync_p95 (
            field "actor_policy_modes" m.policies
              (field "actor_closed_loop_levels" m.levels rest)))))

  -- The summary, to which further fields are added at the end.
  abbrev pub summary_with : Measured → List (Row fl) → Fields fl.Float → Fields fl.Float
  summary_with m rows rest =
      driving_part m rows (comfort_part m rows (control_part m rows (run_part m rest)))

  abbrev pub full_summary : Measured → List (Row fl) → Fields fl.Float
  full_summary m rows = summary_with m rows (
      field "metric_availability" (obj (metric_availability fl repr (summary_with m rows end) rows))
        end)

  pub record ClosedLoopReport : Type 0 where
    pub run_id : Data fl
    pub scenario_id : Data fl
    pub status : String
    pub experiment : Data fl
    pub summary : Fields fl.Float
    pub evaluation : Report fl repr
    pub metrics : List (Row fl)
    pub artifact_paths : Data fl

  -- `run_config.get("experiment") or {}`
  abbrev experiment_of : Fields fl.Float → Data fl
  experiment_of run_config =
      let experiment = look_up "experiment" run_config in
      if truthy fl experiment then experiment else obj end

  abbrev report_run_id : Fields fl.Float → Outcome (Data fl)
  report_run_id run_config =
      if truthy fl (look_up "run_id" run_config)
      then ok (look_up "run_id" run_config)
      else elim (experiment_of run_config) [
        | obj fs ↦ ok (look_up "run_id" fs)
        | _ ↦ err type_error
      ]

  unfoldable pub build_closed_loop_report :
      Fields fl.Float → List (Row fl) → String → Outcome ClosedLoopReport
  build_closed_loop_report run_config rows status = do
    guard (any (λ s. status == s) runtime_statuses)
        (value_error "unknown closed-loop report status")
    m ← measure run_config rows
    let summary = full_summary m rows
    run_id ← report_run_id run_config
    scenario_id ← at "scenario_id" (obj run_config)
    evaluation ← evaluate_report fl repr run_config summary rows status
    paths ← artifacts fl repr run_config
    ok (record {
      run_id = run_id;
      scenario_id = scenario_id;
      status = status;
      experiment = experiment_of run_config;
      summary = summary;
      evaluation = evaluation;
      metrics = rows;
      artifact_paths = paths;
    })
