-- ===== src/Tests/Plans.antt =====
-- A plan of two runs.
use closed_loop_bench.Base.{decimal, ◌*◌, String, true, none, [], length, ◌≡◌, refl}
use closed_loop_bench.Base.Outcome.{Outcome, ok, err}
use closed_loop_bench.Json.{
  ℤ, pos, Value, Fields, nil, item, null, bool, int, str, arr, obj, field, end,
}
use closed_loop_bench.Exchange.Segment.{matches_segment}
use closed_loop_bench.Matrix.Keys.{same_key, run_key_from_request}
use closed_loop_bench.Matrix.Plan.{
  safe, run_id_of, algorithm_of, odd_of, payload_of, request_of, plan_run, each, one_run,
  dimensions_of, plan_runs, Dimensions,
}
use closed_loop_bench.Matrix.Checks.{
  all_different, keys_of, check_unique, list_at, safe_at, for_each, check_scene, check_algorithm,
  check_simulator, check_actors, validate_matrix,
}
use closed_loop_bench.Matrix.Build.{ExperimentPlan, build_experiment_plan}
use closed_loop_bench.Matrix.Build.Counts.{build_experiment_plan-choices}
use closed_loop_bench.Matrix.Build.Choices.{Matches, IsRunOf, choices}
use closed_loop_bench.Tests.Sample.{floats}

abbrev repr : Value ℤ → String
repr v = "{}"

abbrev accept : Value ℤ → Outcome (Unit {0})
accept v = ok tt

abbrev one : Fields ℤ → Value ℤ
one fs = arr (item (obj fs) nil)

abbrev scene : Fields ℤ
scene = field "scene_id" (str "s1") (
    field "scene_version" (str "v1") (
      field "correlation_id" (str "c") (
        field "root_message_id" (str "r")
          (field "scene_result_message_id" (str "m") (field "scene_package" (obj end) end)))))

abbrev algorithm : Fields ℤ
algorithm =
    field "algorithm_id" (str "tfpp")
      (field "algorithm_version" (str "1") (field "driver" (str "ros2") end))

abbrev simulator : Fields ℤ
simulator =
    field "name" (str "carla")
      (field "synchronous_mode" (bool true) (field "fixed_delta_seconds" (int (pos 1)) end))

abbrev matrix : Value ℤ
matrix = obj (
    field "schema_version" (str "closed_loop_experiment_matrix.v0") (
      field "matrix_id" (str "m1") (
        field "scenes" (one scene) (
          field "algorithms" (one algorithm) (
            field "odds" (one (field "odd_id" (str "clear") end)) (
              field "seeds" (arr (item (int (pos 1)) (item (int (pos 2)) nil))) (
                field "metrics" (arr (item (str "min_ttc") nil)) (
                  field "simulator" (obj simulator) (
                    field "actor_control" (obj (field "mode" (str "replay") end)) (
                      field "timeout_sec" (int (pos 60))
                        (field "producer" (obj (field "project" (str "p") end)) end)))))))))))

built : Outcome (ExperimentPlan floats repr accept accept)
unfolding matches_segment same_key run_key_from_request safe run_id_of algorithm_of odd_of
    payload_of request_of plan_run each one_run dimensions_of plan_runs all_different keys_of
    check_unique list_at safe_at for_each check_scene check_algorithm check_simulator check_actors
    validate_matrix build_experiment_plan
built = build_experiment_plan floats repr accept accept matrix none "now"

abbrev plan_or_empty :
    Outcome (ExperimentPlan floats repr accept accept) → ExperimentPlan floats repr accept accept
plan_or_empty (ok plan) = plan
plan_or_empty (err e) = record {
  schema_version = "";
  matrix_id = null;
  created_at = "";
  expected_run_count = 0;
  dimensions = record { scenes = 0; algorithms = 0; odds = 0; seeds = 0 };
  runs = [];
}

abbrev plan : ExperimentPlan floats repr accept accept
plan = plan_or_empty built

two_runs : length plan.runs ≡ 2
unfolding built decimal
two_runs = refl

abbrev dimensions_or_empty : Outcome (Dimensions floats repr accept) → Dimensions floats repr accept
dimensions_or_empty (ok d) = d
dimensions_or_empty (err e) = record { scenes = []; algorithms = []; odds = []; seeds = [] }

dimensions : Dimensions floats repr accept
unfolding dimensions_of
dimensions = dimensions_or_empty (dimensions_of floats repr accept matrix)

build_experiment_plan-choices_example :
    Matches (IsRunOf floats repr accept) (choices floats repr accept dimensions) plan.runs
    × (length plan.runs
        ≡ plan.dimensions.scenes
          * (plan.dimensions.algorithms * (plan.dimensions.odds * plan.dimensions.seeds)))
    × (plan.expected_run_count ≡ length plan.runs)
unfolding built decimal dimensions
build_experiment_plan-choices_example =
    build_experiment_plan-choices floats repr accept accept matrix none "now" plan dimensions refl
      refl
