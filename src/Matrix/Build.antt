-- ===== src/Matrix/Build.antt =====
-- `build_experiment_plan`: the matrix is validated, then its runs are planned.
pub mod Choices
pub mod Counts
use closed_loop_bench.Base.{ℕ, String, Bool, ◌==◌, if◌then◌else◌, List, length, Option, none, some}
use closed_loop_bench.Base.Outcome.{Outcome, ok, err, ◌>>=◌, ◌>>◌}
use closed_loop_bench.Json.{Floats, Value, at}
use closed_loop_bench.Matrix.Plan.{PlannedRun, Dimensions, dimensions_of, plan_runs}
use closed_loop_bench.Matrix.Checks.{validate_matrix}
use closed_loop_bench.Matrix.Coverage.{plan_schema}

-- `created_at or now`
abbrev pub stamp : Option String → String → String
stamp none now = now
stamp (some text) now = if text == "" then now else text

module _ (fl : Floats) (repr : Value fl.Float → String)
    (validate_shared_document validate_artifact_reference : Value fl.Float
      → Outcome (Unit {0})) where
  -- The numbers of scenes, algorithms, odds and seeds.
  pub record Sizes : Type 0 where
    pub scenes : ℕ
    pub algorithms : ℕ
    pub odds : ℕ
    pub seeds : ℕ

  pub record ExperimentPlan : Type 0 where
    pub schema_version : String
    pub matrix_id : Value fl.Float
    pub created_at : String
    pub expected_run_count : ℕ
    pub dimensions : Sizes
    pub runs : List (PlannedRun fl repr validate_shared_document)

  -- `now` is the current time as the code writes it; an empty `created_at` counts as none.
  unfoldable pub build_experiment_plan :
      Value fl.Float → Option String → String → Outcome ExperimentPlan
  build_experiment_plan matrix created_at now = do
    validate_matrix fl repr validate_shared_document validate_artifact_reference matrix
    let timestamp = stamp created_at now
    d ← dimensions_of fl repr validate_shared_document matrix
    runs ← plan_runs fl repr validate_shared_document matrix timestamp d
    matrix_id ← at "matrix_id" matrix
    ok (record {
      schema_version = plan_schema;
      matrix_id = matrix_id;
      created_at = timestamp;
      expected_run_count = length runs;
      dimensions = record {
        scenes = length d.scenes;
        algorithms = length d.algorithms;
        odds = length d.odds;
        seeds = length d.seeds;
      };
      runs = runs;
    })
