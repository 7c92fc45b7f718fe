-- ===== src/Matrix/Build/Counts.antt =====
-- Which runs a plan has, and how many.
use closed_loop_bench.Base.{
  ℕ, ◌*◌, String, List, [], ◌∷◌, length, length-append, Option, ◌≡◌, refl, ap, arith,
}
use mathlib.Core.Path.{transport}
use native.Mathlib.Nat.{suc-mul}
use closed_loop_bench.Base.Outcome.{Outcome, ok, >>=-eq-ok, ok_unique}
use closed_loop_bench.Json.{Floats, Value, at}
use closed_loop_bench.Matrix.Plan.{PlannedRun, Dimensions, dimensions_of, plan_runs, each, one_run}
use closed_loop_bench.Matrix.Checks.{validate_matrix}
use closed_loop_bench.Matrix.Build.Choices.{Matches, IsRunOf, choices, plan_runs-Matches}
use closed_loop_bench.Matrix.Build.{ExperimentPlan, stamp, build_experiment_plan}

module _ (fl : Floats) (repr : Value fl.Float → String)
    (validate : Value fl.Float → Outcome (Unit {0})) where
  -- A loop whose rounds give the same number of runs.
  each-length :
      (f : Value fl.Float → Outcome (List (PlannedRun fl repr validate))) (n : ℕ)
      → ((x : Value fl.Float) (rs : List (PlannedRun fl repr validate))
          → f x ≡ ok rs
          → length rs ≡ n)
      → (xs : List (Value fl.Float)) (rs : List (PlannedRun fl repr validate))
      → each fl repr validate f xs ≡ ok rs
      → length rs ≡ length xs * n
  unfolding each
  each-length f n own [] rs h = omega (arith, ap length (ok_unique h refl))
  each-length f n own (x ∷ xs) rs h =
      let (one, e, h1) = >>=-eq-ok (f x) _ h in
      let (rest, e1, h2) = >>=-eq-ok (each fl repr validate f xs) _ h1 in
      rw (suc-mul (length xs) n) (
        omega (
          arith,
          own x one e,
          each-length f n own xs rest e1,
          length-append one rest,
          ap length (ok_unique refl h2),
        ))

  one_length :
      (r : Outcome (PlannedRun fl repr validate)) (rs : List (PlannedRun fl repr validate))
      → one_run fl repr validate r ≡ ok rs
      → length rs ≡ 1
  unfolding one_run
  one_length r rs h = let (run, e, h1) = >>=-eq-ok r _ h in ap length (ok_unique h1 refl)

  plan_runs-length :
      (matrix : Value fl.Float) (at_time : String) (d : Dimensions fl repr validate)
      (rs : List (PlannedRun fl repr validate))
      → plan_runs fl repr validate matrix at_time d ≡ ok rs
      → length rs ≡ length d.scenes * (length d.algorithms * (length d.odds * length d.seeds))
  unfolding plan_runs
  plan_runs-length matrix at_time d rs h =
      each-length _ _
        (λ scene.
          each-length _ _
            (λ algorithm.
              each-length _ _
                (λ odd qs e.
                  omega (arith, each-length _ 1 (λ seed ps. one_length _ ps) d.seeds qs e))
                d.odds)
            d.algorithms)
        d.scenes rs h

  module _ (validate_reference : Value fl.Float → Outcome (Unit {0})) where
    -- A plan has just one run for each choice of a scene, an algorithm, an odd and a seed of the matrix,
    -- in the order of the nested loops: the key of the run tells the ids and versions of the choice and
    -- its seed. The runs are as many as the product of the dimensions, which is also the count that the
    -- plan states.
    pub build_experiment_plan-choices :
        (matrix : Value fl.Float) (created_at : Option String) (now : String)
        (plan : ExperimentPlan fl repr validate validate_reference)
        (d : Dimensions fl repr validate)
        → dimensions_of fl repr validate matrix ≡ ok d
        → build_experiment_plan fl repr validate validate_reference matrix created_at now ≡ ok plan
        → Matches (IsRunOf fl repr validate) (choices fl repr validate d) plan.runs
          × (length plan.runs
              ≡ plan.dimensions.scenes
                * (plan.dimensions.algorithms * (plan.dimensions.odds * plan.dimensions.seeds)))
          × (plan.expected_run_count ≡ length plan.runs)
    unfolding build_experiment_plan
    build_experiment_plan-choices matrix created_at now plan d' known h =
        let (u, valid, h1) =
          >>=-eq-ok (validate_matrix fl repr validate validate_reference matrix) _ h in
        let (d, dims, h2) = >>=-eq-ok (dimensions_of fl repr validate matrix) _ h1 in
        let (runs, planned, h3) =
          >>=-eq-ok (plan_runs fl repr validate matrix (stamp created_at now) d) _ h2 in
        let (id, named, h4) = >>=-eq-ok (at "matrix_id" matrix) _ h3 in
        let same = ok_unique refl h4 in
        let own : d ≡ d' = ok_unique dims known in
        transport
          (ap
            (λ x.
              Matches (IsRunOf fl repr validate) (choices fl repr validate d') x.runs
              × (length x.runs
                  ≡ x.dimensions.scenes
                    * (x.dimensions.algorithms * (x.dimensions.odds * x.dimensions.seeds)))
              × (x.expected_run_count ≡ length x.runs))
            same)
          (
            transport
                (ap (λ k. Matches (IsRunOf fl repr validate) (choices fl repr validate k) runs) own)
                (plan_runs-Matches fl repr validate matrix (stamp created_at now) d runs planned),
            plan_runs-length matrix (stamp created_at now) d runs planned,
            refl,
          )
