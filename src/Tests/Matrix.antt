-- ===== src/Tests/Matrix.antt =====
-- An experiment matrix on concrete reports.
use closed_loop_bench.Base.{
  true, List, [], ◌∷◌, ◌≡◌, refl, ◌∙◌, sym, ap, arith, eq_iff, eq_refl, All, eqb→eq,
}
use closed_loop_bench.Base.Outcome.{Outcome, ok}
use closed_loop_bench.Json.{ℤ, pos, negsuc, eq_ℤ, Value, int, str, obj, field, end}
use closed_loop_bench.Matrix.Keys.{
  Scalar, nothing, number, real, word, same_scalar, same_key, scalars, run_key_from_report,
}
use closed_loop_bench.Matrix.Keys.Laws.{IsEquality}
use closed_loop_bench.Matrix.Groups.{lookup, put, add}
use closed_loop_bench.Matrix.Coverage.{
  Run, Plan, Coverage, Expected, expect, observe, invalid_runs, report_reasons, summary_reasons,
  evaluate_coverage,
}
use closed_loop_bench.Matrix.Coverage.Ready.{ExactlyOne, Wanted, coverage_ready}
use closed_loop_bench.Tests.Sample.{floats}

eq_ℤ_refl : (m : ℤ) → eq_ℤ m m ≡ true
eq_ℤ_refl (pos m) = ground arith
eq_ℤ_refl (negsuc m) = ground arith

eq_ℤ_sym : (m n : ℤ) → eq_ℤ m n ≡ eq_ℤ n m
eq_ℤ_sym (pos m) (pos n) = ground arith
eq_ℤ_sym (pos m) (negsuc n) = refl
eq_ℤ_sym (negsuc m) (pos n) = refl
eq_ℤ_sym (negsuc m) (negsuc n) = ground arith

eq_ℤ_unique : (m n : ℤ) → eq_ℤ m n ≡ true → m ≡ n
eq_ℤ_unique (pos m) (pos n) h = ap pos (eqb→eq m n h)
eq_ℤ_unique (pos m) (negsuc n) h = cc
eq_ℤ_unique (negsuc m) (pos n) h = cc
eq_ℤ_unique (negsuc m) (negsuc n) h = ap negsuc (eqb→eq m n h)

-- A float of the sample is an int.
abbrev canon : Scalar ℤ → Scalar ℤ
canon (real x) = number x
canon s = s

same_canon : (s t : Scalar ℤ) → same_scalar floats s t ≡ same_scalar floats (canon s) (canon t)
same_canon (number m) (real y) = eq_ℤ_sym y m
same_canon (number m) nothing = refl
same_canon (number m) (number n) = refl
same_canon (number m) (word t) = refl
same_canon (real x) nothing = refl
same_canon (real x) (number n) = refl
same_canon (real x) (real y) = refl
same_canon (real x) (word t) = refl
same_canon nothing nothing = refl
same_canon nothing (number n) = refl
same_canon nothing (real y) = refl
same_canon nothing (word t) = refl
same_canon (word s) nothing = refl
same_canon (word s) (number n) = refl
same_canon (word s) (real y) = refl
same_canon (word s) (word t) = refl

canon_unique : (s t : Scalar ℤ) → same_scalar floats (canon s) (canon t) ≡ true → canon s ≡ canon t
canon_unique nothing nothing h = refl
canon_unique (number m) (number n) h = ap number (eq_ℤ_unique m n h)
canon_unique (number m) (real n) h = ap number (eq_ℤ_unique m n h)
canon_unique (real m) (number n) h = ap number (eq_ℤ_unique m n h)
canon_unique (real m) (real n) h = ap number (eq_ℤ_unique m n h)
canon_unique (word s) (word t) h = ap word ((eq_iff s t).0 h)
canon_unique nothing (number n) h = cc
canon_unique nothing (real n) h = cc
canon_unique nothing (word t) h = cc
canon_unique (number m) nothing h = cc
canon_unique (number m) (word t) h = cc
canon_unique (real m) nothing h = cc
canon_unique (real m) (word t) h = cc
canon_unique (word s) nothing h = cc
canon_unique (word s) (number n) h = cc
canon_unique (word s) (real n) h = cc

scalar_refl : (s : Scalar ℤ) → same_scalar floats s s ≡ true
scalar_refl nothing = refl
scalar_refl (number m) = eq_ℤ_refl m
scalar_refl (real x) = eq_ℤ_refl x
scalar_refl (word s) = eq_refl s

equality : IsEquality floats
equality = record {
  same_refl = scalar_refl;
  same_cong = λ s t u h.
      same_canon s u
      ∙ ap (λ c. same_scalar floats c (canon u)) (canon_unique s t (sym (same_canon s t) ∙ h))
      ∙ sym (same_canon t u);
}

abbrev run_key : ℤ → List (Value ℤ)
run_key seed = str "scene" ∷ str "v1" ∷ str "tfpp" ∷ str "1" ∷ str "clear" ∷ int seed ∷ []

abbrev planned : ℤ → Run floats
planned seed = record {
  key = run_key seed;
  request = obj (
      field "payload" (obj (field "actor_control" (obj (field "mode" (str "replay") end)) end))
        end);
}

abbrev plan : Plan floats
plan = record {
  schema_version = "closed_loop_experiment_plan.v0";
  runs = planned (pos 1) ∷ planned (pos 2) ∷ [];
}

abbrev summary : Value ℤ
summary = obj (
    field "collision_count" (int (pos 0)) (
      field "min_ttc" (int (pos 2)) (
        field "route_progress" (int (pos 1))
          (field "hard_brake_count" (int (pos 0)) (field "max_jerk" (int (pos 1)) end)))))

abbrev report : ℤ → Value ℤ
report seed = obj (
    field "scenario_id" (str "scene") (
      field "status" (str "completed") (
        field "summary" summary (
          field "evaluation" (obj (field "overall_result" (str "pass") end)) (
            field "experiment"
              (obj (
                field "scene_version" (str "v1") (
                  field "algorithm_id" (str "tfpp") (
                    field "algorithm_version" (str "1")
                      (field "odd_id" (str "clear") (field "seed" (int seed) end))))))
              end)))))

abbrev both : List (Value ℤ)
both = report (pos 2) ∷ report (pos 1) ∷ []

covered : List (Value ℤ) → Outcome (Coverage floats)
unfolding scalars same_key run_key_from_report lookup put add expect observe invalid_runs
    report_reasons summary_reasons evaluate_coverage
covered reports = evaluate_coverage floats plan reports

abbrev complete : Coverage floats
complete = record {
  expected_run_count = 2;
  observed_report_count = 2;
  matched_run_count = 2;
  coverage_ratio = pos 2;
  ready_for_comparison = true;
  missing = [];
  unexpected = [];
  duplicates = [];
  malformed = [];
  invalid_runs = [];
}

covered-both : covered both ≡ ok complete
unfolding covered
covered-both = refl

coverage_ready_example :
    (expected : Expected floats) × (expect floats [] plan.runs ≡ ok expected)
    × All (λ e. ExactlyOne floats equality both e.0 e.1) expected
    × All (Wanted floats equality expected) both
unfolding covered
coverage_ready_example = coverage_ready floats equality plan both complete refl refl
