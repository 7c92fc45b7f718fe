-- ===== src/Tests/Comparisons.antt =====
-- Three reports of two algorithms, compared.
use closed_loop_bench.Base.{insert, sorted_by, ℕ, String, List, [], ◌∷◌, map, All, ◌≡◌, refl}
use closed_loop_bench.Base.Outcome.{Outcome}
use closed_loop_bench.Json.{ℤ, pos, Fields, int, str, obj, end, field}
use closed_loop_bench.Matrix.Groups.{add}
use closed_loop_bench.Report.Comparison.{
  distinct, read_each, means_of, Algorithm, group_reports, summarize_algorithm, summarize_each,
  Comparison, compare_closed_loop_reports,
}
use closed_loop_bench.Report.Comparison.Totals.{total}
use closed_loop_bench.Report.Comparison.Counted.{compare_closed_loop_reports-IsBalanced}
use closed_loop_bench.Tests.Sample.{floats}
use closed_loop_bench.Tests.Report.{repr, result_of}

abbrev report_of : String → String → ℕ → Fields ℤ
report_of algorithm result seed = field "scenario_id" (str "s1") (
    field "experiment"
      (obj (field "algorithm_id" (str algorithm) (field "seed" (int (pos seed)) end)))
      (field "evaluation" (obj (field "overall_result" (str result) end)) end))

abbrev reports : List (Fields ℤ)
reports =
    report_of "tcp" "pass" 1
    ∷ report_of "pursuit" "fail" 1
    ∷ report_of "tcp" "fail" 2
    ∷ report_of "tcp" "pass" 2
    ∷ []

unfoldable compared : List (Fields ℤ) → Outcome (Comparison floats repr)
unfolding insert sorted_by distinct read_each means_of group_reports summarize_algorithm
    summarize_each compare_closed_loop_reports add
compared rs = compare_closed_loop_reports floats repr rs

abbrev comparison : Comparison floats repr
unfolding compared
comparison = result_of (compared reports) refl

abbrev results_of : String × Algorithm floats repr → String × List (String × ℕ)
results_of a = (a.0, a.1.results)

by_name :
    map results_of comparison.algorithms
    ≡ ("pursuit", ("fail", 1) ∷ []) ∷ ("tcp", ("fail", 1) ∷ ("pass", 2) ∷ []) ∷ []
unfolding compared
by_name = refl

compare_closed_loop_reports-IsBalanced_example :
    (comparison.run_count ≡ 4)
    × (total (λ a. a.1.runs) comparison.algorithms ≡ comparison.run_count)
    × All (λ a. total (λ r. r.1) a.1.results ≡ a.1.runs) comparison.algorithms
unfolding compared
compare_closed_loop_reports-IsBalanced_example =
    compare_closed_loop_reports-IsBalanced floats repr reports comparison refl
