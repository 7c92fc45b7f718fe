-- ===== src/Tests/Criteria.antt =====
-- Reports on concrete runs.
use closed_loop_bench.Base.{String, true, false, none, List, [], ◌∷◌, ◌≡◌, refl, ◌↔◌, All, is_empty}
use closed_loop_bench.Base.Outcome.{Outcome, ok}
use closed_loop_bench.Json.{ℤ, pos, Value, Fields, int, str, obj, field, end}
use closed_loop_bench.Criteria.{
  Verdict, pass, fail, Criterion, Report, criteria_from_run_config, criteria_from_mapping,
  normalize_criterion, is_metric_known, compare, criterion_result, evaluate_criterion,
  evaluate_each, overall_result, evaluate_report,
}
use closed_loop_bench.Criteria.Verdicts.{
  Settles, Somewhere, evaluate_report_pass, evaluate_report_fail,
}
use closed_loop_bench.Criteria.Runs.{
  CountsCollisions, evaluate_report_not_run, evaluate_report_total,
}
use closed_loop_bench.Tests.Sample.{floats}

abbrev repr : Value ℤ → String
repr v = "{}"

-- No collision is wanted, and a progress of at least 9.
abbrev wanted : Fields ℤ
wanted =
    field "evaluation"
      (obj (
        field "criteria"
          (obj (field "collision_count" (int (pos 0)) (field "route_progress" (int (pos 9)) end)))
          end))
      end

abbrev no_collision : Fields ℤ
no_collision =
    field "evaluation"
      (obj (field "criteria" (obj (field "collision_count" (int (pos 0)) end)) end)) end

abbrev reached : ℤ → Fields ℤ
reached n = field "collision_count" (int (pos 0)) (field "route_progress" (int n) end)

abbrev rows : ℤ → List (Fields ℤ)
rows n = reached n ∷ []

report : Fields ℤ → Fields ℤ → List (Fields ℤ) → String → Outcome (Report floats repr)
unfolding criteria_from_run_config criteria_from_mapping normalize_criterion is_metric_known compare
    criterion_result evaluate_criterion evaluate_each overall_result evaluate_report
report run_config summary samples status =
    evaluate_report floats repr run_config summary samples status

abbrev metric : String → String → ℤ → Criterion floats repr
metric name op n = record { name = str name; metric = name; op = str op; expected = int n }

abbrev both : List (Criterion floats repr)
both = metric "collision_count" "==" (pos 0) ∷ metric "route_progress" ">=" (pos 9) ∷ []

-- The report on a run that reached the progress `n`.
abbrev judged : ℤ → Verdict → Verdict → Report floats repr
judged n v w = record {
  overall = w;
  criteria =
      record {
        criterion = metric "collision_count" "==" (pos 0);
        actual = int (pos 0);
        result = pass;
        reason = none;
      }
      ∷ record {
        criterion = metric "route_progress" ">=" (pos 9);
        actual = int n;
        result = v;
        reason = none;
      }
      ∷ [];
}

evaluate_report_pass_example : (pass ≡ pass) ↔ (
    (is_empty both ≡ false)
    × All (Settles floats repr (reached (pos 10)) (rows (pos 10)) "completed" true) both)
unfolding report
evaluate_report_pass_example =
    evaluate_report_pass floats repr (reached (pos 10)) (rows (pos 10)) "completed" wanted
      (judged (pos 10) pass pass) both refl refl

evaluate_report_fail_example :
    (fail ≡ fail)
    ↔ Somewhere floats repr
        (reached (pos 5))
        (rows (pos 5))
        "completed"
        (Settles floats repr (reached (pos 5)) (rows (pos 5)) "completed" false)
        both
unfolding report
evaluate_report_fail_example =
    evaluate_report_fail floats repr (reached (pos 5)) (rows (pos 5)) "completed" wanted
      (judged (pos 5) fail fail) both refl refl

evaluate_report_not_run_example :
    All (CountsCollisions floats repr) (metric "collision_count" "==" (pos 0) ∷ [])
unfolding report
evaluate_report_not_run_example =
    evaluate_report_not_run floats repr no_collision (reached (pos 0))
      (record {
        overall = pass;
        criteria =
            record {
              criterion = metric "collision_count" "==" (pos 0);
              actual = int (pos 0);
              result = pass;
              reason = none;
            }
            ∷ [];
      })
      (metric "collision_count" "==" (pos 0) ∷ []) refl refl refl

evaluate_report_total_example :
    (r : Report floats repr) × (evaluate_report floats repr wanted end [] "not_run" ≡ ok r)
unfolding report
evaluate_report_total_example =
    evaluate_report_total floats repr end [] "not_run" wanted both refl (refl, (refl, tt))
      (refl, (refl, tt))
