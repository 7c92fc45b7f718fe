-- ===== src/Report/Comparison/Counted.antt =====
-- A comparison counts each report once.
use closed_loop_bench.Base.{
  sorted_by, ℕ, suc, ◌+◌, String, ◌==◌, List, [], ◌∷◌, length, length-append, All, ◌≡◌, refl, ◌∙◌,
  ap, sym, arith, Bool-cases, inl, inr,
}
use mathlib.Core.Path.{transport}
use closed_loop_bench.Base.Outcome.{Outcome, ok, >>=-eq-ok, ok_unique}
use closed_loop_bench.Json.{Floats, Value}
use closed_loop_bench.Matrix.Groups.{add}
use closed_loop_bench.Report.Numbers.{Row}
use closed_loop_bench.Report.Comparison.Totals.{total, total-sorted_by, total-result_counts}
use closed_loop_bench.Report.Comparison.{
  same_text, read_each, Algorithm, Groups, lt_group, reported_algorithm, group_reports,
  summarize_algorithm, summarize_each, Comparison, result_of_report, scenario_of, reported_odd,
  version_of, seed_of, means_of, summary_metrics, compare_closed_loop_reports,
}

abbrev size : {A : Type 0} → String × List A → ℕ
size g = length g.1

total-add :
    {R : Type 0} (k : String) (r : R) (d : List (String × List R))
    → total size (add same_text k r d) ≡ suc (total size d)
unfolding add
total-add k r [] = refl
total-add k r ((j, rs) ∷ d) = elim (Bool-cases (j == k)) [
  | inl h ↦ rw h (omega (arith, length-append rs (r ∷ [])))
  | inr h ↦ rw h (omega (arith, total-add k r d))
]

module _ (fl : Floats) (repr : Value fl.Float → String) where
  total-group_reports :
      (reports : List (Row fl)) (before groups : Groups fl repr)
      → group_reports fl repr reports before ≡ ok groups
      → total size groups ≡ total size before + length reports
  unfolding group_reports
  total-group_reports [] before groups h =
      ap (λ g. total size g) (sym (ok_unique refl h)) ∙ omega arith
  total-group_reports (r ∷ reports) before groups h =
      let (k, e, h1) = >>=-eq-ok (reported_algorithm fl repr r) _ h in
      omega (
        arith,
        total-group_reports reports (add same_text k r before) groups h1,
        total-add k r before,
      )

  length-read_each :
      {A : Type 0} (read : Row fl → Outcome A) (reports : List (Row fl)) (found : List A)
      → read_each fl repr read reports ≡ ok found
      → length found ≡ length reports
  unfolding read_each
  length-read_each read [] found h = ap length (sym (ok_unique refl h))
  length-read_each read (r ∷ reports) found h =
      let (a, e, h1) = >>=-eq-ok (read r) _ h in
      let (rest, e2, h2) = >>=-eq-ok (read_each fl repr read reports) _ h1 in
      ap length (sym (ok_unique refl h2)) ∙ ap suc (length-read_each read reports rest e2)

  -- The results that a summary counts are those of its runs.
  abbrev IsBalanced : Algorithm fl repr → Type 0
  IsBalanced a = total (λ c. c.1) a.results ≡ a.runs

  summarize_algorithm-IsBalanced :
      (reports : List (Row fl)) (a : Algorithm fl repr)
      → summarize_algorithm fl repr reports ≡ ok a
      → (a.runs ≡ length reports) × IsBalanced a
  unfolding summarize_algorithm
  summarize_algorithm-IsBalanced reports a h =
      let (results, e1, h1) =
        >>=-eq-ok (read_each fl repr (result_of_report fl repr) reports) _ h in
      let (scenarios, e2, h2) = >>=-eq-ok (read_each fl repr (scenario_of fl repr) reports) _ h1 in
      let (odds, e3, h3) = >>=-eq-ok (read_each fl repr (reported_odd fl repr) reports) _ h2 in
      let (told, e4, h4) = >>=-eq-ok (read_each fl repr (version_of fl repr) reports) _ h3 in
      let (seeds, e5, h5) = >>=-eq-ok (read_each fl repr (seed_of fl repr) reports) _ h4 in
      let (means, e6, h6) = >>=-eq-ok (means_of fl repr reports (summary_metrics fl repr)) _ h5 in
      transport (ap (λ x. (x.runs ≡ length reports) × IsBalanced x) (ok_unique refl h6)) (
        refl,
        total-result_counts results
            ∙ length-read_each (result_of_report fl repr) reports results e1,
      )

  abbrev runs_of : String × Algorithm fl repr → ℕ
  runs_of a = a.1.runs

  summarize_each-IsBalanced :
      (groups : Groups fl repr) (algorithms : List (String × Algorithm fl repr))
      → summarize_each fl repr groups ≡ ok algorithms
      → (total runs_of algorithms ≡ total size groups) × All (λ a. IsBalanced a.1) algorithms
  unfolding summarize_each
  summarize_each-IsBalanced [] algorithms h =
      transport (ap (λ x. (total runs_of x ≡ 0) × All (λ a. IsBalanced a.1) x) (ok_unique refl h))
        (refl, tt)
  summarize_each-IsBalanced ((name, reports) ∷ groups) algorithms h =
      let (one, e1, h1) = >>=-eq-ok (summarize_algorithm fl repr reports) _ h in
      let (rest, e2, h2) = >>=-eq-ok (summarize_each fl repr groups) _ h1 in
      let (runs, balanced) = summarize_algorithm-IsBalanced reports one e1 in
      let (sums, others) = summarize_each-IsBalanced groups rest e2 in
      transport
        (ap
          (λ x.
            (total runs_of x ≡ length reports + total size groups) × All (λ a. IsBalanced a.1) x)
          (ok_unique refl h2))
        (omega (arith, runs, sums), (balanced, others))

  -- A comparison counts each report once: its run count is the number of the reports, the runs of
  -- its algorithms add up to it, and for each algorithm the counts of the results add up to its runs.
  pub compare_closed_loop_reports-IsBalanced :
      (reports : List (Row fl)) (c : Comparison fl repr)
      → compare_closed_loop_reports fl repr reports ≡ ok c
      → (c.run_count ≡ length reports)
        × (total (λ a. a.1.runs) c.algorithms ≡ c.run_count)
        × All (λ a. total (λ r. r.1) a.1.results ≡ a.1.runs) c.algorithms
  unfolding compare_closed_loop_reports
  compare_closed_loop_reports-IsBalanced reports c h =
      let (groups, e1, h1) = >>=-eq-ok (group_reports fl repr reports []) _ h in
      let (algorithms, e2, h2) =
        >>=-eq-ok (summarize_each fl repr (sorted_by (lt_group fl repr) groups)) _ h1 in
      let (sums, balanced) =
        summarize_each-IsBalanced (sorted_by (lt_group fl repr) groups) algorithms e2 in
      let grouped = total-group_reports reports [] groups e1 in
      let kept = total-sorted_by (lt_group fl repr) size groups in
      transport
        (ap
          (λ x.
            (x.run_count ≡ length reports)
            × (total (λ a. a.1.runs) x.algorithms ≡ x.run_count)
            × All (λ a. total (λ r. r.1) a.1.results ≡ a.1.runs) x.algorithms)
          (ok_unique refl h2))
        (refl, omega (arith, sums, grouped, kept), balanced)
