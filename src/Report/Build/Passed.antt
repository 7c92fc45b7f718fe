-- ===== src/Report/Build/Passed.antt =====
-- What a report that passes says of the rows of its run.
use closed_loop_bench.Base.{
  ℕ, String, true, false, List, [], ◌∷◌, All, any, Option, none, some, ◌≡◌, refl, ◌∙◌, ap, sym,
  arith, Bool-cases, Option-cases, inl, inr, ◌⊎◌,
}
use mathlib.Core.Path.{transport}
use closed_loop_bench.Base.Outcome.{ok, ok_unique}
use closed_loop_bench.Json.{
  ℤ, pos, Floats, Value, Fields, null, bool, int, float, str, arr, obj, as_float, is_number,
}
use closed_loop_bench.Criteria.{
  look_up, pass, default_criteria, criteria_from_run_config, compare, is_metric_known, has_number,
}
use closed_loop_bench.Criteria.Verdicts.{Settles, evaluate_report_pass}
use closed_loop_bench.Report.Numbers.{
  Row, number_at, min_of, max_of, values_of, first_of, or_null, or_zero,
}
use closed_loop_bench.Report.Events.{collision_count, is_raised, samples_event}
use closed_loop_bench.Report.Events.Blocks.{
  IsFlagged, flags_of, raised_blocks, count_events_blocks, no_blocks,
}
use closed_loop_bench.Report.Build.{
  Measured, full_summary, ttc_keys, ClosedLoopReport, build_closed_loop_report,
}
use closed_loop_bench.Report.Build.Extremes.{
  IsComparable, is_ordered, below_min, max_of-in, Somewhere, Tells, Reaches, values-Tells,
  Tells-values, values-Reaches, some_unique,
}
use closed_loop_bench.Report.Build.Parts.{measure-collisions, report-Parts}

module _ (fl : Floats) (repr : Value fl.Float → String) where
  none-some : {A : Type 0} {x : A} → some x ≡ none → ⊥
  none-some h = ground arith

  found_min :
      (o : Option fl.Float) {a : fl.Float} → as_float fl (or_null fl o) ≡ some a → o ≡ some a
  found_min none h = cc
  found_min (some x) h = h

  number_cases :
      (v : Value fl.Float)
      → ((as_float fl v ≡ none) × (is_number v ≡ false))
        ⊎ ((x : fl.Float) × (as_float fl v ≡ some x))
  number_cases null = inl (refl, refl)
  number_cases (bool b) = inr (_, refl)
  number_cases (int n) = inr (_, refl)
  number_cases (float x) = inr (_, refl)
  number_cases (str s) = inl (refl, refl)
  number_cases (arr vs) = inl (refl, refl)
  number_cases (obj fs) = inl (refl, refl)

  no_values :
      (k : String) (rows : List (Row fl))
      → max_of fl (values_of fl (number_at fl) (k ∷ []) rows) ≡ none
      → any (has_number fl repr k) rows ≡ false
  unfolding values_of first_of
  no_values k [] h = refl
  no_values k (row ∷ rows) h = elim (number_cases (look_up k row)) [
    | inl (absent, plain) ↦ rw plain (no_values k rows (rw absent at h))
    | inr (x, there) ↦ absurd (none-some (rw there at h))
  ]

  -- A run that was safe by its rows: no row has a collision, every time to collision is at least one
  -- second, and some row has 95 per cent of the route behind it.
  pub record IsSafeRun (rows : List (Row fl)) : Type 0 where
    pub no_collision : All (λ row. is_raised fl (look_up "collision" row) ≡ false) rows
    pub clear :
        All (Tells fl (number_at fl) ttc_keys (λ v. fl.le_float (fl.literal 10 1) v ≡ true)) rows
    pub arrived :
        Somewhere
          (Reaches fl
            (number_at fl)
            ("route_progress" ∷ [])
            (λ v. fl.le_float (fl.literal 95 2) v ≡ true))
          rows

  -- The comparison that a criterion of the defaults makes.
  passed_eq : (a e : fl.Float) → compare fl repr a (str "==") e ≡ ok true → fl.eq_float a e ≡ true
  unfolding compare
  passed_eq a e h = ok_unique refl h

  passed_ge : (a e : fl.Float) → compare fl repr a (str ">=") e ≡ ok true → fl.le_float e a ≡ true
  unfolding compare
  passed_ge a e h = ok_unique refl h

  module _ (run_config : Fields fl.Float) (rows : List (Row fl)) (status : String)
      (m : Measured fl repr) where
    abbrev summary : Fields fl.Float
    summary = full_summary fl repr m rows

    abbrev Compared : String → Value fl.Float → Value fl.Float → Type 0
    Compared metric op expected =
        Settles fl repr summary rows status true
          (record { name = str metric; metric = metric; op = op; expected = expected })

    clear_rows :
        IsComparable fl
        → All (Tells fl (number_at fl) ttc_keys (λ v. is_ordered fl v ≡ true)) rows
        → Compared "min_ttc" (str ">=") (float (fl.literal 10 1))
        → All (Tells fl (number_at fl) ttc_keys (λ v. fl.le_float (fl.literal 10 1) v ≡ true)) rows
    clear_rows law ordered (inl (gate, known)) = absurd (ground (arith, gate))
    clear_rows law ordered (inr (plain, known, c)) =
        let low = passed_ge c.actual c.expected c.compared in
        values-Tells fl (number_at fl) ttc_keys _ rows (
          below_min fl law (fl.literal 10 1) c.actual (values_of fl (number_at fl) ttc_keys rows)
            (found_min (min_of fl (values_of fl (number_at fl) ttc_keys rows)) c.actual_at)
            (transport (ap (λ x. fl.le_float x c.actual ≡ true) (sym (some_unique c.expected_at)))
              low)
            (Tells-values fl (number_at fl) ttc_keys _ rows ordered))

    at_least :
        (x : fl.Float) {a e l : fl.Float}
        → x ≡ a
        → l ≡ e
        → fl.le_float e a ≡ true
        → fl.le_float l x ≡ true
    at_least x p q h = rw (p, q) h

    arrived_row :
        Compared "route_progress" (str ">=") (float (fl.literal 95 2))
        → Somewhere
            (Reaches fl
              (number_at fl)
              ("route_progress" ∷ [])
              (λ v. fl.le_float (fl.literal 95 2) v ≡ true))
            rows
    unfolding is_metric_known
    arrived_row (inl (gate, known)) = absurd (ground (arith, gate))
    arrived_row (inr (plain, known, c)) =
        elim (Option-cases (max_of fl (values_of fl (number_at fl) ("route_progress" ∷ []) rows))) [
          | inl nothing ↦ absurd (ground (arith, known, no_values "route_progress" rows nothing))
          | inr (x, greatest) ↦ values-Reaches fl (number_at fl) ("route_progress" ∷ []) _ rows (
              max_of-in fl (λ v. fl.le_float (fl.literal 95 2) v ≡ true) x _ greatest
                (at_least x (sym (ap (or_zero fl) greatest) ∙ some_unique c.actual_at)
                  (some_unique c.expected_at) (passed_ge c.actual c.expected c.compared)))
        ]

    collisions_value :
        (v : Value fl.Float) (a : fl.Float)
        → All (IsFlagged fl "collision" "collision_count") rows
        → collision_count fl rows ≡ ok v
        → as_float fl v ≡ some a
        → a ≡ fl.of_int (pos (raised_blocks (flags_of fl "collision" "collision_count" rows)))
    unfolding collision_count
    collisions_value v a flagged counted there =
        elim (Bool-cases (any (samples_event fl "collision" "collision_count") rows)) [
          | inl sampled ↦
              let blocks = count_events_blocks fl "collision" "collision_count" rows flagged in
              let same = ok_unique refl (rw (sampled, blocks) at counted) in
              some_unique (sym there ∙ ap (as_float fl) (sym same))
          | inr unsampled ↦
              let nothing = ok_unique refl (rw unsampled at counted) in
              absurd (none-some (sym there ∙ ap (as_float fl) (sym nothing)))
        ]

    pos_unique : {k n : ℕ} → pos k ≡ pos n → k ≡ n
    pos_unique h = ground arith

    unflagged :
        (xs : List (Row fl))
        → All (λ b. b ≡ false) (flags_of fl "collision" "collision_count" xs)
        → All (λ row. is_raised fl (look_up "collision" row) ≡ false) xs
    unflagged [] h = tt
    unflagged (row ∷ xs) h = (h.0, unflagged xs h.1)

    uncollided :
        ((n : ℤ) → fl.eq_float (fl.of_int n) (fl.of_int (pos 0)) ≡ true → n ≡ pos 0)
        → All (IsFlagged fl "collision" "collision_count") rows
        → collision_count fl rows ≡ ok m.collisions
        → Compared "collision_count" (str "==") (int (pos 0))
        → All (λ row. is_raised fl (look_up "collision" row) ≡ false) rows
    uncollided zero flagged counted (inl (gate, known)) = absurd (ground (arith, gate))
    uncollided zero flagged counted (inr (plain, known, c)) =
        let same = passed_eq c.actual c.expected c.compared in
        let value = collisions_value m.collisions c.actual flagged counted c.actual_at in
        let blocks = raised_blocks (flags_of fl "collision" "collision_count" rows) in
        let none_counted =
          zero (pos blocks) (rw (value, sym (some_unique c.expected_at)) at same) in
        unflagged rows (no_blocks _ (pos_unique none_counted))

  -- A built report with the default criteria passes only for a safe run: no row has a collision, every
  -- time to collision that the rows tell is at least one second, and some row has 95 per cent of the
  -- route behind it. The rows tell collisions by flags, no time to collision is NaN, and comparisons
  -- of the other floats are a total order in which just the int 0 equals 0.
  pub build_closed_loop_report-IsSafeRun :
      (run_config : Fields fl.Float) (rows : List (Row fl)) (status : String)
      (r : ClosedLoopReport fl repr)
      → IsComparable fl
      → ((n : ℤ) → fl.eq_float (fl.of_int n) (fl.of_int (pos 0)) ≡ true → n ≡ pos 0)
      → build_closed_loop_report fl repr run_config rows status ≡ ok r
      → criteria_from_run_config fl repr run_config ≡ ok (default_criteria fl repr)
      → r.evaluation.overall ≡ pass
      → All (IsFlagged fl "collision" "collision_count") rows
      → All (Tells fl (number_at fl) ttc_keys (λ v. is_ordered fl v ≡ true)) rows
      → IsSafeRun rows
  build_closed_loop_report-IsSafeRun run_config rows status r law zero built asked passed flagged
        ordered =
      let parts = report-Parts fl repr run_config rows status r built in
      let m = parts.measured in
      let (collisions, (progress, (ttc, u))) =
        ((evaluate_report_pass fl repr (full_summary fl repr m rows) rows status run_config
            r.evaluation (default_criteria fl repr) asked parts.evaluated).0
          passed).1 in
      record {
        no_collision =
            uncollided run_config rows status m zero flagged
              (measure-collisions fl repr run_config rows m parts.was_measured) collisions;
        clear = clear_rows run_config rows status m law ordered ttc;
        arrived = arrived_row run_config rows status m progress;
      }
