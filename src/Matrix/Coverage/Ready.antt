-- ===== src/Matrix/Coverage/Ready.antt =====
-- A set of reports that is ready for comparison is complete.
use closed_loop_bench.Base.{
  none_kept, ℕ, suc, Bool, true, false, ◌==◌, not, ltb, List, [], ◌∷◌, ◌++◌, map, keep, length,
  is_empty, Option, none, some, ◌≡◌, refl, ◌∙◌, sym, ap, Bool-cases, Option-cases, inl, inr, All,
  if◌then◌else◌,
}
use mathlib.Core.Path.{transport}
use closed_loop_bench.Base.Outcome.{ok, >>=-eq-ok, guard-bind, ok_unique}
use closed_loop_bench.Json.{Floats, Value}
use closed_loop_bench.Matrix.Keys.{Key, same_key, run_key_from_report}
use closed_loop_bench.Matrix.Keys.Laws.{IsEquality, same_key_refl, same_key_cong}
use closed_loop_bench.Matrix.Groups.{lookup, rows_or_none, rows_at}
use closed_loop_bench.Matrix.Coverage.{
  Run, Plan, Seen, Coverage, Invalid, Expected, Observed, plan_schema, see, tell_malformed, expect,
  observe, has, keys, invalid_runs, report_reasons, evaluate_coverage, coverage_of,
}
use closed_loop_bench.Matrix.Coverage.Grouped.{
  with_key, Keyed, see-IsSeen, observe_rows, with_one, not_empty, empty_prefix, true_is_false,
}
use closed_loop_bench.Matrix.Coverage.Entries.{
  and_parts, single, All-map, All-imp, All-both, found, observe-Filled, Reasonless, invalid_none,
}

not-not : (b : Bool) → not b ≡ false → b ≡ true
not-not true h = refl
not-not false h = cc

is_empty-map :
    {A B : Type 0} (f : A → B) (xs : List A) → is_empty (map f xs) ≡ true → is_empty xs ≡ true
is_empty-map f [] h = refl
is_empty-map f (x ∷ xs) h = cc

abbrev is_some : {X : Type 0} → Option X → Bool
is_some none = false
is_some (some x) = true

module _ (fl : Floats) (law : IsEquality fl) where
  -- A report tells its key, under which rows were observed.
  abbrev Filed : Observed fl → Value fl.Float → Type 0
  Filed observed r =
      (k : Keyed fl law r) × (is_empty (rows_at (same_key fl) k.key observed) ≡ false)

  observe-Filed :
      (i : ℕ) (seen last : Seen fl) (reports : List (Value fl.Float))
      → observe fl i seen reports ≡ ok last
      → is_empty last.malformed ≡ true
      → (is_empty seen.malformed ≡ true) × All (Filed last.observed) reports
  unfolding observe
  observe-Filed i seen last [] h empty =
      (ap (λ x. is_empty x.malformed) (ok_unique refl h) ∙ empty, tt)
  observe-Filed i seen last (r ∷ rs) h empty =
      let (key, told, h1) = >>=-eq-ok (tell_malformed fl (run_key_from_report fl r)) _ h in
      let (next, one, h2) = >>=-eq-ok (see fl i r seen key) _ h1 in
      let (before, others) = observe-Filed (suc i) next last rs h2 empty in
      let step = see-IsSeen fl law i r seen next key told one in
      let (start, keyed) = step.told before in
      let own : with_key fl law keyed.key (r ∷ []) ≡ r ∷ [] =
        with_one fl law keyed.key r keyed.key keyed.key_at
        ∙ ap (λ b. if b then r ∷ [] else []) (same_key_refl fl law keyed.key) in
      let there : is_empty (rows_at (same_key fl) keyed.key next.observed) ≡ false =
        ap is_empty (
          step.grown keyed.key ∙ ap (λ xs. rows_at (same_key fl) keyed.key seen.observed ++ xs) own)
        ∙ not_empty (rows_at (same_key fl) keyed.key seen.observed) r in
      (
        start,
        (
          (
            keyed,
            ap is_empty (observe_rows fl law (suc i) next last rs keyed.key h2)
                ∙ empty_prefix _ (with_key fl law keyed.key rs) there,
          ),
          others,
        ),
      )

  found_some :
      (k : Key fl.Float) (d : Observed fl)
      → is_empty (rows_at (same_key fl) k d) ≡ false
      → (rows : List (Value fl.Float)) × (lookup (same_key fl) k d ≡ some rows)
  found_some k d h = elim (Option-cases (lookup (same_key fl) k d)) [
    | inl p ↦ absurd (true_is_false (ap (λ o. is_empty (rows_or_none (same_key fl) o)) (sym p) ∙ h))
    | inr p ↦ p
  ]

  same_right : (i j k : Key fl.Float) → same_key fl j k ≡ true → same_key fl i j ≡ same_key fl i k
  same_right i j k h =
      let back = sym (same_key_cong fl law j k j h) ∙ same_key_refl fl law j in
      elim (Bool-cases (same_key fl i j)) [
        | inl p ↦ p ∙ sym (same_key_cong fl law i j k p ∙ h)
        | inr p ↦ elim (Bool-cases (same_key fl i k)) [
          | inl q ↦ absurd (true_is_false (sym (same_key_cong fl law i k j q ∙ back) ∙ p))
          | inr q ↦ p ∙ sym q
        ]
      ]

  -- A key is looked up like one that equals it.
  lookup_cong :
      {X : Type 0} (j k : Key fl.Float) (d : List (Key fl.Float × X))
      → same_key fl j k ≡ true
      → lookup (same_key fl) j d ≡ lookup (same_key fl) k d
  unfolding lookup
  lookup_cong j k [] h = refl
  lookup_cong j k ((i, x) ∷ d) h = rw (same_right i j k h, lookup_cong j k d h) refl

  has_cong :
      {X : Type 0} (j k : Key fl.Float) (d : List (Key fl.Float × X))
      → same_key fl j k ≡ true
      → has fl j d ≡ true
      → has fl k d ≡ true
  has_cong j k d h g = transport (ap (λ o. is_some o ≡ true) (lookup_cong j k d h)) g

  some_of_has :
      (k : Key fl.Float) (d : Observed fl)
      → not (has fl k d) ≡ false
      → (rows : List (Value fl.Float)) × (lookup (same_key fl) k d ≡ some rows)
  some_of_has k d h = elim (Option-cases (lookup (same_key fl) k d)) [
    | inl p ↦ absurd (true_is_false (sym (ap (λ o. not (is_some o)) p) ∙ h))
    | inr p ↦ p
  ]

  -- Nothing was observed at the start.
  start_rows :
      (k : Key fl.Float) (rows : List (Value fl.Float)) → rows_at (same_key fl) k [] ++ rows ≡ rows
  unfolding lookup
  start_rows k rows = refl

  -- The reports of an expected run: exactly one, without a reason against it.
  abbrev pub ExactlyOne : List (Value fl.Float) → Key fl.Float → Run fl → Type 0
  ExactlyOne reports k run =
      (r : Value fl.Float) × (with_key fl law k reports ≡ r ∷ [])
      × (report_reasons fl run.request r ≡ ok [])

  -- A report of an expected run.
  abbrev pub Wanted : Expected fl → Value fl.Float → Type 0
  Wanted expected r = (k : Keyed fl law r) × (has fl k.key expected ≡ true)

  -- One expected run, when no list of the coverage is about it.
  exactly_one :
      (reports : List (Value fl.Float)) (seen : Seen fl) (k : Key fl.Float) (run : Run fl)
      → observe fl 0 (record { observed = []; malformed = [] }) reports ≡ ok seen
      → All (λ e. ltb 1 (length e.1) ≡ false) seen.observed
      → not (has fl k seen.observed) ≡ false
      → Reasonless fl seen.observed k run
      → ExactlyOne reports k run
  exactly_one reports seen k run observed few there reasonless =
      let (rows, hit) = some_of_has k seen.observed there in
      let filled = observe-Filled fl 0 _ seen reports observed tt in
      let (i, e1, full) = found fl (λ j xs. is_empty xs ≡ false) k seen.observed rows filled hit in
      let (j, e2, short) =
        found fl (λ j xs. ltb 1 (length xs) ≡ false) k seen.observed rows few hit in
      let (r, alone) = single rows full short in
      let at_key : rows_at (same_key fl) k seen.observed ≡ r ∷ [] =
        ap (rows_or_none (same_key fl)) hit ∙ alone in
      let grouped = observe_rows fl law 0 _ seen reports k observed in
      (r, sym (grouped ∙ start_rows k (with_key fl law k reports)) ∙ at_key, reasonless r at_key)

  -- One report, when no observed key is unexpected.
  wanted :
      (expected : Expected fl) (observed : Observed fl) (r : Value fl.Float)
      → All (λ e. not (has fl e.0 expected) ≡ false) observed
      → Filed observed r
      → Wanted expected r
  wanted expected observed r none_else (keyed, there) =
      let (rows, hit) = found_some keyed.key observed there in
      let (j, same, known) =
        found fl (λ k xs. not (has fl k expected) ≡ false) keyed.key observed rows none_else hit in
      (keyed, has_cong j keyed.key expected same (not-not _ known))

  -- What readiness says of the lists of a coverage.
  coverage_flags :
      (count : ℕ) (expected : Expected fl) (seen : Seen fl) (invalid : List (Invalid fl))
      → (coverage_of fl count expected seen invalid).ready_for_comparison ≡ true
      → All (λ e. not (has fl e.0 seen.observed) ≡ false) expected
        × All (λ e. not (has fl e.0 expected) ≡ false) seen.observed
        × All (λ e. ltb 1 (length e.1) ≡ false) seen.observed
        × (is_empty seen.malformed ≡ true)
        × (is_empty invalid ≡ true)
  coverage_flags count expected seen invalid ready =
      let (r1, no_invalid) = and_parts _ _ ready in
      let (r2, no_malformed) = and_parts _ _ r1 in
      let (r3, no_duplicates) = and_parts _ _ r2 in
      let (no_missing, no_unexpected) = and_parts _ _ r3 in
      (
        All-map (λ e. e.0) (λ k. not (has fl k seen.observed) ≡ false) expected
            (none_kept (λ k. not (has fl k seen.observed)) (keys fl expected) no_missing),
        All-map (λ e. e.0) (λ k. not (has fl k expected) ≡ false) seen.observed
            (none_kept (λ k. not (has fl k expected)) (keys fl seen.observed) no_unexpected),
        none_kept (λ e. ltb 1 (length e.1)) seen.observed
            (is_empty-map (λ e. e.0) (keep (λ e. ltb 1 (length e.1)) seen.observed) no_duplicates),
        no_malformed,
        no_invalid,
      )

  -- Reports that are ready for comparison cover the plan: each expected run has exactly one report
  -- with its key, and nothing speaks against that report; and each report tells its key, which is
  -- that of an expected run. Equality of keys is taken to be an equivalence.
  pub coverage_ready :
      (plan : Plan fl) (reports : List (Value fl.Float)) (c : Coverage fl)
      → evaluate_coverage fl plan reports ≡ ok c
      → c.ready_for_comparison ≡ true
      → (expected : Expected fl) × (expect fl [] plan.runs ≡ ok expected)
        × All (λ e. ExactlyOne reports e.0 e.1) expected
        × All (Wanted expected) reports
  unfolding evaluate_coverage
  coverage_ready plan reports c h ready =
      let (schema, h1) = guard-bind (plan.schema_version == plan_schema) _ _ h in
      let (expected, asked, h2) = >>=-eq-ok (expect fl [] plan.runs) _ h1 in
      let (seen, observed, h3) =
        >>=-eq-ok (observe fl 0 (record { observed = []; malformed = [] }) reports) _ h2 in
      let (invalid, checked, h4) = >>=-eq-ok (invalid_runs fl expected seen.observed) _ h3 in
      let same = ap (λ x. x.ready_for_comparison) (ok_unique refl h4) ∙ ready in
      let (missing, unexpected, few, no_malformed, no_invalid) =
        coverage_flags (length reports) expected seen invalid same in
      let reasonless = invalid_none fl expected seen.observed invalid checked no_invalid in
      (
        expected,
        asked,
        All-imp _ _ expected (λ e p. exactly_one reports seen e.0 e.1 observed few p.0 p.1)
            (All-both _ _ expected missing reasonless),
        All-imp _ _ reports (λ r p. wanted expected seen.observed r unexpected p)
            (observe-Filed 0 _ seen reports observed no_malformed).1,
      )
