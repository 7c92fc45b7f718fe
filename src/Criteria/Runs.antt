-- ===== src/Criteria/Runs.antt =====
-- Reports of runs that were not made, and which run configs are evaluated without an exception.
use closed_loop_bench.Base.{
  String, Bool, true, false, ◌==◌, ◌&&◌, ◌||◌, not, Option, none, some, List, [], ◌∷◌, ◌≡◌, refl,
  inl, inr, All, arith, Bool-cases,
}
use closed_loop_bench.Base.Outcome.{ok}
use closed_loop_bench.Json.{Floats, Value, Fields, is_text, as_float, converts}
use closed_loop_bench.Criteria.{
  Verdict, pass, unknown, look_up, Criterion, Evaluated, Report, verdict_of, judge, compare,
  is_metric_known, criterion_result, evaluate_criterion, evaluate_each, reason_of, overall_result,
  results, evaluate_report, criteria_from_run_config,
}
use closed_loop_bench.Criteria.Verdicts.{Settles, evaluate_report_pass}

module _ (fl : Floats) (repr : Value fl.Float → String) where
  not_run_known :
      (metric : String) (actual : Value fl.Float)
      → is_metric_known fl repr metric actual [] "not_run" ≡ true
      → (metric == "collision_count") ≡ true
  unfolding is_metric_known
  not_run_known metric actual h = ground arith

  abbrev pub CountsCollisions : Criterion fl repr → Type 0
  CountsCollisions c = (c.metric == "collision_count") ≡ true

  counts :
      (summary : Fields fl.Float) (c : Criterion fl repr)
      → Settles fl repr summary [] "not_run" true c
      → CountsCollisions c
  counts summary c (inl (gate, known)) = not_run_known c.metric _ known
  counts summary c (inr (plain, known, m)) = not_run_known c.metric _ known

  All-count :
      (summary : Fields fl.Float) (cs : List (Criterion fl repr))
      → All (Settles fl repr summary [] "not_run" true) cs
      → All CountsCollisions cs
  All-count summary [] h = tt
  All-count summary (c ∷ cs) h = (counts summary c h.0, All-count summary cs h.1)

  -- A run that was not made and has no metric rows passes only if every criterion of its run config
  -- counts collisions.
  pub evaluate_report_not_run :
      (run_config summary : Fields fl.Float) (r : Report fl repr) (cs : List (Criterion fl repr))
      → criteria_from_run_config fl repr run_config ≡ ok cs
      → evaluate_report fl repr run_config summary [] "not_run" ≡ ok r
      → r.overall ≡ pass
      → All CountsCollisions cs
  evaluate_report_not_run run_config summary r cs asked h passed =
      All-count summary cs
        ((evaluate_report_pass fl repr summary [] "not_run" run_config r cs asked h).0 passed).1

  -- The operator of a criterion is one of those that the code knows.
  abbrev pub is_operator : Value fl.Float → Bool
  is_operator op =
      is_text op "available"
      || is_text op "=="
      || is_text op "!="
      || is_text op ">="
      || is_text op ">"
      || is_text op "<="
      || is_text op "<"

  compare_total :
      (a e : fl.Float) (op : Value fl.Float)
      → is_text op "available" ≡ false
      → is_operator op ≡ true
      → (b : Bool) × (compare fl repr a op e ≡ ok b)
  unfolding compare
  compare_total a e op plain known = elim (Bool-cases (is_text op "==")) [
    | inl p ↦ (fl.eq_float a e, rw p refl)
    | inr p ↦ elim (Bool-cases (is_text op "!=")) [
      | inl q ↦ (not (fl.eq_float a e), rw (p, q) refl)
      | inr q ↦ elim (Bool-cases (is_text op ">=")) [
        | inl r ↦ (fl.le_float e a, rw (p, q, r) refl)
        | inr r ↦ elim (Bool-cases (is_text op ">")) [
          | inl s ↦ (fl.lt_float e a, rw (p, q, r, s) refl)
          | inr s ↦ elim (Bool-cases (is_text op "<=")) [
            | inl t ↦ (fl.le_float a e, rw (p, q, r, s, t) refl)
            | inr t ↦ (fl.lt_float a e, ground arith)
          ]
        ]
      ]
    ]
  ]

  module _ (summary : Fields fl.Float) (rows : List (Fields fl.Float)) (status : String) where
    -- The metric of a criterion and its threshold are no ints that no float holds.
    abbrev pub Converts : Criterion fl repr → Type 0
    Converts c = (converts fl (look_up c.metric summary) && converts fl c.expected) ≡ true

    judge_total :
        (fit : Bool) (x y : Option fl.Float) (op : Value fl.Float)
        → fit ≡ true
        → is_text op "available" ≡ false
        → is_operator op ≡ true
        → (v : Verdict) × (judge fl repr fit x op y ≡ ok v)
    judge_total fit (some a) (some e) op small plain known =
        let (b, h) = compare_total a e op plain known in (verdict_of b, rw (small, h) refl)
    judge_total fit (some a) none op small plain known = (unknown, refl)
    judge_total fit none y op small plain known = (unknown, refl)

    result_total :
        (c : Criterion fl repr)
        → is_operator c.op ≡ true
        → Converts c
        → (v : Verdict) × (criterion_result fl repr c.metric
              (look_up c.metric summary)
              c.op
              c.expected
              rows
              status
            ≡ ok v)
    unfolding criterion_result
    result_total c known small = elim (Bool-cases (is_text c.op "available")) [
      | inl gate ↦ (
        verdict_of (is_metric_known fl repr c.metric (look_up c.metric summary) rows status),
        rw gate refl,
      )
      | inr plain ↦
          let (v, h) =
            judge_total _ (as_float fl (look_up c.metric summary)) (as_float fl c.expected) c.op
              small plain known in
          elim (Bool-cases
            (is_metric_known fl repr c.metric (look_up c.metric summary) rows status)) [
              | inl sampled ↦ (v, rw (plain, sampled, h) refl)
              | inr missing ↦ (unknown, rw (plain, missing) refl)
            ]
    ]

    each_total :
        (cs : List (Criterion fl repr))
        → All (λ c. is_operator c.op ≡ true) cs
        → All Converts cs
        → (es : List (Evaluated fl repr)) × (evaluate_each fl repr cs summary rows status ≡ ok es)
    unfolding evaluate_each evaluate_criterion
    each_total [] known small = ([], refl)
    each_total (c ∷ cs) known small =
        let (v, h) = result_total c known.0 small.0 in
        let (es, h1) = each_total cs known.1 small.1 in
        (
          record {
            criterion = c;
            actual = look_up c.metric summary;
            result = v;
            reason = reason_of v c.metric status;
          }
              ∷ es,
          rw (h, h1) refl,
        )

    -- A run config whose criteria are accepted and use only operators that the code knows gets a
    -- report, whatever the summary, the rows and the status are, if the metrics that are asked for and
    -- their thresholds are no ints that no float holds.
    pub evaluate_report_total :
        (run_config : Fields fl.Float) (cs : List (Criterion fl repr))
        → criteria_from_run_config fl repr run_config ≡ ok cs
        → All (λ c. is_operator c.op ≡ true) cs
        → All Converts cs
        → (r : Report fl repr) × (evaluate_report fl repr run_config summary rows status ≡ ok r)
    unfolding evaluate_report
    evaluate_report_total run_config cs asked known small =
        let (es, h) = each_total cs known small in
        (
          record { overall = overall_result (results fl repr es); criteria = es },
          rw (asked, h) refl,
        )
