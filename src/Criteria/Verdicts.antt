-- ===== src/Criteria/Verdicts.antt =====
-- What a verdict of `evaluate_report` means.
use closed_loop_bench.Base.{
  String, Bool, true, false, ◌&&◌, ◌||◌, Option, none, some, List, [], ◌∷◌, any, all, is_empty, ◌≡◌,
  refl, ◌⊎◌, inl, inr, ◌↔◌, All, arith, sym, ap, ◌∙◌, if◌then◌else◌,
}
use closed_loop_bench.Base.Outcome.{Outcome, ok, >>=-eq-ok, guard-bind, ok_unique}
use closed_loop_bench.Json.{Floats, Value, Fields, is_text, as_float, converts}
use closed_loop_bench.Criteria.{
  Verdict, pass, fail, unknown, is_pass, is_fail, look_up, Criterion, Evaluated, Report, verdict_of,
  judge, compare, is_metric_known, criterion_result, evaluate_criterion, evaluate_each, results,
  overall_result, evaluate_report, criteria_from_run_config,
}

all_pass-none_fail : (rs : List Verdict) → all is_pass rs ≡ true → any is_fail rs ≡ false
all_pass-none_fail [] h = refl
all_pass-none_fail (pass ∷ rs) h = all_pass-none_fail rs h
all_pass-none_fail (fail ∷ rs) h = cc
all_pass-none_fail (unknown ∷ rs) h = cc

-- The report passes just when there are results and each of them passes.
overall_result-pass :
    (rs : List Verdict)
    → (overall_result rs ≡ pass) ↔ ((is_empty rs ≡ false) × (all is_pass rs ≡ true))
unfolding overall_result
overall_result-pass rs = (λ h. ground arith, λ h. rw (all_pass-none_fail rs h.1, h.0, h.1) refl)

overall_result-fail : (rs : List Verdict) → (overall_result rs ≡ fail) ↔ (any is_fail rs ≡ true)
unfolding overall_result
overall_result-fail rs = (λ h. ground arith, λ h. rw h refl)

verdict_unique : (a b : Bool) → verdict_of a ≡ verdict_of b → a ≡ b
verdict_unique true true h = refl
verdict_unique true false h = cc
verdict_unique false true h = cc
verdict_unique false false h = refl

-- A branch on a gate and on whether the metric is known that ends with a verdict.
branch_settles :
    (gate known b : Bool) (j : Outcome Verdict)
    → (if gate then ok (verdict_of known) else if known then j else ok unknown) ≡ ok (verdict_of b)
    → ((gate ≡ true) × (known ≡ b)) ⊎ ((gate ≡ false) × (known ≡ true) × (j ≡ ok (verdict_of b)))
branch_settles true known b j h = inl (refl, verdict_unique known b (ok_unique refl h))
branch_settles false true b j h = inr (refl, refl, h)
branch_settles false false true j h = cc
branch_settles false false false j h = cc

is_pass_unique : (v : Verdict) → is_pass v ≡ true → v ≡ pass
is_pass_unique pass h = refl
is_pass_unique fail h = cc
is_pass_unique unknown h = cc

is_fail_unique : (v : Verdict) → is_fail v ≡ true → v ≡ fail
is_fail_unique fail h = refl
is_fail_unique pass h = cc
is_fail_unique unknown h = cc

and_parts : (a b : Bool) → (a && b) ≡ true → (a ≡ true) × (b ≡ true)
and_parts true b h = (refl, h)
and_parts false b h = cc

or_parts : (a b : Bool) → (a || b) ≡ true → (a ≡ true) ⊎ (b ≡ true)
or_parts true b h = inl refl
or_parts false b h = inr h

or_true : (a b : Bool) → b ≡ true → (a || b) ≡ true
or_true true b h = refl
or_true false b h = h

true≢false : true ≡ false → ⊥
true≢false h = cc

module _ (fl : Floats) (repr : Value fl.Float → String) (summary : Fields fl.Float)
    (rows : List (Fields fl.Float)) (status : String) where
  -- The metric of a criterion was sampled.
  abbrev pub is_known : Criterion fl repr → Bool
  is_known c = is_metric_known fl repr c.metric (look_up c.metric summary) rows status

  -- The metric and the threshold of a criterion are numbers, and comparing them gives `b`.
  pub record IsCompared (c : Criterion fl repr) (b : Bool) : Type 0 where
    pub actual : fl.Float
    pub expected : fl.Float
    pub actual_at : as_float fl (look_up c.metric summary) ≡ some actual
    pub expected_at : as_float fl c.expected ≡ some expected
    pub fit : (converts fl (look_up c.metric summary) && converts fl c.expected) ≡ true
    pub compared : compare fl repr actual c.op expected ≡ ok b

  -- A criterion has the verdict `verdict_of b`: an availability gate tells whether its metric was
  -- sampled, any other criterion compares a sampled metric with its threshold.
  abbrev pub Settles : Bool → Criterion fl repr → Type 0
  Settles b c =
      ((is_text c.op "available" ≡ true) × (is_known c ≡ b))
      ⊎ ((is_text c.op "available" ≡ false) × (is_known c ≡ true) × IsCompared c b)

  judge_of :
      (c : Criterion fl repr) (b : Bool) (x y : Option fl.Float)
      → as_float fl (look_up c.metric summary) ≡ x
      → as_float fl c.expected ≡ y
      → judge fl repr (converts fl (look_up c.metric summary) && converts fl c.expected) x c.op y
        ≡ ok (verdict_of b)
      → IsCompared c b
  judge_of c b (some a) (some e) p q h =
      let (fit, h0) = guard-bind _ _ _ h in
      let (v, compared, h1) = >>=-eq-ok (compare fl repr a c.op e) _ h0 in
      record {
        actual = a;
        expected = e;
        actual_at = p;
        expected_at = q;
        fit = fit;
        compared = compared ∙ ap ok (verdict_unique v b (ok_unique refl h1));
      }
  judge_of c true (some a) none p q h = cc
  judge_of c false (some a) none p q h = cc
  judge_of c true none y p q h = cc
  judge_of c false none y p q h = cc

  abbrev pub result_of : Criterion fl repr → Outcome Verdict
  result_of c =
      criterion_result fl repr c.metric (look_up c.metric summary) c.op c.expected rows status

  result-Settles :
      (c : Criterion fl repr) (b : Bool) → result_of c ≡ ok (verdict_of b) → Settles b c
  unfolding criterion_result
  result-Settles c b h = elim (branch_settles (is_text c.op "available") (is_known c) b _ h) [
    | inl gate ↦ inl gate
    | inr (plain, known, settled) ↦ inr (plain, known, judge_of c b _ _ refl refl settled)
  ]

  Settles-result :
      (c : Criterion fl repr) (b : Bool) → Settles b c → result_of c ≡ ok (verdict_of b)
  unfolding criterion_result
  Settles-result c b (inl (gate, known)) = rw (gate, known) refl
  Settles-result c b (inr (plain, known, m)) =
      rw (plain, known, m.fit, m.actual_at, m.expected_at, m.compared) refl

  -- `P` holds of a criterion of the list.
  abbrev pub Somewhere : (Criterion fl repr → Type 0) → List (Criterion fl repr) → Type 0
  Somewhere Q [] = ⊥
  Somewhere Q (c ∷ cs) = Q c ⊎ Somewhere Q cs

  -- One round of the loop over the criteria.
  evaluate_step :
      (c : Criterion fl repr) (cs : List (Criterion fl repr)) (es : List (Evaluated fl repr))
      → evaluate_each fl repr (c ∷ cs) summary rows status ≡ ok es
      → (v : Verdict) × (rest : List (Evaluated fl repr)) × (result_of c ≡ ok v)
        × (evaluate_each fl repr cs summary rows status ≡ ok rest)
        × (results fl repr es ≡ v ∷ results fl repr rest)
  unfolding evaluate_each evaluate_criterion
  evaluate_step c cs es h =
      let (e, one, h1) = >>=-eq-ok (evaluate_criterion fl repr c summary rows status) _ h in
      let (rest, others, h2) = >>=-eq-ok (evaluate_each fl repr cs summary rows status) _ h1 in
      let (v, got, h3) = >>=-eq-ok (result_of c) _ one in
      (
        v,
        rest,
        got,
        others,
        ap (results fl repr) (ok_unique h2 refl)
            ∙ ap (λ x. x.result ∷ results fl repr rest) (ok_unique h3 refl),
      )

  passes :
      (c : Criterion fl repr) (v : Verdict)
      → result_of c ≡ ok v
      → (is_pass v ≡ true) ↔ Settles true c
  passes c v got = (
    λ p. result-Settles c true (got ∙ ap ok (is_pass_unique v p)),
    λ p. ap is_pass (ok_unique got (Settles-result c true p)),
  )

  fails :
      (c : Criterion fl repr) (v : Verdict)
      → result_of c ≡ ok v
      → (is_fail v ≡ true) ↔ Settles false c
  fails c v got = (
    λ p. result-Settles c false (got ∙ ap ok (is_fail_unique v p)),
    λ p. ap is_fail (ok_unique got (Settles-result c false p)),
  )

  each_pass :
      (cs : List (Criterion fl repr)) (es : List (Evaluated fl repr))
      → evaluate_each fl repr cs summary rows status ≡ ok es
      → (all is_pass (results fl repr es) ≡ true) ↔ All (Settles true) cs
  unfolding evaluate_each
  each_pass [] es h = (λ p. tt, λ p. ap (λ xs. all is_pass (results fl repr xs)) (ok_unique h refl))
  each_pass (c ∷ cs) es h =
      let (v, rest, got, others, same) = evaluate_step c cs es h in
      let (to, from) = each_pass cs rest others in
      let (one, own) = passes c v got in
      (
        λ p. let (a, b) = and_parts _ _ (ap (all is_pass) (sym same) ∙ p) in (one a, to b),
        λ p. ap (all is_pass) same ∙ rw (own p.0, from p.1) refl,
      )

  each_fail :
      (cs : List (Criterion fl repr)) (es : List (Evaluated fl repr))
      → evaluate_each fl repr cs summary rows status ≡ ok es
      → (any is_fail (results fl repr es) ≡ true) ↔ Somewhere (Settles false) cs
  unfolding evaluate_each
  each_fail [] es h = (
    λ p.
        absurd
          (true≢false (sym p ∙ ap (λ xs. any is_fail (results fl repr xs)) (ok_unique h refl))),
    absurd,
  )
  each_fail (c ∷ cs) es h =
      let (v, rest, got, others, same) = evaluate_step c cs es h in
      let (to, from) = each_fail cs rest others in
      let (one, own) = fails c v got in
      (
        λ p. elim (or_parts _ _ (ap (any is_fail) (sym same) ∙ p)) [
          | inl a ↦ inl (one a)
          | inr b ↦ inr (to b)
        ],
        λ p.
            ap (any is_fail) same
            ∙ elim p [ inl a ↦ rw (own a) refl | inr b ↦ or_true (is_fail v) _ (from b) ],
      )

  same_empty :
      (cs : List (Criterion fl repr)) (es : List (Evaluated fl repr))
      → evaluate_each fl repr cs summary rows status ≡ ok es
      → is_empty (results fl repr es) ≡ is_empty cs
  unfolding evaluate_each
  same_empty [] es h = ap (λ xs. is_empty (results fl repr xs)) (ok_unique h refl)
  same_empty (c ∷ cs) es h = ap is_empty (evaluate_step c cs es h).4

  -- A report's criteria are those of the run config, each evaluated.
  report_parts :
      (run_config : Fields fl.Float) (r : Report fl repr) (cs : List (Criterion fl repr))
      → criteria_from_run_config fl repr run_config ≡ ok cs
      → evaluate_report fl repr run_config summary rows status ≡ ok r
      → (evaluate_each fl repr cs summary rows status ≡ ok r.criteria)
        × (r.overall ≡ overall_result (results fl repr r.criteria))
  unfolding evaluate_report
  report_parts run_config r cs asked h =
      let (cs', e, h1) = >>=-eq-ok (criteria_from_run_config fl repr run_config) _ h in
      let (es, e1, h2) = >>=-eq-ok (evaluate_each fl repr cs' summary rows status) _ h1 in
      let same = ok_unique refl h2 in
      (
        ap (λ x. evaluate_each fl repr x summary rows status) (ok_unique asked e)
            ∙ e1
            ∙ ap (λ x. ok x.criteria) same,
        sym (ap (λ x. x.overall) same) ∙ ap (λ x. overall_result (results fl repr x.criteria)) same,
      )

  -- A report passes just when its run config asks for at least one criterion and every one of them
  -- is met: the metric was sampled and, unless only that is asked, it is a number that compares with
  -- the threshold as the operator says.
  pub evaluate_report_pass :
      (run_config : Fields fl.Float) (r : Report fl repr) (cs : List (Criterion fl repr))
      → criteria_from_run_config fl repr run_config ≡ ok cs
      → evaluate_report fl repr run_config summary rows status ≡ ok r
      → (r.overall ≡ pass) ↔ ((is_empty cs ≡ false) × All (Settles true) cs)
  evaluate_report_pass run_config r cs asked h =
      let (each, overall) = report_parts run_config r cs asked h in
      let empty = same_empty cs r.criteria each in
      let (to, from) = each_pass cs r.criteria each in
      let (over, back) = overall_result-pass (results fl repr r.criteria) in
      (
        λ p.
            let (some_there, all_pass) = over (sym overall ∙ p) in
            (sym empty ∙ some_there, to all_pass),
        λ p. overall ∙ back (empty ∙ p.0, from p.1),
      )

  -- A report fails just when some criterion of its run config is decided against: a wanted metric was
  -- not sampled, or a sampled number does not compare with the threshold as the operator says.
  pub evaluate_report_fail :
      (run_config : Fields fl.Float) (r : Report fl repr) (cs : List (Criterion fl repr))
      → criteria_from_run_config fl repr run_config ≡ ok cs
      → evaluate_report fl repr run_config summary rows status ≡ ok r
      → (r.overall ≡ fail) ↔ Somewhere (Settles false) cs
  evaluate_report_fail run_config r cs asked h =
      let (each, overall) = report_parts run_config r cs asked h in
      let (to, from) = each_fail cs r.criteria each in
      let (over, back) = overall_result-fail (results fl repr r.criteria) in
      (λ p. to (over (sym overall ∙ p)), λ p. overall ∙ back (from p))
