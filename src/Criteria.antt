-- ===== src/Criteria.antt =====
-- metrics/criteria.py: which criteria a run config asks for, and what a report says of them. A
-- criterion keeps the four keys that are read after `_normalize_criterion`.
pub mod Verdicts
pub mod Runs
use closed_loop_bench.Base.{
  String, Bool, true, false, ◌==◌, ◌&&◌, ◌||◌, not, Option, none, some, List, [], ◌∷◌, any, all,
  is_empty, map, if◌then◌else◌,
}
use closed_loop_bench.Base.Outcome.{
  Outcome, ok, err, value_error, overflow_error, guard, ◌>>=◌, ◌>>◌,
}
use closed_loop_bench.Json.{
  Floats, Value, Items, nil, item, Fields, end, field, null, bool, int, float, str, arr, obj, pos,
  find, get, is_text, is_null, is_number, is_bool, is_obj, truthy, as_float, converts, text_of,
}

pub data Verdict : Type 0 where
  pass fail unknown : Verdict

abbrev pub is_pass : Verdict → Bool
is_pass pass = true
is_pass _ = false

abbrev pub is_fail : Verdict → Bool
is_fail fail = true
is_fail _ = false

-- `d.get(k)` of a dict
abbrev pub look_up : {F : Type 0} → String → Fields F → Value F
look_up k fs = elim (find k fs) [ none ↦ null | some v ↦ v ]

-- `d.setdefault(k, v)`, as far as reading `d[k]` goes
abbrev pub or_default : {F : Type 0} → String → Value F → Fields F → Value F
or_default k v fs = elim (find k fs) [ none ↦ v | some w ↦ w ]

abbrev pub default_operator : String → String
default_operator metric = if metric == "collision_count" then "==" else ">="

abbrev pub verdict_of : Bool → Verdict
verdict_of true = pass
verdict_of false = fail

abbrev pub unknown_reason : String → String → String
unknown_reason metric status =
    if status == "not_run" && not (metric == "collision_count")
    then "run has not produced metric samples"
    else "metric is missing or not sampled"

abbrev pub reason_of : Verdict → String → String → Option String
reason_of unknown metric status = some (unknown_reason metric status)
reason_of _ metric status = none

unfoldable pub overall_result : List Verdict → Verdict
overall_result rs =
    if any is_fail rs then fail else if not (is_empty rs) && all is_pass rs then pass else unknown

module _ (fl : Floats) (repr : Value fl.Float → String) where
  abbrev pub Dict : Type 0
  Dict = Fields fl.Float

  abbrev pub Data : Type 0
  Data = Value fl.Float

  pub record Criterion : Type 0 where
    pub name : Data
    pub metric : String
    pub op : Data
    pub expected : Data

  pub record Evaluated : Type 0 where
    pub criterion : Criterion
    pub actual : Data
    pub result : Verdict
    pub reason : Option String

  abbrev threshold : String → String → Data → Criterion
  threshold metric op expected = record {
    name = str metric;
    metric = metric;
    op = str op;
    expected = expected;
  }

  abbrev pub default_criteria : List Criterion
  default_criteria =
      threshold "collision_count" "==" (int (pos 0))
      ∷ threshold "route_progress" ">=" (float (fl.literal 95 2))
      ∷ threshold "min_ttc" ">=" (float (fl.literal 10 1))
      ∷ []

  -- `a or b`
  abbrev pub or_else : Data → Data → Data
  or_else a b = if truthy fl a then a else b

  -- The value that a criterion compares with: an availability gate needs none.
  abbrev pub threshold_of : Data → Dict → Outcome Data
  threshold_of op fs =
      if is_text op "available"
      then ok (or_default "value" (bool true) fs)
      else elim (find "value" fs) [
        | none ↦ err (value_error "evaluation criterion requires a value")
        | some v ↦ ok v
      ]

  abbrev pub normalize_fields : Dict → Outcome Criterion
  normalize_fields fs =
      let named = or_else (look_up "metric" fs) (look_up "name" fs) in
      let metric = text_of repr named in
      let op = or_default "op" (str (default_operator metric)) fs in
      if truthy fl named
      then (do
        v ← threshold_of op fs
        ok (record {
          name = or_default "name" (str metric) fs;
          metric = metric;
          op = op;
          expected = v;
        }))
      else err (value_error "evaluation criterion requires a metric")

  unfoldable pub normalize_criterion : Data → Outcome Criterion
  normalize_criterion (obj fs) = normalize_fields fs
  normalize_criterion _ = err (value_error "each evaluation criterion must be a mapping")

  unfoldable pub normalize_each : Items fl.Float → Outcome (List Criterion)
  normalize_each nil = ok []
  normalize_each (item v vs) = do c ← normalize_criterion v; cs ← normalize_each vs; ok (c ∷ cs)

  -- `{"metric": metric, **config}`, or a threshold alone
  abbrev pub with_metric : String → Data → Data
  with_metric metric (obj config) = elim (find "metric" config) [
    | none ↦ obj (field "metric" (str metric) config)
    | some v ↦ obj config
  ]
  with_metric metric config = obj (field "metric" (str metric) (field "value" config end))

  unfoldable pub criteria_from_mapping : Dict → Outcome (List Criterion)
  criteria_from_mapping end = ok []
  criteria_from_mapping (field metric config rest) = do
    c ← normalize_criterion (with_metric metric config)
    cs ← criteria_from_mapping rest
    ok (c ∷ cs)

  abbrev pub criteria_of_metrics : Data → Data
  criteria_of_metrics (obj fs) = or_else (look_up "criteria" fs) (look_up "thresholds" fs)
  criteria_of_metrics _ = null

  abbrev own_criteria : Data → Data
  own_criteria (obj fs) = look_up "criteria" fs
  own_criteria _ = null

  -- The value of `criteria` before it is told apart; an empty section is `{}`.
  abbrev pub configured : Dict → Data
  configured run_config =
      let config = or_else (look_up "evaluation" run_config) (obj end) in
      let own = own_criteria config in
      if is_null own then criteria_of_metrics (look_up "metrics" run_config) else own

  abbrev pub criteria_of : Data → Outcome (List Criterion)
  criteria_of null = ok default_criteria
  criteria_of (obj fs) = criteria_from_mapping fs
  criteria_of (arr vs) = normalize_each vs
  criteria_of _ = err (value_error "evaluation criteria must be a list or mapping")

  unfoldable pub criteria_from_run_config : Dict → Outcome (List Criterion)
  criteria_from_run_config run_config = criteria_of (configured run_config)

  abbrev pub has_number : String → Dict → Bool
  has_number k row = is_number (look_up k row)

  unfoldable pub is_metric_known : String → Data → List Dict → String → Bool
  is_metric_known metric actual rows status =
      if is_null actual
      then false
      else if metric == "route_progress"
      then any (has_number "route_progress") rows
      else if metric == "min_ttc"
      then any (λ row. has_number "min_ttc" row || has_number "ttc" row) rows
      else if metric == "collision_count" && not (is_empty rows)
      then any (λ row. is_bool (look_up "collision" row) || has_number "collision_count" row) rows
      else not (status == "not_run" && not (metric == "collision_count"))

  unfoldable pub compare : fl.Float → Data → fl.Float → Outcome Bool
  compare actual op expected =
      if is_text op "=="
      then ok (fl.eq_float actual expected)
      else if is_text op "!="
      then ok (not (fl.eq_float actual expected))
      else if is_text op ">="
      then ok (fl.le_float expected actual)
      else if is_text op ">"
      then ok (fl.lt_float expected actual)
      else if is_text op "<="
      then ok (fl.le_float actual expected)
      else if is_text op "<"
      then ok (fl.lt_float actual expected)
      else err (value_error "unknown evaluation criterion operator")

  -- Two numbers are compared, where both convert to floats; anything else stays open.
  abbrev pub judge : Bool → Option fl.Float → Data → Option fl.Float → Outcome Verdict
  judge fit (some a) op (some e) =
      guard fit overflow_error >> (compare a op e >>= λ b. ok (verdict_of b))
  judge fit _ op _ = ok unknown

  unfoldable pub criterion_result :
      String → Data → Data → Data → List Dict → String → Outcome Verdict
  criterion_result metric actual op expected rows status =
      if is_text op "available"
      then ok (verdict_of (is_metric_known metric actual rows status))
      else if is_metric_known metric actual rows status
      then judge (converts fl actual && converts fl expected) (as_float fl actual) op
          (as_float fl expected)
      else ok unknown

  unfoldable pub evaluate_criterion : Criterion → Dict → List Dict → String → Outcome Evaluated
  evaluate_criterion c summary rows status = do
    let actual = look_up c.metric summary
    result ← criterion_result c.metric actual c.op c.expected rows status
    ok (record {
      criterion = c;
      actual = actual;
      result = result;
      reason = reason_of result c.metric status;
    })

  unfoldable pub evaluate_each :
      List Criterion → Dict → List Dict → String → Outcome (List Evaluated)
  evaluate_each [] summary rows status = ok []
  evaluate_each (c ∷ cs) summary rows status = do
    e ← evaluate_criterion c summary rows status
    es ← evaluate_each cs summary rows status
    ok (e ∷ es)

  abbrev pub results : List Evaluated → List Verdict
  results es = map (λ e. e.result) es

  pub record Report : Type 0 where
    pub overall : Verdict
    pub criteria : List Evaluated

  unfoldable pub evaluate_report : Dict → Dict → List Dict → String → Outcome Report
  evaluate_report run_config summary rows status = do
    cs ← criteria_from_run_config run_config
    es ← evaluate_each cs summary rows status
    ok (record { overall = overall_result (results es); criteria = es })
