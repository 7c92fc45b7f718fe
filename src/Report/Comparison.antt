-- ===== src/Report/Comparison.antt =====
-- metrics/comparison.py: the reports of several algorithms side by side.
pub mod Totals
pub mod Counted
use closed_loop_bench.Base.{
  ℕ, zero, suc, ◌+◌, String, Bool, true, false, not, ◌==◌, List, [], ◌∷◌, length, any, map, Option,
  none, some, sorted_by, lt_text, if◌then◌else◌,
}
use closed_loop_bench.Base.Outcome.{Outcome, ok, err, type_error, ◌>>=◌}
use closed_loop_bench.Json.{
  ℤ, pos, eq_ℤ, Floats, Value, Fields, end, null, bool, int, str, obj, get, is_null, as_float,
  truthy, of_bool, text_of,
}
use closed_loop_bench.Exchange.Job.{leb_ℤ}
use closed_loop_bench.Criteria.{look_up, or_default}
use closed_loop_bench.Matrix.Groups.{add}
use closed_loop_bench.Report.Numbers.{Data, Row, push}
use closed_loop_bench.Report.Durations.{mean}

-- `set(xs)`: each value once
module _ {A : Type 0} (same : A → A → Bool) where
  unfoldable pub distinct : List A → List A
  distinct [] = []
  distinct (x ∷ xs) = let rest = distinct xs in if any (λ y. same y x) rest then rest else x ∷ rest

abbrev lt_int : ℤ → ℤ → Bool
lt_int m n = not (leb_ℤ n m)

abbrev pub same_text : String → String → Bool
same_text s t = s == t

-- `sorted(set(texts))`
abbrev pub sorted_texts : List String → List String
sorted_texts texts = sorted_by lt_text (distinct same_text texts)

abbrev sorted_ints : List ℤ → List ℤ
sorted_ints ns = sorted_by lt_int (distinct eq_ℤ ns)

-- `texts.count(text)`
abbrev pub occurrences : String → List String → ℕ
occurrences text [] = 0
occurrences text (t ∷ texts) =
    let rest = occurrences text texts in if t == text then suc rest else rest

-- `{text: texts.count(text) for text in sorted(set(texts))}`
abbrev pub result_counts : List String → List (String × ℕ)
result_counts texts = map (λ text. (text, occurrences text texts)) (sorted_texts texts)

module _ (fl : Floats) (repr : Value fl.Float → String) where
  -- `report.get(key) or {}`, from which a key is then asked for
  abbrev dict_at : String → Row fl → Outcome (Fields fl.Float)
  dict_at key report =
      if truthy fl (look_up key report)
      then elim (look_up key report) [ obj fs ↦ ok fs | _ ↦ err type_error ]
      else ok end

  -- `[read(report) for report in reports]`
  unfoldable pub read_each : {A : Type 0} → (Row fl → Outcome A) → List (Row fl) → Outcome (List A)
  read_each read [] = ok []
  read_each read (report ∷ reports) = do
    a ← read report
    rest ← read_each read reports
    ok (a ∷ rest)

  abbrev pub reported_algorithm : Row fl → Outcome String
  reported_algorithm report = do
    experiment ← dict_at "experiment" report
    ok (text_of repr (or_default "algorithm_id" (str "unknown") experiment))

  abbrev pub result_of_report : Row fl → Outcome String
  result_of_report report = do
    evaluation ← dict_at "evaluation" report
    ok (text_of repr (or_default "overall_result" (str "unknown") evaluation))

  abbrev pub scenario_of : Row fl → Outcome String
  scenario_of report = ok (text_of repr (or_default "scenario_id" (str "unknown") report))

  abbrev pub reported_odd : Row fl → Outcome String
  reported_odd report = do
    experiment ← dict_at "experiment" report
    ok (text_of repr (or_default "odd_id" (str "default") experiment))

  abbrev pub version_of : Row fl → Outcome (Data fl)
  version_of report = do
    experiment ← dict_at "experiment" report
    ok (look_up "algorithm_version" experiment)

  abbrev pub seed_of : Row fl → Outcome (Data fl)
  seed_of report = do experiment ← dict_at "experiment" report; ok (look_up "seed" experiment)

  -- The versions that are not None, as texts
  abbrev versions : List (Data fl) → List String
  versions [] = []
  versions (v ∷ vs) = let rest = versions vs in if is_null v then rest else text_of repr v ∷ rest

  -- The seeds that are ints
  abbrev seeds_in : List (Data fl) → List ℤ
  seeds_in [] = []
  seeds_in (int n ∷ vs) = n ∷ seeds_in vs
  seeds_in (bool b ∷ vs) = of_bool b ∷ seeds_in vs
  seeds_in (_ ∷ vs) = seeds_in vs

  abbrev pub summary_metrics : List String
  summary_metrics =
      "collision_count" ∷ "min_ttc" ∷ "route_progress" ∷ "hard_brake_count" ∷ "max_jerk"
      ∷ "control_timeout_count" ∷ []

  abbrev numbers_in : List (Data fl) → List fl.Float
  numbers_in [] = []
  numbers_in (v ∷ vs) = push fl (as_float fl v) (numbers_in vs)

  -- `_mean` of a metric over the reports
  abbrev mean_of : List (Row fl) → String → Outcome (String × Data fl)
  mean_of reports metric = do
    values ← read_each (λ report. get metric (or_default "summary" (obj end) report)) reports
    ok (metric, mean fl (numbers_in values))

  unfoldable pub means_of : List (Row fl) → List String → Outcome (List (String × Data fl))
  means_of reports [] = ok []
  means_of reports (metric ∷ metrics) = do
    one ← mean_of reports metric
    rest ← means_of reports metrics
    ok (one ∷ rest)

  pub record Algorithm : Type 0 where
    pub runs : ℕ
    pub scenario_ids : List String
    pub odd_ids : List String
    pub algorithm_versions : List String
    pub seeds : List ℤ
    pub results : List (String × ℕ)
    pub means : List (String × Data fl)

  unfoldable pub summarize_algorithm : List (Row fl) → Outcome Algorithm
  summarize_algorithm reports = do
    results ← read_each result_of_report reports
    scenarios ← read_each scenario_of reports
    odds ← read_each reported_odd reports
    told ← read_each version_of reports
    seeds ← read_each seed_of reports
    means ← means_of reports summary_metrics
    ok (record {
      runs = length reports;
      scenario_ids = sorted_texts scenarios;
      odd_ids = sorted_texts odds;
      algorithm_versions = sorted_texts (versions told);
      seeds = sorted_ints (seeds_in seeds);
      results = result_counts results;
      means = means;
    })

  abbrev pub Groups : Type 0
  Groups = List (String × List (Row fl))

  -- `groups[algorithm_id].append(report)` for each report
  unfoldable pub group_reports : List (Row fl) → Groups → Outcome Groups
  group_reports [] groups = ok groups
  group_reports (report ∷ reports) groups = do
    algorithm ← reported_algorithm report
    group_reports reports (add same_text algorithm report groups)

  abbrev pub lt_group : String × List (Row fl) → String × List (Row fl) → Bool
  lt_group g h = lt_text g.0 h.0

  unfoldable pub summarize_each : Groups → Outcome (List (String × Algorithm))
  summarize_each [] = ok []
  summarize_each ((algorithm, reports) ∷ groups) = do
    one ← summarize_algorithm reports
    rest ← summarize_each groups
    ok ((algorithm, one) ∷ rest)

  pub record Comparison : Type 0 where
    pub run_count : ℕ
    pub algorithms : List (String × Algorithm)

  unfoldable pub compare_closed_loop_reports : List (Row fl) → Outcome Comparison
  compare_closed_loop_reports reports = do
    groups ← group_reports reports []
    algorithms ← summarize_each (sorted_by lt_group groups)
    ok (record { run_count = length reports; algorithms = algorithms })
