-- ===== src/Matrix/Coverage.antt =====
-- `evaluate_experiment_coverage` and `_report_reasons`.
pub mod Grouped
pub mod Entries
pub mod Ready
use closed_loop_bench.Base.{
  ℕ, suc, String, ◌<>◌, Bool, true, false, ◌==◌, ◌&&◌, ◌||◌, not, eqb, ltb, List, [], ◌∷◌, ◌++◌,
  map, keep, any, length, is_empty, Option, none, some, if◌then◌else◌,
}
use closed_loop_bench.Base.Outcome.{Outcome, ok, err, Error, matrix_error, guard, ◌>>=◌, ◌>>◌}
use closed_loop_bench.Json.{Floats, Value, get, at, is_text, is_null}
use closed_loop_bench.Matrix.Keys.{
  Key, scalars, is_among, same_key, run_key_from_report, section_or_empty,
}
use closed_loop_bench.Matrix.Groups.{lookup, put, add, rows_or_none, rows_at}

abbrev pub plan_schema : String
plan_schema = "closed_loop_experiment_plan.v0"

abbrev pub success_statuses : List String
success_statuses = "completed" ∷ "ego_closed_loop" ∷ "interactive_closed_loop" ∷ []

abbrev pub required_summary : List String
required_summary =
    "collision_count" ∷ "min_ttc" ∷ "route_progress" ∷ "hard_brake_count" ∷ "max_jerk" ∷ []

module _ (fl : Floats) where
  abbrev pub Data : Type 0
  Data = Value fl.Float

  -- A planned run; its key as Python compares it.
  pub record Run : Type 0 where
    pub key : List Data
    pub request : Data

  pub record Plan : Type 0 where
    pub schema_version : String
    pub runs : List Run

  pub record Invalid : Type 0 where
    pub key : Key fl.Float
    pub reasons : List String

  pub record Coverage : Type 0 where
    pub expected_run_count : ℕ
    pub observed_report_count : ℕ
    pub matched_run_count : ℕ
    pub coverage_ratio : fl.Float
    pub ready_for_comparison : Bool
    pub missing : List (Key fl.Float)
    pub unexpected : List (Key fl.Float)
    pub duplicates : List (Key fl.Float)
    pub malformed : List ℕ
    pub invalid_runs : List Invalid

  abbrev pub when : Bool → String → List String
  when test reason = if test then reason ∷ [] else []

  unfoldable pub summary_reasons : Data → List String → Outcome (List String)
  summary_reasons summary [] = ok []
  summary_reasons summary (metric ∷ metrics) = do
    v ← get metric summary
    rest ← summary_reasons summary metrics
    ok (when (is_null v) ("required summary metric is unknown: " <> metric) ++ rest)

  unfoldable pub report_reasons : Data → Data → Outcome (List String)
  report_reasons request report = do
    status ← get "status" report
    successful ← is_among status success_statuses
    payload ← at "payload" request
    actor_control ← at "actor_control" payload
    mode ← at "mode" actor_control
    interactive ← is_among mode ("scripted" ∷ "traffic_manager" ∷ "mixed" ∷ [])
    summary ← get "summary" report
    unknown ← summary_reasons (section_or_empty fl summary) required_summary
    evaluation ← get "evaluation" report
    overall ← get "overall_result" (section_or_empty fl evaluation)
    decided ← is_among overall ("pass" ∷ "fail" ∷ [])
    ok (
        when (not successful) "runtime status is not successful"
        ++ (when (interactive && not (is_text status "interactive_closed_loop"))
              "interactive actor mode lacks interactive_closed_loop evidence"
            ++ (unknown ++ when (not decided) "overall_result is unknown")))

  abbrev pub Expected : Type 0
  Expected = List (Key fl.Float × Run)

  abbrev pub Observed : Type 0
  Observed = List (Key fl.Float × List Data)

  -- `{tuple(run["key"]): run for run in plan["runs"]}`
  unfoldable pub expect : Expected → List Run → Outcome Expected
  expect d [] = ok d
  expect d (run ∷ runs) = do key ← scalars run.key; expect (put (same_key fl) key run d) runs

  -- One report: its key, or that it is malformed.
  abbrev pub tell_malformed : Outcome (List Data) → Outcome (Option (List Data))
  tell_malformed (ok key) = ok (some key)
  tell_malformed (err (matrix_error text)) = ok none
  tell_malformed (err e) = err e

  pub record Seen : Type 0 where
    pub observed : Observed
    pub malformed : List ℕ

  abbrev pub see : ℕ → Data → Seen → Option (List Data) → Outcome Seen
  see index report seen none = ok (record seen { malformed = seen.malformed ++ (index ∷ []) })
  see index report seen (some values) = do
    key ← scalars values
    ok (record seen { observed = add (same_key fl) key report seen.observed })

  unfoldable pub observe : ℕ → Seen → List Data → Outcome Seen
  observe index seen [] = ok seen
  observe index seen (report ∷ reports) = do
    key ← tell_malformed (run_key_from_report fl report)
    seen' ← see index report seen key
    observe (suc index) seen' reports

  abbrev pub invalid_entry : Key fl.Float → List String → List Invalid
  invalid_entry key [] = []
  invalid_entry key (reason ∷ reasons) = record { key = key; reasons = reason ∷ reasons } ∷ []

  -- The entry of an expected key: only one that has exactly one report is looked at.
  abbrev pub invalid_with : Key fl.Float → Run → List Data → Outcome (List Invalid)
  invalid_with key run (report ∷ []) = do
    reasons ← report_reasons run.request report
    ok (invalid_entry key reasons)
  invalid_with key run rows = ok []

  unfoldable pub invalid_runs : Expected → Observed → Outcome (List Invalid)
  invalid_runs [] observed = ok []
  invalid_runs ((key, run) ∷ expected) observed = do
    entry ← invalid_with key run (rows_at (same_key fl) key observed)
    rest ← invalid_runs expected observed
    ok (entry ++ rest)

  abbrev pub has : {X : Type 0} → Key fl.Float → List (Key fl.Float × X) → Bool
  has key d = elim (lookup (same_key fl) key d) [ none ↦ false | some x ↦ true ]

  abbrev pub keys : {X : Type 0} → List (Key fl.Float × X) → List (Key fl.Float)
  keys d = map (λ e. e.0) d

  abbrev pub matched : Observed → List (Key fl.Float) → ℕ
  matched observed ks = length (keep (λ k. eqb (length (rows_at (same_key fl) k observed)) 1) ks)

  abbrev pub coverage_of : ℕ → Expected → Seen → List Invalid → Coverage
  coverage_of count expected seen invalid =
      let missing = keep (λ k. not (has k seen.observed)) (keys expected) in
      let unexpected = keep (λ k. not (has k expected)) (keys seen.observed) in
      let duplicates = keys (keep (λ e. ltb 1 (length e.1)) seen.observed) in
      let total = length expected in
      let count_matched = matched seen.observed (keys expected) in
      record {
        expected_run_count = total;
        observed_report_count = count;
        matched_run_count = count_matched;
        coverage_ratio = if eqb total 0 then fl.literal 0 1 else fl.ratio count_matched total;
        ready_for_comparison =
            is_empty missing
            && is_empty unexpected
            && is_empty duplicates
            && is_empty seen.malformed
            && is_empty invalid;
        missing = missing;
        unexpected = unexpected;
        duplicates = duplicates;
        malformed = seen.malformed;
        invalid_runs = invalid;
      }

  unfoldable pub evaluate_coverage : Plan → List Data → Outcome Coverage
  evaluate_coverage plan reports = do
    guard (plan.schema_version == plan_schema) (matrix_error "unsupported experiment plan schema")
    expected ← expect [] plan.runs
    seen ← observe 0 (record { observed = []; malformed = [] }) reports
    invalid ← invalid_runs expected seen.observed
    ok (coverage_of (length reports) expected seen invalid)
