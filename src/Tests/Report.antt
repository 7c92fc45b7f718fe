-- ===== src/Tests/Report.antt =====
-- The report of a short run, and blocks of raised flags.
use closed_loop_bench.Base.{
  insert, sorted_by, ℕ, String, Bool, true, false, List, [], ◌∷◌, none, some, ◌≡◌, refl, ap, arith,
}
use mathlib.Core.Path.{transport}
use closed_loop_bench.Base.Outcome.{Outcome, ok, err}
use closed_loop_bench.Json.{
  ℤ, pos, negsuc, eq_ℤ, Value, Fields, null, bool, int, str, obj, end, field,
}
use closed_loop_bench.Exchange.Job.{leb_ℤ}
use closed_loop_bench.Criteria.{
  evaluate_report, evaluate_each, evaluate_criterion, criterion_result, compare, overall_result,
  criteria_from_run_config, is_metric_known,
}
use closed_loop_bench.Plugin.Checks.{put_field}
use closed_loop_bench.Report.Numbers.{
  values_of, first_of, min_from, max_from, percentile_of, nth, sync_values, distances,
  finite_values, jerk_values, explicit_jerks, derived_jerks,
}
use closed_loop_bench.Report.Events.{
  collision_count, hard_brake_count, count_events, count_boolean_or_numeric, sum_counts,
  sensor_dropped_frame_count, dropped_total, dropped_in, nothing_counted,
}
use closed_loop_bench.Report.Events.Blocks.{count_events_blocks}
use closed_loop_bench.Report.Durations.{durations, route_completion_time, completion_from, speeds}
use closed_loop_bench.Report.Actors.{
  outcomes_of, tell_outcomes, tell_decisions, tally, metric_availability,
}
use closed_loop_bench.Report.Build.{ClosedLoopReport, build_closed_loop_report, measure}
use closed_loop_bench.Report.Build.Extremes.{IsComparable, some_unique}
use closed_loop_bench.Report.Build.Passed.{IsSafeRun, build_closed_loop_report-IsSafeRun}
use closed_loop_bench.Report.Collector.{Tick, build_tick_row, float_distances, add_tick, collect}
use closed_loop_bench.Report.Collector.Collected.{IsSafeDrive, collect-IsSafeDrive}
use closed_loop_bench.Tests.Sample.{floats}

abbrev pub repr : Value ℤ → String
repr v = "{}"

abbrev row : ℕ → Bool → ℕ → ℕ → Fields ℤ
row t collision ttc progress = field "t_sec" (int (pos t)) (
    field "collision" (bool collision)
      (field "ttc" (int (pos ttc)) (field "route_progress" (int (pos progress)) end)))

abbrev calm : List (Fields ℤ)
calm = row 0 false 30 0 ∷ row 1 false 12 96 ∷ []

abbrev config : Fields ℤ
config = field "scenario_id" (str "s1") end

unfoldable report : List (Fields ℤ) → Outcome (ClosedLoopReport floats repr)
unfolding evaluate_report evaluate_each evaluate_criterion criterion_result compare overall_result
    criteria_from_run_config is_metric_known put_field values_of first_of min_from max_from
    percentile_of sorted_by insert nth sync_values distances finite_values jerk_values
    explicit_jerks derived_jerks collision_count hard_brake_count count_events
    count_boolean_or_numeric sum_counts sensor_dropped_frame_count dropped_total dropped_in
    durations route_completion_time completion_from speeds outcomes_of tell_outcomes tell_decisions
    tally metric_availability build_closed_loop_report measure
report rows = build_closed_loop_report floats repr config rows "completed"

leb_ℤ-trans : (x y z : ℤ) → leb_ℤ x y ≡ true → leb_ℤ y z ≡ true → leb_ℤ x z ≡ true
leb_ℤ-trans x y z h k = ground arith

leb_ℤ-refl : (x : ℤ) → eq_ℤ x x ≡ true → leb_ℤ x x ≡ true
leb_ℤ-refl x h = ground arith

leb_ℤ-total : (x y : ℤ) → eq_ℤ x x ≡ true → eq_ℤ y y ≡ true → leb_ℤ x y ≡ false → leb_ℤ y x ≡ true
leb_ℤ-total x y p q h = ground arith

eq_ℤ-zero : (n : ℤ) → eq_ℤ n (pos 0) ≡ true → n ≡ pos 0
eq_ℤ-zero (pos n) h = ap pos (ground arith)
eq_ℤ-zero (negsuc n) h = cc

comparable : IsComparable floats
comparable = record {
  lt_not_le = λ x y ox oy. refl;
  le_refl = leb_ℤ-refl;
  le_total = leb_ℤ-total;
  le_trans = leb_ℤ-trans;
}

pub false_is_true : false ≡ true → ⊥
false_is_true h = ground arith

abbrev pub has_result : {A : Type 0} → Outcome A → Bool
has_result (ok a) = true
has_result (err e) = false

abbrev pub result_of : {A : Type 0} → (r : Outcome A) → has_result r ≡ true → A
result_of (ok a) h = a
result_of (err e) h = absurd (false_is_true h)

abbrev calm_report : ClosedLoopReport floats repr
unfolding report
calm_report = result_of (report calm) refl

-- A collision of three rows, and another one.
abbrev bumpy : List (Fields ℤ)
bumpy =
    row 0 true 30 0 ∷ row 1 true 12 96 ∷ row 2 true 9 96 ∷ row 3 false 9 96 ∷ row 4 true 9 96 ∷ []

two_collisions : collision_count floats bumpy ≡ ok (int (pos 2))
unfolding report
two_collisions = refl

count_events_blocks_example :
    count_events floats "collision" "collision_count" bumpy (nothing_counted floats) ≡ ok (pos 2)
count_events_blocks_example =
    count_events_blocks floats "collision" "collision_count" bumpy
      (refl, (refl, (refl, (refl, (refl, tt)))))

told : {A : Type 0} {a b : A} (Q : A → Type 0) → Q a → some a ≡ some b → Q b
told Q q h = transport (ap Q (some_unique h)) q

build_closed_loop_report-IsSafeRun_example : IsSafeRun floats repr calm
unfolding report
build_closed_loop_report-IsSafeRun_example =
    build_closed_loop_report-IsSafeRun floats repr config calm "completed" calm_report comparable
      eq_ℤ-zero refl refl refl (refl, (refl, tt))
      (λ v h. told (λ x. eq_ℤ x x ≡ true) refl h, (λ v h. told (λ x. eq_ℤ x x ≡ true) refl h, tt))

-- A run that is collected tick by tick.
abbrev tick_at : ℕ → Value ℤ → ℕ → Tick floats
tick_at t ttc progress = record {
  t_sec = int (pos t);
  ego_pose = obj end;
  ego_speed_mps = int (pos 5);
  ego_control = obj end;
  actor_distances_m = field "lead" (int (pos 9)) end;
  ttc = ttc;
  collision = bool false;
  route_progress = int (pos progress);
  hard_brake = bool false;
  jerk = null;
  longitudinal_acceleration_mps2 = null;
  actor_decisions = null;
  actor_control_evidence = null;
  following = null;
  post_encroachment_time_sec = null;
  drac_mps2 = null;
  control_latency_ms = null;
  control_timeout = null;
  control_fallback = null;
  actor_outcomes = null;
  sensor_dropped_frames = null;
  synchronization_error_ms = null;
}

abbrev ticks : List (Tick floats)
ticks = tick_at 0 null 0 ∷ tick_at 1 (int (pos 12)) 96 ∷ []

unfoldable gathered : List (Tick floats) → Outcome (List (Fields ℤ))
unfolding collect add_tick build_tick_row float_distances
gathered run = collect floats run []

abbrev gathered_rows : List (Fields ℤ)
unfolding gathered
gathered_rows = result_of (gathered ticks) refl

abbrev gathered_report : ClosedLoopReport floats repr
unfolding report gathered
gathered_report = result_of (report gathered_rows) refl

none_is_some : {x : ℤ} → none ≡ some x → ⊥
none_is_some h = ground arith

collect-IsSafeDrive_example : IsSafeDrive floats ticks
unfolding report gathered
collect-IsSafeDrive_example =
    collect-IsSafeDrive floats repr ticks config gathered_rows "completed" gathered_report
      comparable eq_ℤ-zero
      (λ v h. absurd (none_is_some h), (λ v h. told (λ x. eq_ℤ x x ≡ true) refl h, tt)) refl refl
      refl refl
