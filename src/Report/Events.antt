-- ===== src/Report/Events.antt =====
-- Counts over the rows: `_collision_count`, `_hard_brake_count`, `_count_boolean_or_numeric`,
-- `_rate` and `_sensor_dropped_frame_count`.

pub mod Blocks
use closed_loop_bench.Base.{
  ℕ, zero, suc, ◌+◌, ◌-◌, leb, String, Bool, true, false, not, ◌&&◌, ◌||◌, List, [], ◌∷◌, any,
  length, keep, Option, none, some, if◌then◌else◌,
}
use closed_loop_bench.Base.Outcome.{Outcome, ok, err, ◌>>=◌, ◌>>◌}
use closed_loop_bench.Json.{
  ℤ, pos, negsuc, Floats, Value, Fields, null, bool, int, float, is_number, is_bool, to_int,
  of_bool,
}
use closed_loop_bench.Criteria.{look_up}
use closed_loop_bench.Report.Numbers.{Data, Row, is_finite_at}

abbrev pub difference : ℕ → ℕ → ℤ
difference m n = if leb n m then pos (m - n) else negsuc (n - suc m)

abbrev pub add_ℤ : ℤ → ℤ → ℤ
add_ℤ (pos m) (pos n) = pos (m + n)
add_ℤ (pos m) (negsuc n) = difference m (suc n)
add_ℤ (negsuc m) (pos n) = difference n (suc m)
add_ℤ (negsuc m) (negsuc n) = negsuc (suc (m + n))

module _ (fl : Floats) where
  -- `count` and `in_event` of the loop
  pub record Counted : Type 0 where
    pub count : ℤ
    pub in_event : Bool

  -- A flag that is raised begins an event, unless one goes on.
  abbrev pub on_flag : Data fl → Counted → Counted
  on_flag (bool active) s = record {
    count = if active && not s.in_event then add_ℤ s.count (pos 1) else s.count;
    in_event = active;
  }
  on_flag _ s = record { count = s.count; in_event = false }

  -- One row: a count is added, a flag may begin an event.
  abbrev pub event_step : String → String → Row fl → Counted → Outcome Counted
  event_step flag counter row s =
      if is_number (look_up counter row)
      then (do
        n ← to_int fl (look_up counter row)
        ok (record { count = add_ℤ s.count n; in_event = false }))
      else ok (on_flag (look_up flag row) s)

  unfoldable pub count_events : String → String → List (Row fl) → Counted → Outcome ℤ
  count_events flag counter [] s = ok s.count
  count_events flag counter (row ∷ rows) s = do
    next ← event_step flag counter row s
    count_events flag counter rows next

  abbrev pub nothing_counted : Counted
  nothing_counted = record { count = pos 0; in_event = false }

  abbrev pub samples_event : String → String → Row fl → Bool
  samples_event flag counter row = is_bool (look_up flag row) || is_number (look_up counter row)

  -- None where no row samples it.
  unfoldable pub collision_count : List (Row fl) → Outcome (Data fl)
  collision_count rows =
      if any (samples_event "collision" "collision_count") rows
      then (count_events "collision" "collision_count" rows nothing_counted >>= λ n. ok (int n))
      else ok null

  unfoldable pub hard_brake_count : List (Row fl) → Outcome (Data fl)
  hard_brake_count rows =
      count_events "hard_brake" "hard_brake_count" rows nothing_counted >>= λ n. ok (int n)

  -- A bool, or a finite number
  abbrev pub samples_either : String → String → Row fl → Bool
  samples_either flag counter row = is_bool (look_up flag row) || is_finite_at fl counter row

  abbrev pub is_raised : Data fl → Bool
  is_raised (bool b) = b
  is_raised _ = false

  abbrev row_count : String → String → Row fl → Outcome ℤ
  row_count flag counter row =
      if is_finite_at fl counter row
      then to_int fl (look_up counter row)
      else ok (of_bool (is_raised (look_up flag row)))

  unfoldable pub sum_counts : String → String → List (Row fl) → Outcome ℤ
  sum_counts flag counter [] = ok (pos 0)
  sum_counts flag counter (row ∷ rows) = do
    n ← row_count flag counter row
    rest ← sum_counts flag counter rows
    ok (add_ℤ n rest)

  -- `_count_boolean_or_numeric`
  unfoldable pub count_boolean_or_numeric : String → String → List (Row fl) → Outcome (Data fl)
  count_boolean_or_numeric flag counter rows =
      if any (samples_either flag counter) rows
      then (sum_counts flag counter rows >>= λ n. ok (int n))
      else ok null

  abbrev samples_any : String → String → Row fl → Bool
  samples_any flag counter row = samples_either flag flag row || samples_either counter counter row

  -- `_rate` of a count, over the rows that sample it
  abbrev pub rate : Data fl → List (Row fl) → String → String → Data fl
  rate count rows flag counter =
      let samples = length (keep (samples_any flag counter) rows) in
      elim count [
        | int n ↦ elim samples [
          | zero ↦ null
          | suc k ↦ float (fl.div (fl.of_int n) (fl.of_int (pos (suc k))))
        ]
        | _ ↦ null
      ]

  abbrev dropped_at : String → Row fl → Outcome ℤ
  dropped_at k row = if is_finite_at fl k row then to_int fl (look_up k row) else ok (pos 0)

  abbrev pub dropped_keys : List String
  dropped_keys =
      "sensor_dropped_frames" ∷ "dropped_frame_count" ∷ "dropped_camera_frames"
      ∷ "dropped_lidar_frames" ∷ []

  unfoldable pub dropped_in : List String → Row fl → Outcome ℤ
  dropped_in [] row = ok (pos 0)
  dropped_in (k ∷ ks) row = do n ← dropped_at k row; rest ← dropped_in ks row; ok (add_ℤ n rest)

  unfoldable pub dropped_total : List (Row fl) → Outcome ℤ
  dropped_total [] = ok (pos 0)
  dropped_total (row ∷ rows) = do
    n ← dropped_in dropped_keys row
    rest ← dropped_total rows
    ok (add_ℤ n rest)

  -- `_sensor_dropped_frame_count`
  unfoldable pub sensor_dropped_frame_count : List (Row fl) → Outcome (Data fl)
  sensor_dropped_frame_count rows =
      if any (λ row. any (λ k. is_finite_at fl k row) dropped_keys) rows
      then (dropped_total rows >>= λ n. ok (int n))
      else ok null
