-- ===== src/Report/Durations.antt =====
-- Times and speeds over the rows: `_route_completion_time`, `_average_ego_speed`, `_is_stopped`,
-- `_is_following` and `_duration_for_flag`.
use closed_loop_bench.Base.{
  Bool, true, false, ◌&&◌, ◌==◌, List, [], ◌∷◌, length, Option, none, some, if◌then◌else◌,
}
use closed_loop_bench.Json.{pos, Floats, null, bool, float, str, obj}
use closed_loop_bench.Criteria.{look_up}
use closed_loop_bench.Plugin.Checks.{finite_number}
use closed_loop_bench.Report.Numbers.{Data, Row, finite_at}

module _ (fl : Floats) where
  -- `row.get("ego") or {}`, its speed if it is a dict, else `ego_speed_mps`
  abbrev ego_speed : Data fl → Data fl
  ego_speed v = elim v [ obj fs ↦ look_up "speed_mps" fs | _ ↦ null ]

  abbrev or_value : Data fl → Data fl → Data fl
  or_value null w = w
  or_value v w = v

  abbrev pub speed_of : Row fl → Option fl.Float
  speed_of row =
      finite_number fl (or_value (ego_speed (look_up "ego" row)) (look_up "ego_speed_mps" row))

  abbrev push : Option fl.Float → List fl.Float → List fl.Float
  push none xs = xs
  push (some x) xs = x ∷ xs

  unfoldable pub speeds : List (Row fl) → List fl.Float
  speeds [] = []
  speeds (row ∷ rows) = push (speed_of row) (speeds rows)

  -- `sum(xs) / len(xs)`
  abbrev pub mean : List fl.Float → Data fl
  mean [] = null
  mean (x ∷ xs) = float (fl.div (fl.sum (x ∷ xs)) (fl.of_int (pos (length (x ∷ xs)))))

  abbrev pub average_ego_speed : List (Row fl) → Data fl
  average_ego_speed rows = mean (speeds rows)

  abbrev pub is_stopped : Row fl → Option Bool
  is_stopped row = elim (speed_of row) [
    | none ↦ none
    | some v ↦ some (fl.le_float (fl.abs v) (fl.literal 1 1))
  ]

  abbrev state_following : Data fl → Option Bool
  state_following (str s) = some (s == "following")
  state_following _ = none

  abbrev following_or : Data fl → Data fl → Option Bool
  following_or (bool b) state = some b
  following_or v state = state_following state

  abbrev pub is_following : Row fl → Option Bool
  is_following row = following_or (look_up "following" row) (look_up "interaction_state" row)

  -- `known` and `total` of the loop
  abbrev pub Elapsed : Type 0
  Elapsed = Bool × fl.Float

  abbrev add_delta : Bool → fl.Float → fl.Float → fl.Float
  add_delta active delta total =
      if active && fl.lt_float (fl.of_int (pos 0)) delta && fl.le_float delta (fl.of_int (pos 1))
      then fl.add total delta
      else total

  abbrev duration_step : Option Bool → Option fl.Float → Option fl.Float → Elapsed → Elapsed
  duration_step (some active) (some t) (some u) s = (true, add_delta active (fl.sub u t) s.1)
  duration_step _ _ _ s = s

  unfoldable pub durations : (Row fl → Option Bool) → List (Row fl) → Elapsed → Elapsed
  durations predicate [] s = s
  durations predicate (row ∷ []) s = s
  durations predicate (row ∷ next ∷ rows) s =
      durations predicate (next ∷ rows)
        (duration_step (predicate row) (finite_at fl "t_sec" row) (finite_at fl "t_sec" next) s)

  -- `_duration_for_flag`
  abbrev pub duration_for_flag : List (Row fl) → (Row fl → Option Bool) → Data fl
  duration_for_flag rows predicate =
      let (known, total) = durations predicate rows (false, fl.of_int (pos 0)) in
      if known then float total else null

  -- The first row from `start` on whose progress is at least 0.95
  abbrev reaches : Option fl.Float → Bool
  reaches none = false
  reaches (some p) = fl.le_float (fl.literal 95 2) p

  abbrev later_than : fl.Float → fl.Float → fl.Float
  later_than start t =
      let delta = fl.sub t start in
      if fl.lt_float (fl.of_int (pos 0)) delta then delta else fl.of_int (pos 0)

  unfoldable pub completion_from : fl.Float → List (Row fl) → Data fl
  completion_from start [] = null
  completion_from start (row ∷ rows) =
      let rest = completion_from start rows in
      elim (finite_at fl "t_sec" row) [
        | none ↦ rest
        | some t ↦
            if reaches (finite_at fl "route_progress" row) then float (later_than start t) else rest
      ]

  -- `_route_completion_time`
  unfoldable pub route_completion_time : List (Row fl) → Data fl
  route_completion_time [] = null
  route_completion_time (row ∷ rows) =
      let rest = route_completion_time rows in
      elim (finite_at fl "t_sec" row) [ none ↦ rest | some t ↦ completion_from t (row ∷ rows) ]
