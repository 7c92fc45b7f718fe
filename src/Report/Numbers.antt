-- ===== src/Report/Numbers.antt =====
-- Numbers over the rows: `_min_numeric`, `_max_numeric`, `_route_progress`, `_percentile` and those
-- that use them, `_jerk_values`.
use closed_loop_bench.Base.{
  ℕ, zero, suc, ◌-◌, ltb, leb, String, Bool, true, false, ◌&&◌, List, [], ◌∷◌, ◌++◌, map, length,
  is_empty, sorted_by, Option, none, some, if◌then◌else◌,
}
use closed_loop_bench.Base.Outcome.{Outcome, ok, err, value_error, ◌>>=◌}
use closed_loop_bench.Json.{
  ℤ, pos, negsuc, Floats, Value, Fields, end, field, null, float, obj, as_float,
}
use closed_loop_bench.Criteria.{look_up}
use closed_loop_bench.Plugin.Checks.{finite_number}

module _ (fl : Floats) where
  abbrev pub Data : Type 0
  Data = Value fl.Float

  abbrev pub Row : Type 0
  Row = Fields fl.Float

  -- `float(v)` where `_finite(v)`
  abbrev pub finite_at : String → Row → Option fl.Float
  finite_at k row = finite_number fl (look_up k row)

  abbrev pub is_finite_at : String → Row → Bool
  is_finite_at k row = elim (finite_at k row) [ none ↦ false | some x ↦ true ]

  abbrev pub or_null : Option fl.Float → Data
  or_null none = null
  or_null (some x) = float x

  -- The value of the first key that reads as a number.
  abbrev or_next : Option fl.Float → Option fl.Float → Option fl.Float
  or_next none o = o
  or_next (some x) o = some x

  unfoldable pub first_of : (String → Row → Option fl.Float) → List String → Row → Option fl.Float
  first_of read [] row = none
  first_of read (k ∷ ks) row = or_next (read k row) (first_of read ks row)

  abbrev pub push : Option fl.Float → List fl.Float → List fl.Float
  push none xs = xs
  push (some x) xs = x ∷ xs

  -- `for row in rows: for key in keys: ... values.append(...); break`
  unfoldable pub values_of :
      (String → Row → Option fl.Float) → List String → List Row → List fl.Float
  values_of read keys [] = []
  values_of read keys (row ∷ rows) = push (first_of read keys row) (values_of read keys rows)

  -- `min(xs)` and `max(xs)`: the first of the least, the first of the greatest
  unfoldable pub min_from : fl.Float → List fl.Float → fl.Float
  min_from m [] = m
  min_from m (x ∷ xs) = min_from (if fl.lt_float x m then x else m) xs

  unfoldable pub max_from : fl.Float → List fl.Float → fl.Float
  max_from m [] = m
  max_from m (x ∷ xs) = max_from (if fl.lt_float m x then x else m) xs

  abbrev pub min_of : List fl.Float → Option fl.Float
  min_of [] = none
  min_of (x ∷ xs) = some (min_from x xs)

  abbrev pub max_of : List fl.Float → Option fl.Float
  max_of [] = none
  max_of (x ∷ xs) = some (max_from x xs)

  -- `float(row[k])` where it is an int, a float or a bool
  abbrev pub number_at : String → Row → Option fl.Float
  number_at k row = as_float fl (look_up k row)

  abbrev pub min_numeric : List Row → List String → Data
  min_numeric rows keys = or_null (min_of (values_of number_at keys rows))

  abbrev pub max_numeric : List Row → List String → Data
  max_numeric rows keys = or_null (max_of (values_of finite_at keys rows))

  abbrev pub or_zero : Option fl.Float → fl.Float
  or_zero none = fl.of_int (pos 0)
  or_zero (some x) = x

  abbrev pub route_progress : List Row → Data
  route_progress rows = float (or_zero (max_of (values_of number_at ("route_progress" ∷ []) rows)))

  unfoldable pub nth : List fl.Float → ℕ → Outcome fl.Float
  nth [] n = err (value_error "list index out of range")
  nth (x ∷ xs) zero = ok x
  nth (x ∷ xs) (suc n) = nth xs n

  -- `xs[i]`: a negative index counts from the end.
  abbrev pub item_at : List fl.Float → ℤ → Outcome fl.Float
  item_at xs (pos n) = nth xs n
  item_at xs (negsuc n) =
      if ltb n (length xs)
      then nth xs (length xs - suc n)
      else err (value_error "list index out of range")

  abbrev interpolate : List fl.Float → fl.Float → Outcome Data
  interpolate ordered position = do
    let fraction = fl.sub position (fl.of_int (fl.floor position))
    low ← item_at ordered (fl.floor position)
    high ← item_at ordered (fl.ceil position)
    ok (float (fl.add (fl.mul low (fl.sub (fl.of_int (pos 1)) fraction)) (fl.mul high fraction)))

  abbrev pick : List fl.Float → ℕ → Outcome Data
  pick [] percentile = ok null
  pick (x ∷ []) percentile = ok (float x)
  pick (x ∷ y ∷ ys) percentile = interpolate (x ∷ y ∷ ys) (
      fl.div (fl.mul (fl.of_int (pos (suc (length ys)))) (fl.of_int (pos percentile)))
        (fl.of_int (pos 100)))

  -- `_percentile`, at a whole percentile
  unfoldable pub percentile_of : List fl.Float → ℕ → Outcome Data
  percentile_of values percentile = pick (sorted_by fl.lt_float values) percentile

  abbrev pub numeric_percentile : List Row → List String → ℕ → Outcome Data
  numeric_percentile rows keys percentile = percentile_of (values_of finite_at keys rows) percentile

  -- The first of the two error fields that is there, in milliseconds.
  abbrev sync_value : Option fl.Float → Option fl.Float → Option fl.Float → Option fl.Float
  sync_value (some ms) us max_us = some (fl.abs ms)
  sync_value none (some us) max_us = some (fl.div (fl.abs us) (fl.of_int (pos 1000)))
  sync_value none none (some us) = some (fl.div (fl.abs us) (fl.of_int (pos 1000)))
  sync_value none none none = none

  abbrev sync_of : Row → Option fl.Float
  sync_of row =
      sync_value (finite_at "synchronization_error_ms" row)
        (finite_at "synchronization_error_us" row) (finite_at "max_sync_error_us" row)

  unfoldable pub sync_values : List Row → List fl.Float
  sync_values [] = []
  sync_values (row ∷ rows) = push (sync_of row) (sync_values rows)

  abbrev pub sync_percentile : List Row → ℕ → Outcome Data
  sync_percentile rows percentile = percentile_of (sync_values rows) percentile

  -- The distances of a row: its own, then those of its actors.
  unfoldable pub finite_values : Fields fl.Float → List fl.Float
  finite_values end = []
  finite_values (field k v fs) = push (finite_number fl v) (finite_values fs)

  abbrev actor_distances : Data → List fl.Float
  actor_distances v = elim v [ obj fs ↦ finite_values fs | _ ↦ [] ]

  unfoldable pub distances : List Row → List fl.Float
  distances [] = []
  distances (row ∷ rows) =
      push (finite_at "min_distance_m" row)
        (actor_distances (look_up "actor_distances_m" row) ++ distances rows)

  abbrev pub min_actor_distance : List Row → Data
  min_actor_distance rows = or_null (min_of (distances rows))

  -- `row.get("max_jerk")` if it is finite, else `row.get("jerk")`
  abbrev jerk_of : Row → Option fl.Float
  jerk_of row = or_next (finite_at "max_jerk" row) (finite_at "jerk" row)

  abbrev is_later : Option fl.Float → Option fl.Float → Bool
  is_later none timestamp = true
  is_later (some previous) none = true
  is_later (some previous) (some t) = fl.lt_float previous t

  abbrev pushed_if : Bool → Option fl.Float → List fl.Float → List fl.Float
  pushed_if true o xs = push o xs
  pushed_if false o xs = xs

  -- The jerks that the rows tell, without those of a time that does not go on.
  unfoldable pub explicit_jerks : Option fl.Float → List Row → List fl.Float
  explicit_jerks previous [] = []
  explicit_jerks previous (row ∷ rows) =
      pushed_if (is_later previous (finite_at "t_sec" row)) (jerk_of row)
        (explicit_jerks (or_next (finite_at "t_sec" row) previous) rows)

  abbrev pub TimedValue : Type 0
  TimedValue = fl.Float × fl.Float

  abbrev sample_of : Option fl.Float → Option fl.Float → Option TimedValue
  sample_of (some t) (some a) = some (t, a)
  sample_of _ _ = none

  -- The slope between two samples, if their times are near enough.
  abbrev slope : Option TimedValue → TimedValue → Option fl.Float
  slope none s = none
  slope (some p) s =
      let delta = fl.sub s.0 p.0 in
      if fl.le_float (fl.literal 1 4) delta && fl.le_float delta (fl.literal 10 1)
      then some (fl.div (fl.sub s.1 p.1) delta)
      else none

  unfoldable pub derived_jerks : Option TimedValue → List Row → List fl.Float
  derived_jerks previous [] = []
  derived_jerks previous (row ∷ rows) =
      elim (sample_of (finite_at "t_sec" row) (finite_at "longitudinal_acceleration_mps2" row)) [
        | none ↦ derived_jerks previous rows
        | some s ↦ push (slope previous s) (derived_jerks (some s) rows)
      ]

  -- `xs[:-1]`
  abbrev but_last : List fl.Float → List fl.Float
  but_last [] = []
  but_last (x ∷ []) = []
  but_last (x ∷ y ∷ ys) = x ∷ but_last (y ∷ ys)

  abbrev trimmed : List fl.Float → List fl.Float
  trimmed [] = []
  trimmed (x ∷ xs) = but_last xs

  -- `_jerk_values`
  unfoldable pub jerk_values : List Row → List fl.Float
  jerk_values rows =
      let explicit = explicit_jerks none rows in
      if is_empty explicit
      then derived_jerks none rows
      else if leb 5 (length explicit)
      then trimmed explicit
      else explicit

  abbrev pub max_abs : List fl.Float → Data
  max_abs xs = or_null (max_of (map (λ x. fl.abs x) xs))
