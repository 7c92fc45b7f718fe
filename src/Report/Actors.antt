-- ===== src/Report/Actors.antt =====
-- What a report says of the actors: `_actor_outcomes`, `_actor_policy_modes`,
-- `_actor_closed_loop_levels`; `_metric_availability` and `_artifacts`.
use closed_loop_bench.Base.{
  suc, String, Bool, true, false, not, ◌&&◌, ◌||◌, ◌==◌, List, [], ◌∷◌, any, Option, some,
  if◌then◌else◌,
}
use closed_loop_bench.Base.Outcome.{Outcome, ok, err, type_error, ◌>>=◌}
use closed_loop_bench.Json.{
  pos, Floats, Value, Items, nil, item, Fields, end, field, null, bool, int, str, arr, obj, is_null,
  is_text, find, truthy, text_of,
}
use closed_loop_bench.Criteria.{look_up, or_default}
use closed_loop_bench.Plugin.Checks.{put_field}
use closed_loop_bench.Report.Numbers.{Data, Row, is_finite_at}
use closed_loop_bench.Report.Events.{samples_either}

module _ (fl : Floats) (repr : Value fl.Float → String) where
  -- `counter[k] += 1`
  abbrev next_count : Option (Data fl) → Data fl
  next_count (some (int (pos n))) = int (pos (suc n))
  next_count _ = int (pos 1)

  abbrev pub bump : String → Fields fl.Float → Fields fl.Float
  bump k counter = put_field k (next_count (find k counter)) counter

  -- `outcomes`, `known` and `previous_by_actor` of the loop
  pub record Outcomes : Type 0 where
    pub outcomes : Fields fl.Float
    pub known : Bool
    pub previous : Fields fl.Float

  abbrev is_previous : String → String → Fields fl.Float → Bool
  is_previous actor text previous = is_text (look_up actor previous) text

  abbrev counted : String → String → Outcomes → Fields fl.Float
  counted actor text s =
      if is_previous actor text s.previous then s.outcomes else bump text s.outcomes

  unfoldable pub tell_outcomes : Fields fl.Float → Outcomes → Outcomes
  tell_outcomes end s = s
  tell_outcomes (field actor v fs) s =
      let text = text_of repr v in
      tell_outcomes fs (record {
        outcomes = counted actor text s;
        known = s.known;
        previous = put_field actor (str text) s.previous;
      })

  abbrev is_action : Data fl → Bool
  is_action v = is_text v "yield" || is_text v "abort" || is_text v "crossing"

  -- `action in {...}` raises where the action has no hash.
  abbrev has_hash : Data fl → Bool
  has_hash (arr vs) = false
  has_hash (obj fs) = false
  has_hash _ = true

  abbrev is_true : Data fl → Bool
  is_true (bool b) = b
  is_true _ = false

  -- The outcome that a decision without one tells by its action or its flags.
  abbrev implied : Fields fl.Float → Outcome (Data fl)
  implied fs =
      if not (has_hash (look_up "action" fs))
      then err type_error
      else if is_action (look_up "action" fs)
      then ok (look_up "action" fs)
      else if is_true (look_up "should_yield" fs)
      then ok (str "yield")
      else if is_true (look_up "should_abort" fs)
      then ok (str "abort")
      else ok null

  abbrev decided_outcome : Data fl → Outcome (Data fl)
  decided_outcome v = elim v [
    | obj fs ↦ if is_null (look_up "outcome" fs) then implied fs else ok (look_up "outcome" fs)
    | _ ↦ ok null
  ]

  -- A new outcome of an actor is counted; a decision without one is passed over.
  abbrev decide_one : String → Data fl → Outcomes → Outcomes
  decide_one actor v s =
      let text = text_of repr v in
      if truthy fl v && not (text == "") && not (is_previous actor text s.previous)
      then record {
        outcomes = bump text s.outcomes;
        known = true;
        previous = put_field actor (str text) s.previous;
      }
      else s

  unfoldable pub tell_decisions : Fields fl.Float → Outcomes → Outcome Outcomes
  tell_decisions end s = ok s
  tell_decisions (field actor v fs) s =
      decided_outcome v >>= λ outcome. tell_decisions fs (decide_one actor outcome s)

  abbrev has_fields : Fields fl.Float → Bool
  has_fields end = false
  has_fields (field k v fs) = true

  abbrev with_outcomes : Data fl → Outcomes → Outcomes
  with_outcomes v s = elim v [
    | obj fs ↦ tell_outcomes fs (record s { known = s.known || has_fields fs })
    | _ ↦ s
  ]

  abbrev with_decisions : Data fl → Outcomes → Outcome Outcomes
  with_decisions v s = elim v [ obj fs ↦ tell_decisions fs s | _ ↦ ok s ]

  unfoldable pub outcomes_of : List (Row fl) → Outcomes → Outcome Outcomes
  outcomes_of [] s = ok s
  outcomes_of (row ∷ rows) s = do
    next ←
        with_decisions (look_up "actor_decisions" row)
          (with_outcomes (look_up "actor_outcomes" row) s)
    outcomes_of rows next

  -- `_actor_outcomes`
  abbrev pub actor_outcomes : List (Row fl) → Outcome (Data fl)
  actor_outcomes rows = do
    s ← outcomes_of rows (record { outcomes = end; known = false; previous = end })
    ok (if s.known then obj s.outcomes else null)

  -- `Counter(actor.get(key, "unknown") for actor in actors)`. Only texts are keys here: another value
  -- is taken for an error.
  abbrev tally_one : String → Data fl → Fields fl.Float → Outcome (Fields fl.Float)
  tally_one key actor counter = elim actor [
    | obj fs ↦ elim (or_default key (str "unknown") fs) [
      | str s ↦ ok (bump s counter)
      | _ ↦ err type_error
    ]
    | _ ↦ err type_error
  ]

  unfoldable pub tally : String → Items fl.Float → Fields fl.Float → Outcome (Fields fl.Float)
  tally key nil counter = ok counter
  tally key (item v vs) counter = tally_one key v counter >>= λ next. tally key vs next

  -- `_actor_policy_modes` and `_actor_closed_loop_levels`
  abbrev pub tally_actors : String → Fields fl.Float → Outcome (Data fl)
  tally_actors key run_config = elim (or_default "actors" (arr nil) run_config) [
    | arr vs ↦ tally key vs end >>= λ counter. ok (obj counter)
    | _ ↦ err type_error
  ]

  -- A number that was sampled, for the three metrics that are never None
  abbrev available : String → Data fl → List (Row fl) → Bool
  available key v rows =
      if key == "collision_count"
      then any (samples_either fl "collision" "collision_count") rows
      else if key == "route_progress"
      then any (is_finite_at fl "route_progress") rows
      else if key == "hard_brake_count"
      then any (samples_either fl "hard_brake" "hard_brake_count") rows
      else not (is_null v)

  abbrev is_passed_over : String → Bool
  is_passed_over key =
      key == "actor_policy_modes"
      || key == "actor_closed_loop_levels"
      || key == "metric_availability"

  -- `_metric_availability`
  unfoldable pub metric_availability : Fields fl.Float → List (Row fl) → Fields fl.Float
  metric_availability end rows = end
  metric_availability (field key v fs) rows =
      let rest = metric_availability fs rows in
      if is_passed_over key then rest else field key (bool (available key v rows)) rest

  abbrev package_path : Fields fl.Float → Fields fl.Float
  package_path fs =
      if truthy fl (look_up "enabled" fs) && truthy fl (look_up "package_path" fs)
      then field "reconstruction_package" (str (text_of repr (look_up "package_path" fs))) end
      else end

  -- `_artifacts`
  abbrev pub artifacts : Fields fl.Float → Outcome (Data fl)
  artifacts run_config =
      let pack = look_up "reconstruction_package" run_config in
      if truthy fl pack
      then elim pack [
        | obj fs ↦ ok (obj (field "run_config" (str "in_memory") (package_path fs)))
        | _ ↦ err type_error
      ]
      else ok (obj (field "run_config" (str "in_memory") end))
