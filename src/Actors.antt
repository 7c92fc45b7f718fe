-- ===== src/Actors.antt =====
-- actors/closure_levels.py, actors/style_profiles.py and actors/policy_config.py: which policy an
-- actor gets from its role, and how far that policy answers the ego vehicle.
pub mod Policies
use closed_loop_bench.Base.{
  ℕ, String, Bool, true, false, ◌==◌, List, [], ◌∷◌, any, map, Option, none, some, if◌then◌else◌,
}
use closed_loop_bench.Base.Outcome.{Outcome, ok, err, value_error, ◌>>=◌}
use closed_loop_bench.Json.{Floats, Value, Fields, str, find, truthy, text_of}
use closed_loop_bench.Matrix.Groups.{lookup}

abbrev pub same_name : String → String → Bool
same_name s t = s == t

-- The description of a level is left out.
pub record ClosureLevel : Type 0 where
  pub name : String
  pub ego_responsive : Bool
  pub actor_state_mutates_from_ego : Bool
  pub requires_carla_runtime : Bool

abbrev level : String → Bool → ClosureLevel
level name closed = record {
  name = name;
  ego_responsive = closed;
  actor_state_mutates_from_ego = closed;
  requires_carla_runtime = closed;
}

abbrev pub closure_levels : List (String × ClosureLevel)
closure_levels =
    ("replay", level "replay" false)
    ∷ ("scripted", level "scripted" true)
    ∷ ("traffic_manager_reactive", level "traffic_manager_reactive" true)
    ∷ []

abbrev pub policy_to_level : List (String × String)
policy_to_level =
    ("replay", "replay")
    ∷ ("scripted_trigger", "scripted")
    ∷ ("reactive_rule_based", "traffic_manager_reactive")
    ∷ ("traffic_manager", "traffic_manager_reactive")
    ∷ []

abbrev pub available_actor_closure_levels : List String
available_actor_closure_levels = map (λ e. e.0) closure_levels

-- `d[k]` of a table, with the ValueError that its KeyError becomes
abbrev pub of_table : {X : Type 0} → String → Option X → Outcome X
of_table text none = err (value_error text)
of_table text (some x) = ok x

unfoldable pub get_actor_closure_level : String → Outcome ClosureLevel
get_actor_closure_level name =
    of_table "Unknown actor closure level" (lookup same_name name closure_levels)

abbrev pub or_reactive : Option String → String
or_reactive none = "traffic_manager_reactive"
or_reactive (some name) = name

unfoldable pub actor_closure_level_for_policy : String → Outcome ClosureLevel
actor_closure_level_for_policy policy_mode =
    get_actor_closure_level (or_reactive (lookup same_name policy_mode policy_to_level))

abbrev pub is_in : String → List String → Bool
is_in s ts = any (λ t. t == s) ts

abbrev pub trigger_roles : List String
trigger_roles = "trigger" ∷ "scripted_trigger" ∷ "event_actor" ∷ "primary_actor" ∷ []

abbrev pub context_roles : List String
context_roles = "context" ∷ "background" ∷ "ambient" ∷ "replay" ∷ []

unfoldable pub policy_mode_for_role : String → String
policy_mode_for_role role =
    if is_in role context_roles
    then "replay"
    else if is_in role trigger_roles
    then "scripted_trigger"
    else "reactive_rule_based"

module _ (fl : Floats) (repr : Value fl.Float → String) (lower : String → String) where
  -- Times in seconds and gaps in metres.
  pub record StyleProfile : Type 0 where
    pub name : String
    pub desired_time_headway_sec : fl.Float
    pub min_gap_m : fl.Float
    pub reaction_time_sec : fl.Float
    pub yield_ttc_threshold_sec : fl.Float
    pub lane_change_gap_acceptance_m : fl.Float
    pub abort_on_low_ttc : Bool

  -- A profile from tenths.
  abbrev profile : String → ℕ → ℕ → ℕ → ℕ → ℕ → Bool → String × StyleProfile
  profile name headway gap reaction ttc acceptance abort = (
    name,
    record {
      name = name;
      desired_time_headway_sec = fl.literal headway 1;
      min_gap_m = fl.literal gap 1;
      reaction_time_sec = fl.literal reaction 1;
      yield_ttc_threshold_sec = fl.literal ttc 1;
      lane_change_gap_acceptance_m = fl.literal acceptance 1;
      abort_on_low_ttc = abort;
    },
  )

  abbrev pub style_profiles : List (String × StyleProfile)
  style_profiles =
      profile "defensive" 22 75 7 40 120 true
      ∷ profile "normal" 16 50 10 30 80 true
      ∷ profile "assertive" 12 35 8 24 60 true
      ∷ profile "aggressive" 8 20 5 16 40 false
      ∷ profile "delayed" 16 50 18 22 80 true
      ∷ profile "noncompliant" 9 25 6 14 35 false
      ∷ []

  abbrev pub available_actor_styles : List String
  available_actor_styles = map (λ e. e.0) style_profiles

  unfoldable pub get_actor_style_profile : String → Outcome StyleProfile
  get_actor_style_profile style =
      of_table "Unknown actor style" (lookup same_name style style_profiles)

  -- The first of the keys whose value is true, as a text.
  unfoldable pub first_text : List String → Fields fl.Float → Option String
  first_text [] actor = none
  first_text (k ∷ ks) actor = elim (find k actor) [
    | none ↦ first_text ks actor
    | some v ↦ if truthy fl v then some (text_of repr v) else first_text ks actor
  ]

  abbrev pub or_actor : Option String → String
  or_actor none = "actor"
  or_actor (some s) = s

  abbrev pub actor_id : Fields fl.Float → String
  actor_id actor = or_actor (first_text ("id" ∷ "actor_id" ∷ "name" ∷ []) actor)

  -- `str(actor.get("role", "context")).lower()`
  abbrev pub role_of : Fields fl.Float → String
  role_of actor = elim (find "role" actor) [
    | none ↦ lower "context"
    | some v ↦ lower (text_of repr v)
  ]

  pub record PolicyConfig : Type 0 where
    pub actor_id : String
    pub role : String
    pub policy_mode : String
    pub closed_loop_level : String
    pub closed_loop : ClosureLevel
    pub conditioning : String
    pub style : String
    pub style_profile : StyleProfile

  unfoldable pub build_actor_policy_config : Fields fl.Float → String → Outcome PolicyConfig
  build_actor_policy_config actor style = do
    style_profile ← get_actor_style_profile style
    let policy_mode = policy_mode_for_role (role_of actor)
    closure_level ← actor_closure_level_for_policy policy_mode
    ok (record {
      actor_id = or_actor (first_text ("id" ∷ "actor_id" ∷ "name" ∷ []) actor);
      role = role_of actor;
      policy_mode = policy_mode;
      closed_loop_level = closure_level.name;
      closed_loop = closure_level;
      conditioning = "reference";
      style = style_profile.name;
      style_profile = style_profile;
    })
