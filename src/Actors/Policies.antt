-- ===== src/Actors/Policies.antt =====
-- The policy of an actor follows its role.
use closed_loop_bench.Base.{String, not, [], ◌∷◌, ◌≡◌, refl, Bool-cases, inl, inr}
use closed_loop_bench.Base.Outcome.{ok}
use closed_loop_bench.Json.{Floats, Value, Fields}
use closed_loop_bench.Matrix.Groups.{lookup}
use closed_loop_bench.Actors.{
  ClosureLevel, context_roles, trigger_roles, is_in, StyleProfile, or_actor, first_text,
  get_actor_closure_level, actor_closure_level_for_policy, policy_mode_for_role, role_of,
  get_actor_style_profile, PolicyConfig, build_actor_policy_config,
}

-- Every role has a closure level, which answers the ego vehicle just when it is no context role.
role_level :
    (role : String)
    → (l : ClosureLevel) × (actor_closure_level_for_policy (policy_mode_for_role role) ≡ ok l)
      × (l.ego_responsive ≡ not (is_in role context_roles))
      × (l.requires_carla_runtime ≡ l.ego_responsive)
unfolding actor_closure_level_for_policy policy_mode_for_role get_actor_closure_level lookup
role_level role = elim (Bool-cases (is_in role context_roles)) [
  | inl p ↦ rw p (_, refl, refl, refl)
  | inr p ↦ elim (Bool-cases (is_in role trigger_roles)) [
    | inl q ↦ rw (p, q) (_, refl, refl, refl)
    | inr q ↦ rw (p, q) (_, refl, refl, refl)
  ]
]

module _ (fl : Floats) (repr : Value fl.Float → String) (lower : String → String) where
  -- What the policy of an actor says of its role.
  pub record FollowsRole (c : PolicyConfig fl repr lower) : Type 0 where
    pub responsive : c.closed_loop.ego_responsive ≡ not (is_in c.role context_roles)
    pub runtime : c.closed_loop.requires_carla_runtime ≡ c.closed_loop.ego_responsive
    pub level_named : c.closed_loop_level ≡ c.closed_loop.name

  -- An actor with a known style gets a policy config; whether its motion answers the ego vehicle, and
  -- so needs the CARLA runtime, is decided by its role: just a context role is replayed.
  pub build_actor_policy_config_follows :
      (actor : Fields fl.Float) (style : String) (profile : StyleProfile fl repr lower)
      → get_actor_style_profile fl repr lower style ≡ ok profile
      → (c : PolicyConfig fl repr lower) × (build_actor_policy_config fl repr lower actor style
          ≡ ok c)
        × (c.role ≡ role_of fl repr lower actor)
        × (c.style_profile ≡ profile)
        × FollowsRole c
  unfolding build_actor_policy_config
  build_actor_policy_config_follows actor style profile known =
      let (l, found, responsive, runtime) = role_level (role_of fl repr lower actor) in
      let c : PolicyConfig fl repr lower = record {
        actor_id =
            or_actor fl repr lower
              (first_text fl repr lower ("id" ∷ "actor_id" ∷ "name" ∷ []) actor);
        role = role_of fl repr lower actor;
        policy_mode = policy_mode_for_role (role_of fl repr lower actor);
        closed_loop_level = l.name;
        closed_loop = l;
        conditioning = "reference";
        style = profile.name;
        style_profile = profile;
      } in
      (
        c,
        rw (known, found) refl,
        refl,
        refl,
        record { responsive = responsive; runtime = runtime; level_named = refl },
      )
