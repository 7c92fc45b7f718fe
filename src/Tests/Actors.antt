-- ===== src/Tests/Actors.antt =====
-- The policy of a pedestrian that triggers an event.
use closed_loop_bench.Base.{String, true, ◌≡◌, refl}
use closed_loop_bench.Base.Outcome.{Outcome, ok, err, value_error}
use closed_loop_bench.Json.{ℤ, pos, Value, Fields, str, field, end}
use closed_loop_bench.Matrix.Groups.{lookup}
use closed_loop_bench.Actors.{
  StyleProfile, PolicyConfig, role_of, get_actor_style_profile, build_actor_policy_config,
}
use closed_loop_bench.Actors.Policies.{FollowsRole, build_actor_policy_config_follows}
use closed_loop_bench.Tests.Sample.{floats}

abbrev repr : Value ℤ → String
repr v = "{}"

abbrev lower : String → String
lower s = s

abbrev pedestrian : Fields ℤ
pedestrian = field "name" (str "walker") (field "role" (str "trigger") end)

style : String → Outcome (StyleProfile floats repr lower)
unfolding get_actor_style_profile lookup
style s = get_actor_style_profile floats repr lower s

abbrev assertive : StyleProfile floats repr lower
assertive = record {
  name = "assertive";
  desired_time_headway_sec = pos 12;
  min_gap_m = pos 35;
  reaction_time_sec = pos 8;
  yield_ttc_threshold_sec = pos 24;
  lane_change_gap_acceptance_m = pos 60;
  abort_on_low_ttc = true;
}

unknown_style : style "reckless" ≡ err (value_error "Unknown actor style")
unfolding style
unknown_style = refl

build_actor_policy_config_follows_example :
    (c : PolicyConfig floats repr lower) × (build_actor_policy_config floats repr lower pedestrian
        "assertive"
      ≡ ok c)
    × (c.role ≡ role_of floats repr lower pedestrian)
    × (c.style_profile ≡ assertive)
    × FollowsRole floats repr lower c
unfolding style
build_actor_policy_config_follows_example =
    build_actor_policy_config_follows floats repr lower pedestrian "assertive" assertive refl
