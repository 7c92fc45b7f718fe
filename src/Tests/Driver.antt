-- ===== src/Tests/Driver.antt =====
-- Ticks of a concrete adapter.
use closed_loop_bench.Base.{true, false, Option, none, some, [], ◌∷◌, ◌≡◌, refl, ap, ◌∙◌}
use mathlib.Core.Path.{transport}
use closed_loop_bench.Base.Outcome.{Outcome, ok, err, os_error, overflow_error, ok_unique}
use closed_loop_bench.Json.{ℤ, pos, negsuc, Value, Fields, bool, int, float, str, obj, field, end}
use closed_loop_bench.Driver.{
  Ticked, fallback, driven, Adapter, control_of, safe_stop, is_valid_vehicle_control,
  normalize_vehicle_control, chosen_sensors, build_observation, accept_control, tick,
}
use closed_loop_bench.Driver.Safe.{
  IsOrdered, IsSafe, tick-IsSafe, AnswersConvert, commands_convert, tick_total,
}
use closed_loop_bench.Tests.Sample.{floats}

abbrev pub control : ℤ → Value ℤ
control steer = obj (
    field "throttle" (int (pos 1)) (
      field "steer" (int steer) (
        field "brake" (float (pos 0))
          (field "hand_brake" (bool false) (field "reverse" (bool false) end)))))

abbrev pub steering : ℤ → Adapter floats
steering n = record {
  backend = some (λ seen. ok (control n));
  io_contract = obj end;
  required_cameras = "rgb_front" ∷ [];
}

abbrev pub broken : Adapter floats
broken = record {
  backend = some (λ seen. err os_error);
  io_contract = obj end;
  required_cameras = "rgb_front" ∷ [];
}

abbrev front : Fields ℤ
front = field "rgb_front" (str "image") end

abbrev route : Fields ℤ
route = field "route_command" (str "left") end

go : Adapter floats → Fields ℤ → Outcome (Ticked floats)
unfolding is_valid_vehicle_control normalize_vehicle_control chosen_sensors build_observation
    accept_control tick
go a sensors = tick floats a sensors (obj end) (obj route) none none

abbrev left : Ticked floats
left =
    driven
      (record {
        throttle = pos 1;
        steer = negsuc 0;
        brake = pos 0;
        hand_brake = false;
        reverse = false;
      })
      1 (str "left")

turns_left : go (steering (negsuc 0)) front ≡ ok left
unfolding go
turns_left = refl

too_far : go (steering (pos 2)) front ≡ ok (fallback "invalid_control" [] (safe_stop floats))
unfolding go
too_far = refl

no_camera :
    go (steering (pos 0)) end
    ≡ ok (fallback "missing_required_sensor" ("rgb_front" ∷ []) (safe_stop floats))
unfolding go
no_camera = refl

pub ordered : IsOrdered floats
ordered = record { zero_zero = refl; zero_one = refl; one_one = refl; minus_zero = refl }

tick-IsSafe_example : IsSafe floats (control_of floats left)
unfolding go
tick-IsSafe_example =
    tick-IsSafe floats (steering (negsuc 0)) front (obj end) (obj route) none none left ordered refl

-- An int that no float holds is not taken for an invalid control: the tick raises an exception.
huge : go (steering (pos 2000000000000)) front ≡ err overflow_error
unfolding go
huge = refl

abbrev answer : Value ℤ → Option (Value ℤ → Outcome (Value ℤ)) → Outcome (Value ℤ)
answer seen none = err overflow_error
answer seen (some predict) = predict seen

pub straight_converts : AnswersConvert floats (steering (pos 0))
straight_converts predict seen c own h =
    transport
      (ap (λ x. commands_convert floats x ≡ true) (ok_unique refl (ap (answer seen) own ∙ h))) refl

tick_total_example :
    (r : Ticked floats) × (tick floats (steering (pos 0)) front (obj end) (obj route) none none
      ≡ ok r)
tick_total_example =
    tick_total floats (steering (pos 0)) front (obj end) route none none straight_converts
