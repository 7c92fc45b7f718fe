-- ===== src/Tests/Observation.antt =====
-- One tick of a camera, the ego state and the route.
use closed_loop_bench.Base.{true, false, some, [], ◌∷◌, ◌≡◌, refl}
use closed_loop_bench.Base.Outcome.{Outcome, ok, err, ◌>>=◌}
use closed_loop_bench.Json.{ℤ, pos, Value, Items, nil, item, int, str, arr, obj, field, end}
use closed_loop_bench.Matrix.Groups.{lookup, put}
use closed_loop_bench.Observation.{
  index, Aggregator, Observation, Built, blocked, ready, tick_mismatch, create, sample, receive,
  receive_camera, receive_ego_state, receive_route, finite_matrix, validate_camera_calibration,
  gather, smallest, largest, check_cameras, camera_data, finish, check_times, check_frames, build,
}
use closed_loop_bench.Observation.SameTick.{IsSameTick, build-IsSameTick}
use closed_loop_bench.Tests.Sample.{floats}

abbrev row : Items ℤ → Items ℤ
row rest = item (int (pos 1)) (item (int (pos 0)) (item (int (pos 0)) rest))

abbrev calibration : Value ℤ
calibration = obj (
    field "width" (int (pos 900)) (
      field "height" (int (pos 256)) (
        field "intrinsic"
          (arr (item (arr (row nil)) (item (arr (row nil)) (item (arr (row nil)) nil))))
          (field "sensor_to_ego"
            (arr (
              item (arr (row (item (int (pos 1)) nil))) (
                item (arr (row (item (int (pos 1)) nil))) (
                  item (arr (row (item (int (pos 1)) nil)))
                    (item (arr (row (item (int (pos 1)) nil))) nil)))))
            end))))

abbrev ego : Value ℤ
ego = obj (
    field "speed_mps" (int (pos 3))
      (field "pose" (str "p") (field "velocity" (str "v") (field "acceleration" (str "a") end))))

abbrev route : Value ℤ
route = obj (
    field "route_waypoints" (str "w")
      (field "route_command" (str "left") (field "target_point" (str "t") end)))

-- The cameras, the ego state and the route of one tick, and then a route of the tick `n`.
unfoldable pub received : ℤ → Outcome (Aggregator floats)
unfolding create sample receive receive_camera receive_ego_state receive_route put
received n = create floats ("rgb_front" ∷ []) (pos 2) (pos 1) true >>= λ a.
    receive_camera floats a "rgb_front" (str "image") (int (pos 7)) (pos 40) calibration >>= λ b.
    receive_ego_state floats b ego (int (pos 7)) (pos 41) >>= λ c.
    receive_route floats c route (int n) (pos 41)

abbrev pub aggregator_or : Outcome (Aggregator floats) → Aggregator floats
aggregator_or (ok a) = a
aggregator_or (err e) = record {
  required_cameras = [];
  timeout_sec = pos 0;
  max_skew_sec = pos 0;
  require_calibration = false;
  channels = [];
}

build_at : ℤ → ℤ → Built floats
unfolding received lookup finite_matrix validate_camera_calibration gather smallest largest
    check_cameras camera_data finish check_times check_frames build
build_at n now = build floats (aggregator_or (received n)) now (some (index 7))

abbrev seen : Observation floats
seen = record {
  frame_id = index 7;
  t_sec = pos 41;
  sensors = ("rgb_front", str "image") ∷ [];
  calibration = ("rgb_front", calibration) ∷ [];
  ego_state = ego;
  route = route;
}

ready_in_time : build_at (pos 7) (pos 42) ≡ ready seen
unfolding build_at
ready_in_time = refl

other_tick :
    build_at (pos 8) (pos 42)
    ≡ blocked (
        tick_mismatch
          (("camera:rgb_front", index 7) ∷ ("ego_state", index 7) ∷ ("route", index 8) ∷ []))
unfolding build_at
other_tick = refl

build-IsSameTick_example :
    IsSameTick floats (aggregator_or (received (pos 7))) (pos 42) (some (index 7)) seen
unfolding build_at
build-IsSameTick_example =
    build-IsSameTick floats (aggregator_or (received (pos 7))) (pos 42) (some (index 7)) seen refl
