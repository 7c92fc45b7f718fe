-- ===== src/Tests/Plugin.antt =====
-- A plugin that steers straight on, its life, and an observation whose validity is None.
use closed_loop_bench.Base.{String, true, false, [], ◌∷◌, none, some, ◌≡◌, refl}
use closed_loop_bench.Base.Outcome.{Outcome, ok, err, os_error, type_error}
use closed_loop_bench.Json.{
  ℤ, pos, Value, Fields, null, bool, int, float, str, arr, obj, end, field, item, nil, at,
}
use closed_loop_bench.Plugin.Checks.{
  Capability, validate_capability, validate_observation, validate_control, any_missing, names_of,
  put_field,
}
use closed_loop_bench.Plugin.Identity.{
  Host, build_plugin_identity, checkpoint_hash, is_sha256, read_git_revision, identity_config,
}
use closed_loop_bench.Plugin.Identity.Bound.{IsDigest, build_plugin_identity-IsDigest}
use closed_loop_bench.Plugin.Executor.{
  Executor, Replies, predict, require_healthy, reset, control_reply,
}
use closed_loop_bench.Plugin.FailClosed.{IsSafeReply, predict-IsSafe}
use closed_loop_bench.Plugin.Total.{predict_null_validity}
use closed_loop_bench.Plugin.Frames.{Life, IsInOrder, Life-IsInOrder}
use closed_loop_bench.Tests.Sample.{floats}

abbrev described : Value ℤ
described = obj (
    field "algorithm_id" (str "straight") (
      field "uses_route" (bool false) (
        field "uses_ego_state" (bool false) (
          field "required_rgb_cameras" (arr (item (str "rgb_front") nil)) (
            field "requires_lidar" (bool false) (
              field "is_perception_algorithm" (bool true) (
                field "requires_gpu" (bool false) (
                  field "checkpoint_identity" (str "sha256") (
                    field "supported_control_hz" (int (pos 20))
                      (field "timeout_sec" (int (pos 1)) end))))))))))

abbrev capability : Capability floats
capability = record {
  algorithm_id = "straight";
  uses_route = false;
  uses_ego_state = false;
  required_rgb_cameras = "rgb_front" ∷ [];
  requires_lidar = false;
  is_perception_algorithm = true;
  requires_gpu = false;
  checkpoint_identity = str "sha256";
  supported_control_hz = pos 20;
  timeout_sec = pos 1;
}

described_valid : validate_capability floats described ≡ ok capability
unfolding validate_capability names_of
described_valid = refl

abbrev fresh : Executor floats
fresh = record {
  capability = capability;
  identity = str "id";
  evidence_classification = "control_only";
  initialized = true;
  reset_complete = false;
  closed = false;
  last_frame_id = none;
}

abbrev ready : Executor floats
ready = record fresh { reset_complete = true }

abbrev straight : Value ℤ
straight = obj (
    field "throttle" (int (pos 1)) (
      field "steer" (int (pos 0)) (
        field "brake" (int (pos 0)) (
          field "hand_brake" (bool false)
            (field "reverse" (bool false) (field "source_frame_id" (int (pos 7)) end))))))

abbrev replies : Outcome (Value ℤ) → ℤ → Replies floats
replies p ms = record {
  health = ok (obj (field "status" (str "ok") end));
  prediction = λ seen. p;
  elapsed_ms = ms;
  message = λ e. "raised";
}

abbrev seen : Fields ℤ → Fields ℤ
seen more =
    field "frame_id" (int (pos 7)) (
      field "timestamp" (int (pos 1))
        (field "rgb" (obj (field "rgb_front" (str "image") end)) more))

abbrev steered : Fields ℤ
steered = field "throttle" (float (pos 1)) (
    field "steer" (float (pos 0)) (
      field "brake" (float (pos 0)) (
        field "hand_brake" (bool false) (
          field "reverse" (bool false) (
            field "source_frame_id" (int (pos 7)) (
              field "inference_ms" (float (pos 5))
                (field "status" (str "ok") (field "reason" null end))))))))

go : Executor floats → Fields ℤ → Outcome (Value ℤ) → ℤ → Outcome (Value ℤ) × Executor floats
unfolding predict require_healthy validate_observation validate_control any_missing put_field
go e more p ms = predict floats e (obj (seen more)) none (replies p ms)

drives :
    go ready end (ok straight) (pos 5)
    ≡ (ok (control_reply floats ready steered), record ready { last_frame_id = some 7 })
unfolding go
drives = refl

too_late : (go ready end (ok straight) (pos 1001)).1 ≡ ready
unfolding go
too_late = refl

predict-IsSafe_example : IsSafeReply floats (control_reply floats ready steered)
unfolding go
predict-IsSafe_example =
    predict-IsSafe floats ready (obj (seen end)) none (replies (ok straight) (pos 5))
      (control_reply floats ready steered)
      (record { zero_zero = refl; zero_one = refl; one_one = refl; minus_zero = refl }) refl

predict_null_validity_example :
    predict floats ready
      (obj (seen (field "sensor_validity" null end)))
      none
      (replies (ok straight) (pos 5))
    ≡ (err type_error, ready)
unfolding go
predict_null_validity_example =
    predict_null_validity floats ready (seen (field "sensor_validity" null end))
      (field "rgb_front" (str "image") end) none (replies (ok straight) (pos 5)) 7 "rgb_front" []
      (str "image") refl refl refl refl refl refl refl refl refl refl refl

-- The executor is reset, drives frame 7, and is asked for frame 7 again.
life : Life floats (7 ∷ []) (record ready { last_frame_id = some 7 })
unfolding go reset
life = Life.predicted (obj (seen end)) none (replies (ok straight) (pos 5)) (
    Life.predicted (obj (seen end)) none (replies (ok straight) (pos 5))
      (Life.was_reset (ok tt) (Life.created fresh refl)))

Life-IsInOrder_example : IsInOrder floats (7 ∷ []) (record ready { last_frame_id = some 7 })
Life-IsInOrder_example = Life-IsInOrder floats life

abbrev hex : String
hex = "0123456789abcdef0123456789abcdef0123456789abcdef0123456789abcdef"

abbrev host : Host floats
host = record {
  is_dir = λ p. false;
  is_file = λ p. true;
  read_text = λ p. err os_error;
  file_sha256 = λ p. hex;
  sha256 = λ s. hex;
  canonical_sha256 = λ v. hex;
  join = λ p q. q;
  expanduser = λ p. p;
  resolve = λ p. p;
  strip = λ s. s;
  repr = λ v. "{}";
}

abbrev config : Fields ℤ
config = field "checkpoint_path" (str "model.ckpt") (field "repo_sha256" (str hex) end)

abbrev identified : Value ℤ
identified = obj (
    field "algorithm_id" (str "straight") (
      field "plugin_schema" (str "ego_algorithm_plugin.v1") (
        field "config_sha256" (str hex) (
          field "repo_revision" (str "unknown") (
            field "repo_sha256" (str hex) (
              field "checkpoint_sha256" (str hex)
                (field "real_checkpoint_loaded" (bool false) end)))))))

build_plugin_identity-IsDigest_example :
    (digest : Value ℤ) × (at "checkpoint_sha256" identified ≡ ok digest)
    × IsDigest floats host config digest
unfolding build_plugin_identity checkpoint_hash is_sha256 read_git_revision identity_config
build_plugin_identity-IsDigest_example =
    build_plugin_identity-IsDigest floats host config capability identified refl refl
