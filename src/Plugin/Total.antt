-- ===== src/Plugin/Total.antt =====
-- When a call of `predict` raises nothing, and a call that raises.
use closed_loop_bench.Base.{ℕ, String, Bool, true, false, List, ◌∷◌, Option, some, ◌≡◌, refl, arith}
use closed_loop_bench.Base.Outcome.{Outcome, ok, err, type_error}
use closed_loop_bench.Json.{Floats, Fields, end, null, arr, obj, find, is_null, converts}
use closed_loop_bench.Plugin.Checks.{
  Data, get_or, validate_observation, any_missing, frame_number, is_stale, finite_nonnegative,
}
use closed_loop_bench.Plugin.Executor.{Executor, Replies, is_ready, predict, require_healthy}
use closed_loop_bench.Plugin.Contained.{commands_convert}

module _ (fl : Floats) where
  -- The status of a health report can be looked up in a set: it is no list and no dict.
  abbrev is_hashable : Data fl → Bool
  is_hashable (arr vs) = false
  is_hashable (obj fs) = false
  is_hashable _ = true

  abbrev pub has_plain_status : Outcome (Data fl) → Bool
  has_plain_status (ok (obj fs)) = is_hashable (get_or "status" null fs)
  has_plain_status _ = true

  -- The answer of the plugin has commands that are no ints that no float holds.
  abbrev pub answer_converts : Outcome (Data fl) → Bool
  answer_converts (ok candidate) = commands_convert fl candidate
  answer_converts (err e) = true

  abbrev Replied : Outcome (Data fl) × Executor fl → Type 0
  Replied p = (reply : Data fl) × (p.0 ≡ ok reply)

  any_missing_null :
      (rgb : Fields fl.Float) (camera : String) (cameras : List String) (v : Data fl)
      → find camera rgb ≡ some v
      → is_null v ≡ false
      → any_missing fl rgb null (camera ∷ cameras) ≡ err type_error
  unfolding any_missing
  any_missing_null rgb camera cameras v there some_image = ground arith

  -- An observation whose `sensor_validity` is None passes the check of that field, and where its first
  -- required camera has an image, the call ends with an exception that is no PluginContractError: no
  -- safe stop is given. The executor is ready and healthy, and the frame is new and timed.
  pub predict_null_validity :
      (e : Executor fl) (fs rgb : Fields fl.Float) (forced : Option String) (r : Replies fl) (n : ℕ)
      (camera : String) (cameras : List String) (v : Data fl)
      → is_ready fl e ≡ true
      → require_healthy fl r.health ≡ ok tt
      → frame_number fl (get_or "frame_id" null fs) ≡ ok n
      → is_stale fl e.last_frame_id n ≡ false
      → converts fl (get_or "timestamp" (get_or "t_sec" null fs) fs) ≡ true
      → finite_nonnegative fl (get_or "timestamp" (get_or "t_sec" null fs) fs) ≡ true
      → get_or "sensor_validity" (obj end) fs ≡ null
      → get_or "rgb" (get_or "sensors" (obj end) fs) fs ≡ obj rgb
      → e.capability.required_rgb_cameras ≡ camera ∷ cameras
      → find camera rgb ≡ some v
      → is_null v ≡ false
      → predict fl e (obj fs) forced r ≡ (err type_error, e)
  unfolding predict validate_observation
  predict_null_validity e fs rgb forced r n camera cameras v ready healthy frame fresh fit timed
        none_told images wanted there some_image =
      rw
        (
          ready,
          healthy,
          frame,
          fresh,
          fit,
          timed,
          none_told,
          images,
          wanted,
          any_missing_null rgb camera cameras v there some_image,
        )
        refl
