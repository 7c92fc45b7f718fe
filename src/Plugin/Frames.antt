-- ===== src/Plugin/Frames.antt =====
-- The life of an executor: its operations in any order, with any answers of the plugin, and the
-- frames for which it gave controls of the plugin since the last reset.
use closed_loop_bench.Base.{
  ℕ, ◌<◌, String, Bool, true, false, ◌&&◌, ◌||◌, not, List, [], ◌∷◌, ◌++◌, Option, none, some, ◌≡◌,
  refl, ap, arith, Bool-cases, inl, inr,
}
use mathlib.Core.Path.{transport}
use closed_loop_bench.Base.Outcome.{
  Outcome, ok, err, >>=-eq-ok, refuse-eq-ok, refuse, guard, contract_error, ok_unique, guard-bind,
}
use closed_loop_bench.Json.{
  Floats, end, null, bool, int, float, str, arr, obj, is_text, is_null, is_obj, converts,
}
use closed_loop_bench.Plugin.Checks.{
  Data, get_or, frame_number, is_stale, validate_observation, finite_nonnegative, fields_of,
  any_missing, check_lidar, check_synchronization,
}
use closed_loop_bench.Plugin.Executor.{
  Executor, Replies, frame_field, initialize, reset, close, predict,
}
use closed_loop_bench.Plugin.Cases.{Predicted, predict-Predicted}

module _ (fl : Floats) where
  -- The frames since the last reset, the latest first.
  abbrev after_reset : Outcome (Unit {0}) → List ℕ → List ℕ
  after_reset (ok u) ns = []
  after_reset (err e) ns = ns

  -- Whether a reply is a control of the plugin.
  abbrev pub is_control : Data fl → Bool
  is_control reply = elim reply [
    | obj fs ↦ is_text (get_or "execution_status" null fs) "control"
    | _ ↦ false
  ]

  abbrev number_of : Outcome ℕ → List ℕ
  number_of (ok n) = n ∷ []
  number_of (err e) = []

  -- The frame for which the plugin's control was given.
  abbrev pub driven_frames : Outcome (Data fl) → Data fl → List ℕ
  driven_frames (err e) observation = []
  driven_frames (ok reply) observation = elim (is_control reply) [
    | true ↦ number_of (frame_number fl (frame_field fl observation))
    | false ↦ []
  ]

  -- An executor that was created, and whatever was called of it.
  pub data Life : List ℕ → Executor fl → Type 0 where
    created : (e : Executor fl) → e.last_frame_id ≡ none → Life [] e
    initialized :
        {ns : List ℕ} {e : Executor fl} (started : Outcome (Unit {0})) (health : Outcome (Data fl))
        → Life ns e
        → Life ns (initialize fl e started health).1
    was_reset :
        {ns : List ℕ} {e : Executor fl} (done : Outcome (Unit {0}))
        → Life ns e
        → Life (after_reset (reset fl e done).0 ns) (reset fl e done).1
    predicted :
        {ns : List ℕ} {e : Executor fl} (observation : Data fl) (forced : Option String)
        (r : Replies fl)
        → Life ns e
        → Life
            (driven_frames (predict fl e observation forced r).0 observation ++ ns)
            (predict fl e observation forced r).1
    was_closed :
        {ns : List ℕ} {e : Executor fl} (done : Outcome (Unit {0}))
        → Life ns e
        → Life ns (close fl e done).1

  -- The frames decrease, from the last one that the executor keeps.
  abbrev pub IsNewest : Option ℕ → List ℕ → Type 0
  IsNewest none [] = Unit
  IsNewest none (n ∷ ns) = ⊥
  IsNewest (some last) [] = ⊥
  IsNewest (some last) (n ∷ ns) = last ≡ n

  abbrev pub IsDescending : List ℕ → Type 0
  IsDescending [] = Unit
  IsDescending (n ∷ []) = Unit
  IsDescending (n ∷ m ∷ ns) = (m < n) × IsDescending (m ∷ ns)

  abbrev pub IsInOrder : List ℕ → Executor fl → Type 0
  IsInOrder ns e = IsNewest e.last_frame_id ns × IsDescending ns

  initialize-last :
      (e : Executor fl) (started : Outcome (Unit {0})) (health : Outcome (Data fl))
      → (initialize fl e started health).1.last_frame_id ≡ e.last_frame_id
  unfolding initialize
  initialize-last e started health = ground arith

  close-last :
      (e : Executor fl) (done : Outcome (Unit {0}))
      → (close fl e done).1.last_frame_id ≡ e.last_frame_id
  unfolding close
  close-last e done = ground arith

  reset_order :
      (ns : List ℕ) (e : Executor fl) (done : Outcome (Unit {0}))
      → IsInOrder ns e
      → IsInOrder (after_reset (reset fl e done).0 ns) (reset fl e done).1
  unfolding reset
  reset_order ns e (ok u) h = elim (Bool-cases (not e.initialized || e.closed)) [
    | inl refused ↦ rw refused h
    | inr allowed ↦ rw allowed (tt, tt)
  ]
  reset_order ns e (err error) h = elim (Bool-cases (not e.initialized || e.closed)) [
    | inl refused ↦ rw refused h
    | inr allowed ↦ rw allowed h
  ]

  -- A valid observation tells a frame that is newer than the last one.
  valid_frame :
      (e : Executor fl) (observation : Data fl) (n : ℕ)
      → validate_observation fl observation e.capability e.last_frame_id ≡ ok n
      → (frame_number fl (frame_field fl observation) ≡ ok n)
        × (is_stale fl e.last_frame_id n ≡ false)
  unfolding validate_observation
  valid_frame e (obj fs) n h =
      let (m, told, h1) = >>=-eq-ok (frame_number fl (get_or "frame_id" null fs)) _ h in
      let (u, fresh, h2) =
        >>=-eq-ok (refuse (is_stale fl e.last_frame_id m) (contract_error "stale_frame")) _ h1 in
      let v = get_or "sensor_validity" (obj end) fs in
      let (fit, h2') =
        guard-bind (converts fl (get_or "timestamp" (get_or "t_sec" null fs) fs)) _ _ h2 in
      let (u1, timed, h3) =
        >>=-eq-ok (guard (finite_nonnegative fl (get_or "timestamp" (get_or "t_sec" null fs) fs)) _)
          _ h2' in
      let (u2, shaped, h4) = >>=-eq-ok (guard (is_null v || is_obj v) _) _ h3 in
      let (rgb, images, h5) =
        >>=-eq-ok
          (fields_of fl "observation rgb/sensors must be an object"
            (get_or "rgb" (get_or "sensors" (obj end) fs) fs))
          _ h4 in
      let (missing, looked, h6) =
        >>=-eq-ok (any_missing fl rgb v e.capability.required_rgb_cameras) _ h5 in
      let (u3, none_missing, h7) = >>=-eq-ok (refuse missing _) _ h6 in
      let (u4, lidar, h8) = >>=-eq-ok (check_lidar fl e.capability.requires_lidar fs v) _ h7 in
      let (u5, ego, h9) =
        >>=-eq-ok
          (refuse (e.capability.uses_ego_state && not (is_obj (get_or "ego_state" null fs)))
            (contract_error "missing_ego_state"))
          _ h8 in
      let (u6, route, h10) =
        >>=-eq-ok
          (refuse (e.capability.uses_route && not (is_obj (get_or "route" null fs)))
            (contract_error "missing_route"))
          _ h9 in
      let (u7, synced, h11) =
        >>=-eq-ok (check_synchronization fl m (get_or "synchronization" null fs)) _ h10 in
      let same = ok_unique refl h11 in
      (
        transport (ap (λ k. frame_number fl (get_or "frame_id" null fs) ≡ ok k) same) told,
        transport (ap (λ k. is_stale fl e.last_frame_id k ≡ false) same) (refuse-eq-ok _ _ fresh),
      )
  valid_frame e null n h = cc
  valid_frame e (bool b) n h = cc
  valid_frame e (int k) n h = cc
  valid_frame e (float x) n h = cc
  valid_frame e (str s) n h = cc
  valid_frame e (arr vs) n h = cc

  -- A frame that is newer goes before the others.
  next_order :
      (last : Option ℕ) (ns : List ℕ) (n : ℕ)
      → is_stale fl last n ≡ false
      → IsNewest last ns
      → IsDescending ns
      → IsDescending (n ∷ ns)
  next_order none [] n fresh newest order = tt
  next_order none (m ∷ ns) n fresh newest order = absurd newest
  next_order (some last) [] n fresh newest order = absurd newest
  next_order (some last) (m ∷ ns) n fresh newest order = (ground arith, order)

  Predicted-order :
      {e : Executor fl} {observation : Data fl} {r : Replies fl}
      {p : Outcome (Data fl) × Executor fl} (ns : List ℕ)
      → Predicted fl e observation r p
      → IsInOrder ns e
      → IsInOrder (driven_frames p.0 observation ++ ns) p.1
  Predicted-order ns (Predicted.stopped frame reason ms detail) h = h
  Predicted-order {e = e} {observation = observation} ns
        (Predicted.drove n candidate control ready valid answer fine) h =
      let (told, fresh) = valid_frame e observation n valid in
      rw told (refl, next_order e.last_frame_id ns n fresh h.0 h.1)
  Predicted-order ns (Predicted.escaped error) h = h

  -- In every life of an executor, whatever the plugin answers, the frames for which controls of the
  -- plugin were given since the last reset strictly increase: no frame is driven twice and none is
  -- driven late. The executor was created without a last frame.
  pub Life-IsInOrder : {ns : List ℕ} {e : Executor fl} → Life ns e → IsInOrder ns e
  Life-IsInOrder (Life.created e start) = rw start (tt, tt)
  Life-IsInOrder (Life.initialized {ns = ns} {e = e} started health life) =
      rw (initialize-last e started health) (Life-IsInOrder life)
  Life-IsInOrder (Life.was_reset {ns = ns} {e = e} done life) =
      reset_order ns e done (Life-IsInOrder life)
  Life-IsInOrder (Life.predicted {ns = ns} {e = e} observation forced r life) =
      Predicted-order ns (predict-Predicted fl e observation forced r) (Life-IsInOrder life)
  Life-IsInOrder (Life.was_closed {ns = ns} {e = e} done life) =
      rw (close-last e done) (Life-IsInOrder life)
