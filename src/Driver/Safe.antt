-- ===== src/Driver/Safe.antt =====
-- A tick is fail-closed: it gives a control in range or a safe stop.
use closed_loop_bench.Base.{
  and_parts, all, ◌∙◌, ◌&&◌, String, Bool, true, false, List, [], ◌∷◌, keep, length, is_empty,
  Option, none, some, ◌≡◌, refl, ap, arith, Bool-cases, Option-cases, inl, inr, if◌then◌else◌,
}
use mathlib.Core.Path.{transport}
use closed_loop_bench.Base.Outcome.{Outcome, ok, err, >>=-eq-ok, ok_unique}
use closed_loop_bench.Json.{
  Floats, Value, Fields, end, field, obj, null, bool, int, float, str, arr, find, get, as_float,
  converts,
}
use closed_loop_bench.Driver.{
  Control, Ticked, fallback, driven, Adapter, control_of, within, within_option, in_range,
  zero_point, one_point, minus_one, safe_stop, field_holds, both, required_control_fields,
  has_field, commands_hold, is_flag, is_valid_vehicle_control, float_at, flag_at,
  normalize_vehicle_control, is_missing, chosen_sensors, build_observation, observed,
  accept_control, on_prediction, with_backend, tick,
}

-- What the safe stop relies on: the order of the floats -1.0, 0.0 and 1.0.
pub record IsOrdered (fl : Floats) : Type 0 where
  pub zero_zero : fl.le_float (zero_point fl) (zero_point fl) ≡ true
  pub zero_one : fl.le_float (zero_point fl) (one_point fl) ≡ true
  pub one_one : fl.le_float (one_point fl) (one_point fl) ≡ true
  pub minus_zero : fl.le_float (minus_one fl) (zero_point fl) ≡ true

at_true : {A : Type 0} (b : Bool) (x y : A) {z : A} → b ≡ true → (if b then x else y) ≡ z → x ≡ z
at_true true x y p h = h
at_true false x y p h = cc

at_false : {A : Type 0} (b : Bool) (x y : A) {z : A} → b ≡ false → (if b then x else y) ≡ z → y ≡ z
at_false false x y p h = h
at_false true x y p h = cc

module _ (fl : Floats) where
  -- Throttle and brake lie between 0 and 1, the steering between -1 and 1.
  pub record IsSafe (c : Control fl) : Type 0 where
    pub throttle_in : within fl (zero_point fl) (one_point fl) c.throttle ≡ true
    pub steer_in : within fl (minus_one fl) (one_point fl) c.steer ≡ true
    pub brake_in : within fl (zero_point fl) (one_point fl) c.brake ≡ true

  pub safe_stop-IsSafe : IsOrdered fl → IsSafe (safe_stop fl)
  safe_stop-IsSafe o = record {
    throttle_in = rw (o.zero_zero, o.zero_one) refl;
    steer_in = rw (o.minus_zero, o.zero_one) refl;
    brake_in = rw (o.zero_one, o.one_one) refl;
  }

  both-parts : (x y : Outcome Bool) → both fl x y ≡ ok true → (x ≡ ok true) × (y ≡ ok true)
  both-parts (ok true) y h = (refl, h)
  both-parts (ok false) y h = cc
  both-parts (err e) y h = cc

  -- A float field that holds in range is read as such a float.
  float_found :
      (name : String) (lower upper : fl.Float) (fs : Fields fl.Float)
      → field_holds fl name (in_range fl lower upper) fs ≡ ok true
      → (x : fl.Float) × (float_at fl name (obj fs) ≡ ok x) × (within fl lower upper x ≡ true)
  float_found name lower upper fs h = elim (Option-cases (find name fs)) [
    | inl p ↦ absurd (ground arith)
    | inr (v, p) ↦ elim (Bool-cases (converts fl v)) [
      | inr huge ↦ absurd (ground arith)
      | inl small ↦ elim (Option-cases (as_float fl v)) [
        | inl q ↦ absurd (ground arith)
        | inr (x, q) ↦ (x, ground arith, ground arith)
      ]
    ]
  ]

  flag_found :
      (name : String) (fs : Fields fl.Float)
      → field_holds fl name (λ v. ok (is_flag fl v)) fs ≡ ok true
      → (b : Bool) × (flag_at fl name (obj fs) ≡ ok b)
  flag_found name fs h = elim (Option-cases (find name fs)) [
    | inl p ↦ absurd (ground arith)
    | inr (bool b, p) ↦ (b, ground arith)
    | inr (null, p) ↦ absurd (ground arith)
    | inr (int n, p) ↦ absurd (ground arith)
    | inr (float x, p) ↦ absurd (ground arith)
    | inr (str s, p) ↦ absurd (ground arith)
    | inr (arr vs, p) ↦ absurd (ground arith)
    | inr (obj gs, p) ↦ absurd (ground arith)
  ]

  at_ok : (b : Bool) (x : Outcome Bool) → (if b then x else ok false) ≡ ok true → x ≡ ok true
  at_ok true x h = h
  at_ok false x h = cc

  -- A valid control is normalized to one in range.
  pub normalize_found :
      (control : Value fl.Float)
      → is_valid_vehicle_control fl control ≡ ok true
      → (c : Control fl) × (normalize_vehicle_control fl control ≡ ok c) × IsSafe c
  unfolding is_valid_vehicle_control normalize_vehicle_control
  normalize_found (obj fs) h =
      let (throttle, h1) =
        both-parts _ _
          (at_ok (all (has_field fl fs) (required_control_fields fl)) (commands_hold fl fs) h) in
      let (steer, h2) = both-parts _ _ h1 in
      let (brake, h3) = both-parts _ _ h2 in
      let (hand_brake, reverse) = both-parts _ _ h3 in
      let (t, t_at, t_in) = float_found "throttle" (zero_point fl) (one_point fl) fs throttle in
      let (s, s_at, s_in) = float_found "steer" (minus_one fl) (one_point fl) fs steer in
      let (b, b_at, b_in) = float_found "brake" (zero_point fl) (one_point fl) fs brake in
      let (p, p_at) = flag_found "hand_brake" fs hand_brake in
      let (r, r_at) = flag_found "reverse" fs reverse in
      (
        record { throttle = t; steer = s; brake = b; hand_brake = p; reverse = r },
        rw (t_at, s_at, b_at, p_at, r_at) refl,
        record { throttle_in = t_in; steer_in = s_in; brake_in = b_in },
      )
  normalize_found null h = cc
  normalize_found (bool b) h = cc
  normalize_found (int n) h = cc
  normalize_found (float x) h = cc
  normalize_found (str s) h = cc
  normalize_found (arr vs) h = cc

  accept_cases :
      (a : Adapter fl) (route control : Value fl.Float) (r : Ticked fl)
      → IsOrdered fl
      → accept_control fl a route control ≡ ok r
      → IsSafe (control_of fl r)
  unfolding accept_control
  accept_cases a route control r o h =
      let (b, valid, h0) = >>=-eq-ok (is_valid_vehicle_control fl control) _ h in
      elim (Bool-cases b) [
        | inl p ↦
            let (c, normal, safe) = normalize_found control (valid ∙ ap ok p) in
            let (c', normal', h1) =
              >>=-eq-ok (normalize_vehicle_control fl control) _ (at_true _ _ _ p h0) in
            let (command, got, h2) = >>=-eq-ok (get "route_command" route) _ h1 in
            transport (ap (λ x. IsSafe (control_of fl x)) (ok_unique refl h2))
              (transport (ap IsSafe (ok_unique normal normal')) safe)
        | inr p ↦
            transport (ap (λ x. IsSafe (control_of fl x)) (ok_unique refl (at_false _ _ _ p h0)))
              (safe_stop-IsSafe o)
      ]

  prediction_cases :
      (a : Adapter fl) (route : Value fl.Float) (p : Outcome (Value fl.Float)) (r : Ticked fl)
      → IsOrdered fl
      → on_prediction fl a route p ≡ ok r
      → IsSafe (control_of fl r)
  prediction_cases a route (ok control) r o h = accept_cases a route control r o h
  prediction_cases a route (err e) r o h =
      transport (ap (λ x. IsSafe (control_of fl x)) (ok_unique refl h)) (safe_stop-IsSafe o)

  backend_cases :
      (a : Adapter fl) (backend : Option (Value fl.Float → Outcome (Value fl.Float)))
      (observation : Outcome (Value fl.Float)) (route : Value fl.Float) (r : Ticked fl)
      → IsOrdered fl
      → with_backend fl a backend observation route ≡ ok r
      → IsSafe (control_of fl r)
  backend_cases a none observation route r o h =
      transport (ap (λ x. IsSafe (control_of fl x)) (ok_unique refl h)) (safe_stop-IsSafe o)
  backend_cases a (some predict) observation route r o h =
      let (seen, built, h1) = >>=-eq-ok observation _ h in
      prediction_cases a route (predict seen) r o h1

  -- Whatever the backend predicts or raises, the control that a tick returns is in range: throttle
  -- and brake between 0 and 1, steering between -1 and 1. The floats -1, 0 and 1 are in order.
  pub tick-IsSafe :
      (a : Adapter fl) (sensors : Fields fl.Float) (ego_state route : Value fl.Float)
      (calibration metadata : Option (Value fl.Float)) (r : Ticked fl)
      → IsOrdered fl
      → tick fl a sensors ego_state route calibration metadata ≡ ok r
      → IsSafe (control_of fl r)
  unfolding tick
  tick-IsSafe a sensors ego_state route calibration metadata r o h =
      elim (Bool-cases (is_empty (keep (is_missing fl sensors) a.required_cameras))) [
        | inl none_missing ↦ backend_cases a a.backend _ route r o (at_true _ _ _ none_missing h)
        | inr missing ↦
            transport
              (ap (λ x. IsSafe (control_of fl x)) (ok_unique refl (at_false _ _ _ missing h)))
              (safe_stop-IsSafe o)
      ]

  cameras_chosen :
      (cameras : List String) (sensors : Fields fl.Float)
      → is_empty (keep (is_missing fl sensors) cameras) ≡ true
      → (chosen : Fields fl.Float) × (chosen_sensors fl cameras sensors ≡ ok chosen)
  unfolding chosen_sensors
  cameras_chosen [] sensors h = (end, refl)
  cameras_chosen (c ∷ cs) sensors h = elim (Option-cases (find c sensors)) [
    | inl p ↦ absurd (ground arith)
    | inr (v, p) ↦
        let (chosen, q) = cameras_chosen cs sensors (ground arith) in
        (field c v chosen, rw q (ground arith))
  ]

  -- The commands of an answer are no ints that no float holds.
  abbrev converts_at : Fields fl.Float → String → Bool
  converts_at fs name = elim (find name fs) [ none ↦ true | some v ↦ converts fl v ]

  abbrev pub commands_convert : Value fl.Float → Bool
  commands_convert (obj fs) =
      converts_at fs "throttle" && converts_at fs "steer" && converts_at fs "brake"
  commands_convert _ = true

  -- Whatever the backend answers, its commands are no ints that no float holds.
  abbrev pub AnswersConvert : Adapter fl → Type 0
  AnswersConvert a =
      (predict : Value fl.Float → Outcome (Value fl.Float)) (seen control : Value fl.Float)
      → a.backend ≡ some predict
      → predict seen ≡ ok control
      → commands_convert control ≡ true

  abbrev Tells : Outcome Bool → Type 0
  Tells x = (b : Bool) × (x ≡ ok b)

  both-Tells : (x y : Outcome Bool) → Tells x → Tells y → Tells (both fl x y)
  both-Tells x y (true, p) h = rw p h
  both-Tells x y (false, p) h = rw p (false, refl)

  in_range-Tells :
      (lower upper : fl.Float) (v : Value fl.Float)
      → converts fl v ≡ true
      → Tells (in_range fl lower upper v)
  in_range-Tells lower upper v h = (within_option fl lower upper (as_float fl v), rw h refl)

  found-Tells :
      (name : String) (test : Value fl.Float → Outcome Bool) (fs : Fields fl.Float)
      → ((v : Value fl.Float) → find name fs ≡ some v → Tells (test v))
      → Tells (field_holds fl name test fs)
  found-Tells name test fs h = elim (Option-cases (find name fs)) [
    | inl p ↦ (false, ground arith)
    | inr (v, p) ↦ let (b, q) = h v p in (b, ground arith)
  ]

  range-Tells :
      (name : String) (lower upper : fl.Float) (fs : Fields fl.Float)
      → converts_at fs name ≡ true
      → Tells (field_holds fl name (in_range fl lower upper) fs)
  range-Tells name lower upper fs h =
      found-Tells name (in_range fl lower upper) fs
        λ v p. in_range-Tells lower upper v (ground arith)

  flag-Tells :
      (name : String) (fs : Fields fl.Float)
      → Tells (field_holds fl name (λ v. ok (is_flag fl v)) fs)
  flag-Tells name fs = found-Tells name (λ v. ok (is_flag fl v)) fs λ v p. (is_flag fl v, refl)

  if_Tells : (b : Bool) (x : Outcome Bool) → Tells x → Tells (if b then x else ok false)
  if_Tells true x h = h
  if_Tells false x h = (false, refl)

  valid-Tells :
      (control : Value fl.Float)
      → commands_convert control ≡ true
      → Tells (is_valid_vehicle_control fl control)
  unfolding is_valid_vehicle_control
  valid-Tells (obj fs) h =
      let (h1, brake) = and_parts _ _ h in
      let (throttle, steer) = and_parts _ _ h1 in
      if_Tells _ _ (
        both-Tells _ _ (range-Tells "throttle" _ _ fs throttle) (
          both-Tells _ _ (range-Tells "steer" _ _ fs steer) (
            both-Tells _ _ (range-Tells "brake" _ _ fs brake)
              (both-Tells _ _ (flag-Tells "hand_brake" fs) (flag-Tells "reverse" fs)))))
  valid-Tells null h = (false, refl)
  valid-Tells (bool b) h = (false, refl)
  valid-Tells (int n) h = (false, refl)
  valid-Tells (float x) h = (false, refl)
  valid-Tells (str s) h = (false, refl)
  valid-Tells (arr vs) h = (false, refl)

  accept_total :
      (a : Adapter fl) (route : Fields fl.Float) (control : Value fl.Float)
      → commands_convert control ≡ true
      → (r : Ticked fl) × (accept_control fl a (obj route) control ≡ ok r)
  unfolding accept_control
  accept_total a route control small =
      let (b, told) = valid-Tells control small in
      elim (Bool-cases b) [
        | inr invalid ↦
            (fallback "invalid_control" [] (safe_stop fl), rw (told ∙ ap ok invalid) refl)
        | inl p ↦
            let valid = told ∙ ap ok p in
            let (c, normal, safe) = normalize_found control valid in
            elim (Option-cases (find "route_command" route)) [
              | inl q ↦
                  (driven c (length a.required_cameras) null, rw (valid, normal) (ground arith))
              | inr (v, q) ↦
                  (driven c (length a.required_cameras) v, rw (valid, normal) (ground arith))
            ]
      ]

  prediction_total :
      (a : Adapter fl) (route : Fields fl.Float) (p : Outcome (Value fl.Float))
      → ((control : Value fl.Float) → p ≡ ok control → commands_convert control ≡ true)
      → (r : Ticked fl) × (on_prediction fl a (obj route) p ≡ ok r)
  prediction_total a route (ok control) small = accept_total a route control (small control refl)
  prediction_total a route (err e) small = (fallback "backend_exception" [] (safe_stop fl), refl)

  with_backend_total :
      (a : Adapter fl) (backend : Option (Value fl.Float → Outcome (Value fl.Float)))
      (chosen : Fields fl.Float) (ego_state : Value fl.Float) (route : Fields fl.Float)
      (calibration metadata : Option (Value fl.Float))
      → a.backend ≡ backend
      → AnswersConvert a
      → (r : Ticked fl) × (with_backend fl a backend
            (ok (observed fl a chosen ego_state (obj route) calibration metadata))
            (obj route)
          ≡ ok r)
  with_backend_total a none chosen ego_state route calibration metadata own small =
      (fallback "backend_unavailable" [] (safe_stop fl), refl)
  with_backend_total a (some predict) chosen ego_state route calibration metadata own small =
      prediction_total a route
        (predict (observed fl a chosen ego_state (obj route) calibration metadata))
        (λ control h. small predict _ control own h)

  -- A tick on a route that is a dict raises nothing, whatever sensors came, whether there is a
  -- backend, and whatever it predicts or raises, if the commands that it predicts are no ints that no
  -- float holds.
  pub tick_total :
      (a : Adapter fl) (sensors : Fields fl.Float) (ego_state : Value fl.Float)
      (route : Fields fl.Float) (calibration metadata : Option (Value fl.Float))
      → AnswersConvert a
      → (r : Ticked fl) × (tick fl a sensors ego_state (obj route) calibration metadata ≡ ok r)
  unfolding tick build_observation
  tick_total a sensors ego_state route calibration metadata small =
      elim (Bool-cases (is_empty (keep (is_missing fl sensors) a.required_cameras))) [
        | inr missing ↦ (
          fallback "missing_required_sensor" (keep (is_missing fl sensors) a.required_cameras)
              (safe_stop fl),
          rw missing refl,
        )
        | inl complete ↦
            let (chosen, built) = cameras_chosen a.required_cameras sensors complete in
            let (r, done) =
              with_backend_total a a.backend chosen ego_state route calibration metadata refl
                small in
            (r, rw (complete, built) done)
      ]
