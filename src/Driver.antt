-- ===== src/Driver.antt =====
-- agents/tcp_runtime_adapter.py: one tick of the driving algorithm, which gives a control or a safe
-- stop. The model that the backend runs is a parameter, which does not change what it is shown.
pub mod Safe
use closed_loop_bench.Base.{
  ℕ, suc, String, Bool, true, false, ◌&&◌, not, List, [], ◌∷◌, keep, all, length, is_empty, Option,
  none, some, if◌then◌else◌,
}
use closed_loop_bench.Base.Outcome.{
  Outcome, ok, err, Error, key_error, type_error, overflow_error, guard, ◌>>=◌, ◌>>◌,
}
use closed_loop_bench.Json.{
  ℤ, pos, negsuc, Floats, Value, Fields, end, field, null, bool, int, float, obj, find, get, at,
  as_float, converts, of_bool, size,
}

module _ (fl : Floats) where
  abbrev pub Data : Type 0
  Data = Value fl.Float

  -- A control that was normalized.
  pub record Control : Type 0 where
    pub throttle : fl.Float
    pub steer : fl.Float
    pub brake : fl.Float
    pub hand_brake : Bool
    pub reverse : Bool

  abbrev pub zero_point : fl.Float
  zero_point = fl.of_int (pos 0)

  abbrev pub one_point : fl.Float
  one_point = fl.of_int (pos 1)

  abbrev pub minus_one : fl.Float
  minus_one = fl.of_int (negsuc 0)

  abbrev pub safe_stop : Control
  safe_stop = record {
    throttle = zero_point;
    steer = zero_point;
    brake = one_point;
    hand_brake = false;
    reverse = false;
  }

  -- What `tick` returns: a fallback with its reason, or a control of the backend.
  pub data Ticked : Type 0 where
    fallback : String → List String → Control → Ticked
    driven : Control → ℕ → Data → Ticked

  abbrev pub control_of : Ticked → Control
  control_of (fallback reason missing c) = c
  control_of (driven c sensor_count route_command) = c

  -- `lower <= x <= upper`
  abbrev pub within : fl.Float → fl.Float → fl.Float → Bool
  within lower upper x = fl.le_float lower x && fl.le_float x upper

  abbrev pub within_option : fl.Float → fl.Float → Option fl.Float → Bool
  within_option lower upper none = false
  within_option lower upper (some x) = within lower upper x

  -- `_in_range`: an int that no float holds raises an exception.
  abbrev pub in_range : fl.Float → fl.Float → Data → Outcome Bool
  in_range lower upper v =
      guard (converts fl v) overflow_error >> ok (within_option lower upper (as_float fl v))

  abbrev pub is_flag : Data → Bool
  is_flag (bool b) = true
  is_flag _ = false

  -- `test(control[name])` of a field that is there
  abbrev pub field_holds : String → (Data → Outcome Bool) → Fields fl.Float → Outcome Bool
  field_holds name test fs = elim (find name fs) [ none ↦ ok false | some v ↦ test v ]

  -- `a and b`: where the first is False, the second is not looked at.
  abbrev pub both : Outcome Bool → Outcome Bool → Outcome Bool
  both (ok true) r = r
  both (ok false) r = ok false
  both (err e) r = err e

  abbrev pub required_control_fields : List String
  required_control_fields = "throttle" ∷ "steer" ∷ "brake" ∷ "hand_brake" ∷ "reverse" ∷ []

  abbrev pub has_field : Fields fl.Float → String → Bool
  has_field fs name = elim (find name fs) [ none ↦ false | some v ↦ true ]

  abbrev pub commands_hold : Fields fl.Float → Outcome Bool
  commands_hold fs = both (field_holds "throttle" (in_range zero_point one_point) fs) (
      both (field_holds "steer" (in_range minus_one one_point) fs) (
        both (field_holds "brake" (in_range zero_point one_point) fs) (
          both (field_holds "hand_brake" (λ v. ok (is_flag v)) fs)
            (field_holds "reverse" (λ v. ok (is_flag v)) fs))))

  unfoldable pub is_valid_vehicle_control : Data → Outcome Bool
  is_valid_vehicle_control (obj fs) =
      if all (has_field fs) required_control_fields then commands_hold fs else ok false
  is_valid_vehicle_control _ = ok false

  -- `float(control[name])`
  abbrev pub float_at : String → Data → Outcome fl.Float
  float_at name control = at name control >>= λ v.
      guard (converts fl v) overflow_error
      >> elim (as_float fl v) [ none ↦ err type_error | some x ↦ ok x ]

  -- `bool(control[name])` of a bool
  abbrev pub flag_at : String → Data → Outcome Bool
  flag_at name control = at name control >>= λ v. elim v [ bool b ↦ ok b | _ ↦ err type_error ]

  unfoldable pub normalize_vehicle_control : Data → Outcome Control
  normalize_vehicle_control control = do
    throttle ← float_at "throttle" control
    steer ← float_at "steer" control
    brake ← float_at "brake" control
    hand_brake ← flag_at "hand_brake" control
    reverse ← flag_at "reverse" control
    ok (record {
      throttle = throttle;
      steer = steer;
      brake = brake;
      hand_brake = hand_brake;
      reverse = reverse;
    })

  -- A backend without `predict_control` is none; an exception that it raises is an error.
  pub record Adapter : Type 0 where
    pub backend : Option (Data → Outcome Data)
    pub io_contract : Data
    pub required_cameras : List String

  abbrev pub is_missing : Fields fl.Float → String → Bool
  is_missing sensors camera = elim (find camera sensors) [ none ↦ true | some v ↦ false ]

  -- `{camera: sensors[camera] for camera in required_cameras}`
  unfoldable pub chosen_sensors : List String → Fields fl.Float → Outcome (Fields fl.Float)
  chosen_sensors [] sensors = ok end
  chosen_sensors (camera ∷ cameras) sensors = do
    v ← at camera (obj sensors)
    rest ← chosen_sensors cameras sensors
    ok (field camera v rest)

  abbrev pub optional : String → Option Data → Fields fl.Float
  optional name none = end
  optional name (some v) = field name v end

  abbrev pub join_fields : Fields fl.Float → Fields fl.Float → Fields fl.Float
  join_fields end gs = gs
  join_fields (field k v fs) gs = field k v (join_fields fs gs)

  -- The observation of the sensors that were chosen.
  abbrev pub observed : Adapter → Fields fl.Float → Data → Data → Option Data → Option Data → Data
  observed a chosen ego_state route calibration metadata = obj (
      field "sensors" (obj chosen) (
        field "ego_state" ego_state (
          field "route" route (
            field "io_contract" a.io_contract (
              join_fields (optional "calibration" calibration)
                (optional "observation_metadata" metadata))))))

  unfoldable pub build_observation :
      Adapter → Fields fl.Float → Data → Data → Option Data → Option Data → Outcome Data
  build_observation a sensors ego_state route calibration metadata = do
    chosen ← chosen_sensors a.required_cameras sensors
    ok (observed a chosen ego_state route calibration metadata)

  abbrev pub stop : String → Ticked
  stop reason = fallback reason [] safe_stop

  -- A control that the backend gave.
  unfoldable pub accept_control : Adapter → Data → Data → Outcome Ticked
  accept_control a route control = is_valid_vehicle_control control >>= λ valid.
      if valid
      then (do
        c ← normalize_vehicle_control control
        command ← get "route_command" route
        ok (driven c (length a.required_cameras) command))
      else ok (stop "invalid_control")

  abbrev pub on_prediction : Adapter → Data → Outcome Data → Outcome Ticked
  on_prediction a route (err e) = ok (stop "backend_exception")
  on_prediction a route (ok control) = accept_control a route control

  abbrev pub with_backend :
      Adapter → Option (Data → Outcome Data) → Outcome Data → Data → Outcome Ticked
  with_backend a none observation route = ok (stop "backend_unavailable")
  with_backend a (some predict) observation route =
      observation >>= λ seen. on_prediction a route (predict seen)

  unfoldable pub tick :
      Adapter → Fields fl.Float → Data → Data → Option Data → Option Data → Outcome Ticked
  tick a sensors ego_state route calibration metadata =
      let missing = keep (is_missing sensors) a.required_cameras in
      if is_empty missing
      then with_backend a a.backend
          (build_observation a sensors ego_state route calibration metadata) route
      else ok (fallback "missing_required_sensor" missing safe_stop)
