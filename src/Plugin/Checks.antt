-- ===== src/Plugin/Checks.antt =====
-- `validate_capability`, `validate_plugin_lifecycle`, `validate_observation`, `validate_control` and
-- `_reason_code` of agents/plugin_contract.py.
use closed_loop_bench.Base.{
  ℕ, leb, String, Bool, true, false, ◌&&◌, ◌||◌, not, ◌==◌, List, [], ◌∷◌, all, Option, none, some,
  if◌then◌else◌,
}
use text.Mathlib.Text.{starts_with}
use closed_loop_bench.Base.Outcome.{
  Outcome, ok, err, contract_error, overflow_error, guard, refuse, ◌>>=◌, ◌>>◌,
}
use closed_loop_bench.Json.{
  pos, negsuc, Floats, Value, Items, nil, item, Fields, end, field, null, bool, int, float, str,
  arr, obj, find, get, at, is_null, is_obj, equals_int, converts,
}

abbrev pub has : {F : Type 0} → Fields F → String → Bool
has fs k = elim (find k fs) [ none ↦ false | some v ↦ true ]

-- `d.get(k, default)`
abbrev pub get_or : {F : Type 0} → String → Value F → Fields F → Value F
get_or k default fs = elim (find k fs) [ none ↦ default | some v ↦ v ]

-- `d[k] = v` and `d.setdefault(k, v)`
unfoldable pub put_field : {F : Type 0} → String → Value F → Fields F → Fields F
put_field k v end = field k v end
put_field k v (field j w fs) =
    let rest = put_field k v fs in if j == k then field j v fs else field j w rest

abbrev pub set_default : {F : Type 0} → String → Value F → Fields F → Fields F
set_default k v fs = elim (find k fs) [ none ↦ put_field k v fs | some w ↦ fs ]

abbrev pub is_false : {F : Type 0} → Value F → Bool
is_false (bool b) = not b
is_false _ = false

-- `isinstance(v, str) and v`
abbrev pub is_name : {F : Type 0} → Value F → Bool
is_name (str s) = not (s == "")
is_name _ = false

abbrev pub fails : {A : Type 0} → String → Outcome A
fails text = err (contract_error text)

abbrev pub capability_fields : List String
capability_fields =
    "algorithm_id" ∷ "uses_route" ∷ "uses_ego_state" ∷ "required_rgb_cameras" ∷ "requires_lidar"
    ∷ "is_perception_algorithm" ∷ "requires_gpu" ∷ "checkpoint_identity" ∷ "supported_control_hz"
    ∷ "timeout_sec" ∷ []

abbrev pub plugin_methods : List String
plugin_methods = "initialize" ∷ "reset" ∷ "predict_control" ∷ "health_check" ∷ "close" ∷ []

abbrev pub control_fields : List String
control_fields = "throttle" ∷ "steer" ∷ "brake" ∷ "hand_brake" ∷ "reverse" ∷ "source_frame_id" ∷ []

-- The names of a list of non-empty texts.
unfoldable pub names_of : {F : Type 0} → Items F → Outcome (List String)
names_of nil = ok []
names_of (item v vs) = elim v [
  | str s ↦ do
    refuse (s == "") (contract_error "required_rgb_cameras must be a list of names")
    rest ← names_of vs
    ok (s ∷ rest)
  | _ ↦ fails "required_rgb_cameras must be a list of names"
]

-- `_reason_code` of the message of a PluginContractError
abbrev known_reasons : List String
known_reasons =
    "stale_frame" ∷ "frame_mismatch" ∷ "missing_sensors" ∷ "missing_ego_state" ∷ "missing_route"
    ∷ "invalid_control" ∷ "health_check_failure" ∷ []

abbrev first_reason : String → List String → String
first_reason message [] = "contract_violation"
first_reason message (r ∷ rs) = if starts_with message r then r else first_reason message rs

abbrev pub reason_code : String → String
reason_code message = first_reason message known_reasons

module _ (fl : Floats) where
  abbrev pub Data : Type 0
  Data = Value fl.Float

  -- A capability that was validated: the fields of the dict.
  pub record Capability : Type 0 where
    pub algorithm_id : String
    pub uses_route : Bool
    pub uses_ego_state : Bool
    pub required_rgb_cameras : List String
    pub requires_lidar : Bool
    pub is_perception_algorithm : Bool
    pub requires_gpu : Bool
    pub checkpoint_identity : Data
    pub supported_control_hz : fl.Float
    pub timeout_sec : fl.Float

  abbrev pub zero_float : fl.Float
  zero_float = fl.of_int (pos 0)

  -- `float(v)` of a finite int or float that is no bool. An int that no float holds raises an
  -- exception: the guards on `converts` before its uses.
  abbrev finite_or : fl.Float → Option fl.Float
  finite_or x = if fl.is_finite x then some x else none

  abbrev pub finite_number : Data → Option fl.Float
  finite_number (int n) = finite_or (fl.of_int n)
  finite_number (float x) = finite_or x
  finite_number _ = none

  -- `_finite_positive` and `_finite_nonnegative`
  abbrev pub finite_positive : Data → Bool
  finite_positive v = elim (finite_number v) [ none ↦ false | some x ↦ fl.lt_float zero_float x ]

  abbrev pub finite_nonnegative : Data → Bool
  finite_nonnegative v = elim (finite_number v) [ none ↦ false | some x ↦ fl.le_float zero_float x ]

  abbrev pub capability_flag : String → Fields fl.Float → Outcome Bool
  capability_flag name fs =
      at name (obj fs) >>= λ v. elim v [ bool b ↦ ok b | _ ↦ fails "capability must be boolean" ]

  abbrev pub positive_at : String → String → Fields fl.Float → Outcome fl.Float
  positive_at name text fs = do
    v ← at name (obj fs)
    guard (converts fl v) overflow_error
    elim (finite_number v) [
      | none ↦ fails text
      | some x ↦ if fl.lt_float zero_float x then ok x else fails text
    ]

  abbrev pub algorithm_id_at : Fields fl.Float → Outcome String
  algorithm_id_at fs = do
    v ← at "algorithm_id" (obj fs)
    elim v [
      | str s ↦ if s == "" then fails "capability algorithm_id must be non-empty" else ok s
      | _ ↦ fails "capability algorithm_id must be non-empty"
    ]

  abbrev pub cameras_at : Fields fl.Float → Outcome (List String)
  cameras_at fs = do
    v ← at "required_rgb_cameras" (obj fs)
    elim v [ arr vs ↦ names_of vs | _ ↦ fails "required_rgb_cameras must be a list of names" ]

  unfoldable pub validate_capability : Data → Outcome Capability
  validate_capability (obj fs) = do
    guard (all (has fs) capability_fields) (contract_error "plugin capability missing fields")
    algorithm_id ← algorithm_id_at fs
    cameras ← cameras_at fs
    uses_route ← capability_flag "uses_route" fs
    uses_ego_state ← capability_flag "uses_ego_state" fs
    requires_lidar ← capability_flag "requires_lidar" fs
    is_perception_algorithm ← capability_flag "is_perception_algorithm" fs
    requires_gpu ← capability_flag "requires_gpu" fs
    hz ← positive_at "supported_control_hz" "supported_control_hz must be finite and positive" fs
    timeout ← positive_at "timeout_sec" "timeout_sec must be finite and positive" fs
    identity ← at "checkpoint_identity" (obj fs)
    ok (record {
      algorithm_id = algorithm_id;
      uses_route = uses_route;
      uses_ego_state = uses_ego_state;
      required_rgb_cameras = cameras;
      requires_lidar = requires_lidar;
      is_perception_algorithm = is_perception_algorithm;
      requires_gpu = requires_gpu;
      checkpoint_identity = identity;
      supported_control_hz = hz;
      timeout_sec = timeout;
    })
  validate_capability _ = fails "plugin capability must be an object"

  -- `has_method` tells the attributes of the plugin that can be called.
  unfoldable pub validate_plugin_lifecycle : (String → Bool) → Data → Outcome Capability
  validate_plugin_lifecycle has_method capability = do
    guard (all has_method plugin_methods) (contract_error "plugin missing lifecycle methods")
    validate_capability capability

  -- A frame id is an int that is not negative.
  abbrev pub frame_number : Data → Outcome ℕ
  frame_number (int (pos n)) = ok n
  frame_number _ = fails "observation frame_id must be a non-negative integer"

  abbrev pub is_stale : Option ℕ → ℕ → Bool
  is_stale none n = false
  is_stale (some last) n = leb n last

  -- `validity.get(name) is False`
  abbrev pub is_off : Data → String → Outcome Bool
  is_off validity name = do v ← get name validity; ok (is_false v)

  abbrev pub camera_missing : Fields fl.Float → Data → String → Outcome Bool
  camera_missing rgb validity camera = elim (find camera rgb) [
    | none ↦ ok true
    | some v ↦ if is_null v then ok true else is_off validity camera
  ]

  -- Whether some required camera is missing; all of them are looked at.
  unfoldable pub any_missing : Fields fl.Float → Data → List String → Outcome Bool
  any_missing rgb validity [] = ok false
  any_missing rgb validity (c ∷ cs) = do
    missing ← camera_missing rgb validity c
    rest ← any_missing rgb validity cs
    ok (missing || rest)

  abbrev pub fields_of : String → Data → Outcome (Fields fl.Float)
  fields_of text (obj fs) = ok fs
  fields_of text _ = fails text

  abbrev pub check_lidar : Bool → Fields fl.Float → Data → Outcome (Unit {0})
  check_lidar false observation validity = ok tt
  check_lidar true observation validity =
      if is_null (get_or "lidar" null observation)
      then fails "missing_sensors: lidar"
      else (do off ← is_off validity "lidar"; refuse off (contract_error "missing_sensors: lidar"))

  abbrev pub check_synchronization : ℕ → Data → Outcome (Unit {0})
  check_synchronization frame_id null = ok tt
  check_synchronization frame_id (obj fs) =
      guard (equals_int fl (get_or "frame_id" (int (pos frame_id)) fs) (pos frame_id))
        (contract_error "frame_mismatch")
  check_synchronization frame_id _ = fails "synchronization must be an object"

  -- The frame id of the observation is returned.
  unfoldable pub validate_observation : Data → Capability → Option ℕ → Outcome ℕ
  validate_observation (obj fs) capability last_frame_id = do
    frame_id ← frame_number (get_or "frame_id" null fs)
    refuse (is_stale last_frame_id frame_id) (contract_error "stale_frame")
    guard (converts fl (get_or "timestamp" (get_or "t_sec" null fs) fs)) overflow_error
    guard (finite_nonnegative (get_or "timestamp" (get_or "t_sec" null fs) fs))
        (contract_error "observation timestamp must be finite and non-negative")
    let validity = get_or "sensor_validity" (obj end) fs
    guard (is_null validity || is_obj validity) (contract_error "sensor_validity must be an object")
    rgb ←
        fields_of "observation rgb/sensors must be an object"
          (get_or "rgb" (get_or "sensors" (obj end) fs) fs)
    missing ← any_missing rgb validity capability.required_rgb_cameras
    refuse missing (contract_error "missing_sensors: RGB cameras")
    check_lidar capability.requires_lidar fs validity
    refuse (capability.uses_ego_state && not (is_obj (get_or "ego_state" null fs)))
        (contract_error "missing_ego_state")
    refuse (capability.uses_route && not (is_obj (get_or "route" null fs)))
        (contract_error "missing_route")
    check_synchronization frame_id (get_or "synchronization" null fs)
    ok frame_id
  validate_observation _ capability last_frame_id = fails "observation must be an object"

  -- `float(control[name])`, finite and in range
  abbrev pub ranged_at : String → fl.Float → fl.Float → Fields fl.Float → Outcome fl.Float
  ranged_at name lower upper fs = do
    v ← at name (obj fs)
    guard (converts fl v) overflow_error
    elim (finite_number v) [
      | none ↦ fails "invalid_control: must be finite"
      | some x ↦
          if fl.le_float lower x && fl.le_float x upper
          then ok x
          else fails "invalid_control: outside its range"
    ]

  abbrev pub is_boolean : Data → Bool
  is_boolean (bool b) = true
  is_boolean _ = false

  unfoldable pub validate_control : Data → ℕ → Outcome (Fields fl.Float)
  validate_control (obj fs) expected_frame_id = do
    guard (all (has fs) control_fields) (contract_error "control missing fields")
    throttle ← ranged_at "throttle" zero_float (fl.of_int (pos 1)) fs
    steer ← ranged_at "steer" (fl.of_int (negsuc 0)) (fl.of_int (pos 1)) fs
    brake ← ranged_at "brake" zero_float (fl.of_int (pos 1)) fs
    hand_brake ← at "hand_brake" (obj fs)
    reverse ← at "reverse" (obj fs)
    guard (is_boolean hand_brake && is_boolean reverse)
        (contract_error "invalid_control: hand_brake/reverse must be boolean")
    source ← at "source_frame_id" (obj fs)
    guard (equals_int fl source (pos expected_frame_id)) (contract_error "frame_mismatch")
    ok (
        put_field "brake" (float brake)
          (put_field "steer" (float steer) (put_field "throttle" (float throttle) fs)))
  validate_control _ expected_frame_id = fails "control must be an object"
