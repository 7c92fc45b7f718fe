-- ===== src/Observation.antt =====
-- agents/ego_observation.py: the aggregation of one tick's cameras, ego state and route, and the
-- check of a camera calibration.
pub mod SameTick
use closed_loop_bench.Base.{
  ℕ, ◌-◌, suc, String, ◌<>◌, Bool, true, false, ◌==◌, ◌&&◌, ◌||◌, not, eqb, ltb, List, [], ◌∷◌,
  ◌++◌, map, keep, any, all, is_empty, Option, none, some, if◌then◌else◌,
}
use closed_loop_bench.Base.Outcome.{Outcome, ok, err, value_error, refuse, guard, ◌>>=◌, ◌>>◌}
use closed_loop_bench.Json.{
  ℤ, pos, negsuc, Floats, Value, Items, nil, item, Fields, end, field, null, bool, int, float, str,
  arr, obj, find, as_float, is_null,
}
use closed_loop_bench.Matrix.Groups.{lookup, put}

abbrev pub ego_state_fields : List String
ego_state_fields = "speed_mps" ∷ "pose" ∷ "velocity" ∷ "acceleration" ∷ []

abbrev pub route_fields : List String
route_fields = "route_waypoints" ∷ "route_command" ∷ "target_point" ∷ []

-- The id of a simulator tick.
pub data Frame : Type 0 where
  index : ℕ → Frame
  label : String → Frame

abbrev pub same_frame : Frame → Frame → Bool
same_frame (index m) (index n) = eqb m n
same_frame (label s) (label t) = s == t
same_frame _ _ = false

abbrev pub camera_channel : String → String
camera_channel name = "camera:" <> name

abbrev pub same_name : String → String → Bool
same_name s t = s == t

module _ (fl : Floats) where
  abbrev pub Data : Type 0
  Data = Value fl.Float

  -- A finite number; a bool is one.
  abbrev pub finite_option : Option fl.Float → Bool
  finite_option none = false
  finite_option (some x) = fl.is_finite x

  abbrev pub finite_row : ℕ → Items fl.Float → Bool
  finite_row n nil = eqb n 0
  finite_row n (item v vs) = ltb 0 n && finite_option (as_float fl v) && finite_row (n - 1) vs

  abbrev pub finite_rows : ℕ → ℕ → Items fl.Float → Bool
  finite_rows m n nil = eqb m 0
  finite_rows m n (item v vs) =
      ltb 0 m && (elim v [ arr ws ↦ finite_row n ws | _ ↦ false ]) && finite_rows (m - 1) n vs

  -- `_finite_matrix`
  unfoldable pub finite_matrix : Data → ℕ → ℕ → Bool
  finite_matrix (arr vs) rows columns = finite_rows rows columns vs
  finite_matrix _ rows columns = false

  abbrev pub look_up : String → Fields fl.Float → Data
  look_up k fs = elim (find k fs) [ none ↦ null | some v ↦ v ]

  -- A positive int; `True` counts as 1.
  abbrev pub is_size : Data → Bool
  is_size (int (pos n)) = ltb 0 n
  is_size (bool b) = b
  is_size _ = false

  -- `none` where the calibration is valid.
  unfoldable pub validate_camera_calibration : Data → Option String
  validate_camera_calibration (obj fs) =
      if not (is_size (look_up "width" fs))
      then some "calibration width must be a positive integer"
      else if not (is_size (look_up "height" fs))
      then some "calibration height must be a positive integer"
      else if not (finite_matrix (look_up "intrinsic" fs) 3 3)
      then some "calibration intrinsic must be a finite 3x3 matrix"
      else if not (finite_matrix (look_up "sensor_to_ego" fs) 4 4)
      then some "calibration sensor_to_ego must be a finite 4x4 matrix"
      else none
  validate_camera_calibration _ = some "calibration must be an object"

  pub record Sample : Type 0 where
    pub value : Data
    pub frame_id : Frame
    pub t_sec : fl.Float
    pub calibration : Data

  pub record Aggregator : Type 0 where
    pub required_cameras : List String
    pub timeout_sec : fl.Float
    pub max_skew_sec : fl.Float
    pub require_calibration : Bool
    pub channels : List (String × Sample)

  unfoldable pub create : List String → fl.Float → fl.Float → Bool → Outcome Aggregator
  create required_cameras timeout_sec max_skew_sec require_calibration = do
    refuse (is_empty required_cameras) (value_error "at least one required camera is needed")
    refuse
        (fl.le_float timeout_sec (fl.of_int (pos 0))
          || fl.lt_float max_skew_sec (fl.of_int (pos 0)))
        (value_error "timeout_sec must be positive and max_skew_sec non-negative")
    ok (record {
      required_cameras = required_cameras;
      timeout_sec = timeout_sec;
      max_skew_sec = max_skew_sec;
      require_calibration = require_calibration;
      channels = [];
    })

  abbrev pub frame_of : Data → Outcome Frame
  frame_of (int (pos n)) = ok (index n)
  frame_of (str s) =
      if s == ""
      then err (value_error "frame_id must be a non-negative integer or non-empty string")
      else ok (label s)
  frame_of _ = err (value_error "frame_id must be a non-negative integer or non-empty string")

  -- `_sample`
  unfoldable pub sample : Data → Data → fl.Float → Data → Outcome Sample
  sample value frame_id t_sec calibration = do
    frame ← frame_of frame_id
    refuse (not (fl.is_finite t_sec) || fl.lt_float t_sec (fl.of_int (pos 0)))
        (value_error "t_sec must be finite and non-negative")
    ok (record { value = value; frame_id = frame; t_sec = t_sec; calibration = calibration })

  unfoldable pub receive : Aggregator → String → Outcome Sample → Outcome Aggregator
  receive a channel made = do
    s ← made
    ok (record a { channels = put same_name channel s a.channels })

  unfoldable pub receive_camera :
      Aggregator → String → Data → Data → fl.Float → Data → Outcome Aggregator
  receive_camera a camera value frame_id t_sec calibration = do
    guard (any (λ c. c == camera) a.required_cameras) (value_error "unexpected camera channel")
    receive a (camera_channel camera) (sample value frame_id t_sec calibration)

  unfoldable pub receive_ego_state : Aggregator → Data → Data → fl.Float → Outcome Aggregator
  receive_ego_state a value frame_id t_sec =
      receive a "ego_state" (sample value frame_id t_sec null)

  unfoldable pub receive_route : Aggregator → Data → Data → fl.Float → Outcome Aggregator
  receive_route a value frame_id t_sec = receive a "route" (sample value frame_id t_sec null)

  -- Why a tick is blocked, with the detail that goes with it.
  pub data Reason : Type 0 where
    missing_channel : List String → Reason
    tick_mismatch : List (String × Frame) → Reason
    unexpected_tick : Frame → Frame → Reason
    future_observation : fl.Float → Reason
    stale_observation : fl.Float → Reason
    timestamp_skew : fl.Float → Reason
    invalid_ego_state : List String → Reason
    invalid_route : List String → Reason
    invalid_sensor : String → Reason
    invalid_calibration : String → String → Reason

  pub record Observation : Type 0 where
    pub frame_id : Frame
    pub t_sec : fl.Float
    pub sensors : List (String × Data)
    pub calibration : List (String × Data)
    pub ego_state : Data
    pub route : Data

  pub data Built : Type 0 where
    blocked : Reason → Built
    ready : Observation → Built

  abbrev pub required_channels : Aggregator → List String
  required_channels a = map camera_channel a.required_cameras ++ ("ego_state" ∷ "route" ∷ [])

  abbrev pub channel : String → Aggregator → Option Sample
  channel name a = lookup same_name name a.channels

  abbrev pub is_absent : Aggregator → String → Bool
  is_absent a name = elim (channel name a) [ none ↦ true | some s ↦ false ]

  -- `{name: self._channels[name] for name in required}`; a name that is not there is left out.
  unfoldable pub gather : Aggregator → List String → List (String × Sample)
  gather a [] = []
  gather a (name ∷ names) = elim (channel name a) [
    | none ↦ gather a names
    | some s ↦ (name, s) ∷ gather a names
  ]

  -- `min(...)` and `max(...)`: the first of equal ones stays.
  unfoldable pub smallest : fl.Float → List (String × Sample) → fl.Float
  smallest best [] = best
  smallest best ((name, s) ∷ ss) = smallest (if fl.lt_float s.t_sec best then s.t_sec else best) ss

  unfoldable pub largest : fl.Float → List (String × Sample) → fl.Float
  largest best [] = best
  largest best ((name, s) ∷ ss) = largest (if fl.lt_float best s.t_sec then s.t_sec else best) ss

  -- `_missing_fields`
  abbrev pub is_missing_field : Fields fl.Float → String → Bool
  is_missing_field fs name = is_null (look_up name fs)

  abbrev pub missing_fields : Data → List String → List String
  missing_fields (obj fs) required = keep (is_missing_field fs) required
  missing_fields _ required = required

  abbrev pub calibration_error : Aggregator → Sample → Option String
  calibration_error a s =
      if a.require_calibration then validate_camera_calibration s.calibration else none

  -- One camera: its sample has data and, where it is wanted, a valid calibration.
  abbrev pub check_camera : Aggregator → String → Sample → Option Reason
  check_camera a camera s =
      if is_null s.value then some (invalid_sensor camera) else elim (calibration_error a s) [
        | none ↦ none
        | some text ↦ some (invalid_calibration camera text)
      ]

  unfoldable pub check_cameras : Aggregator → List String → Option Reason
  check_cameras a [] = none
  check_cameras a (camera ∷ cameras) = elim (channel (camera_channel camera) a) [
    | none ↦ some (missing_channel (camera ∷ []))
    | some s ↦ elim (check_camera a camera s) [
      | none ↦ check_cameras a cameras
      | some reason ↦ some reason
    ]
  ]

  unfoldable pub camera_data : (Sample → Data) → Aggregator → List String → List (String × Data)
  camera_data f a [] = []
  camera_data f a (camera ∷ cameras) = elim (channel (camera_channel camera) a) [
    | none ↦ camera_data f a cameras
    | some s ↦ (camera, f s) ∷ camera_data f a cameras
  ]

  abbrev pub differs : Frame → String × Sample → Bool
  differs frame e = not (same_frame e.1.frame_id frame)

  abbrev pub is_unexpected : Option Frame → Frame → Bool
  is_unexpected none frame = false
  is_unexpected (some expected) frame = not (same_frame frame expected)

  abbrev pub unexpected : Option Frame → Frame → Reason
  unexpected none frame = unexpected_tick frame frame
  unexpected (some expected) frame = unexpected_tick expected frame

  abbrev pub finished : Aggregator → Frame → fl.Float → Sample → Sample → Observation
  finished a frame newest ego route = record {
    frame_id = frame;
    t_sec = newest;
    sensors = camera_data (λ s. s.value) a a.required_cameras;
    calibration = camera_data (λ s. s.calibration) a a.required_cameras;
    ego_state = ego.value;
    route = route.value;
  }

  -- The end of `build`, on the samples of the ego state and of the route.
  unfoldable pub finish : Aggregator → Frame → fl.Float → Sample → Sample → Built
  finish a frame newest ego route =
      let missing_state = missing_fields ego.value ego_state_fields in
      let missing_route = missing_fields route.value route_fields in
      if not (is_empty missing_state)
      then blocked (invalid_ego_state missing_state)
      else if not (is_empty missing_route)
      then blocked (invalid_route missing_route)
      else elim (check_cameras a a.required_cameras) [
        | some reason ↦ blocked reason
        | none ↦ ready (finished a frame newest ego route)
      ]

  -- The checks of the ages, then the end.
  unfoldable pub check_times :
      Aggregator → fl.Float → Frame → fl.Float → fl.Float → Sample → Sample → Built
  check_times a now frame oldest newest ego route =
      let age = fl.sub now oldest in
      if fl.lt_float age (fl.neg a.max_skew_sec)
      then blocked (future_observation age)
      else if fl.lt_float a.timeout_sec age
      then blocked (stale_observation age)
      else if fl.lt_float a.max_skew_sec (fl.sub newest oldest)
      then blocked (timestamp_skew (fl.sub newest oldest))
      else finish a frame newest ego route

  -- The checks of the frames, on the samples of all required channels.
  unfoldable pub check_frames :
      Aggregator → fl.Float → Option Frame → List (String × Sample) → Sample → Sample → Built
  check_frames a now expected [] ego route = blocked (tick_mismatch [])
  check_frames a now expected ((name, s) ∷ samples) ego route =
      if any (differs s.frame_id) samples
      then blocked (tick_mismatch (map (λ e. (e.0, e.1.frame_id)) ((name, s) ∷ samples)))
      else if is_unexpected expected s.frame_id
      then blocked (unexpected expected s.frame_id)
      else check_times a now s.frame_id (smallest s.t_sec samples) (largest s.t_sec samples) ego
          route

  abbrev pub with_both :
      Aggregator → fl.Float → Option Frame → Option Sample → Option Sample → Built
  with_both a now expected (some ego) (some route) =
      check_frames a now expected (gather a (required_channels a)) ego route
  with_both a now expected ego route = blocked (missing_channel [])

  unfoldable pub build : Aggregator → fl.Float → Option Frame → Built
  build a now expected =
      let missing = keep (is_absent a) (required_channels a) in
      if is_empty missing
      then with_both a now expected (channel "ego_state" a) (channel "route" a)
      else blocked (missing_channel missing)
