-- ===== src/Bridge.antt =====
-- agents/ros2_tcp_bridge.py: one tick of the bridge, which joins the aggregator of observations and
-- the driving adapter; what it publishes is the control of its result.
pub mod FailClosed
use closed_loop_bench.Base.{String, List, [], ◌∷◌, Option, none, some}
use closed_loop_bench.Base.Outcome.{Outcome, ok, err, value_error, type_error, ◌>>=◌}
use closed_loop_bench.Json.{
  Floats, Value, Fields, end, field, null, int, float, str, obj, pos, find, as_float,
}
use closed_loop_bench.Observation.{
  receive_camera, receive_ego_state, receive_route, Frame, index, label, Aggregator, Reason,
  Observation, Built, blocked, ready, build,
}
use closed_loop_bench.Driver.{Control, Ticked, Adapter, control_of, safe_stop, tick}

module _ (fl : Floats) where
  -- The observation was blocked, or the adapter ticked.
  pub data Result : Type 0 where
    held : Reason fl → Control fl → Result
    ticked : Ticked fl → Result

  -- The control that is published.
  abbrev pub published : Result → Control fl
  published (held reason c) = c
  published (ticked t) = control_of fl t

  abbrev pub fields_of : List (String × Value fl.Float) → Fields fl.Float
  fields_of [] = end
  fields_of ((k, v) ∷ rest) = field k v (fields_of rest)

  abbrev pub frame_value : Frame → Value fl.Float
  frame_value (index n) = int (pos n)
  frame_value (label s) = str s

  abbrev pub metadata_of : Observation fl → Value fl.Float
  metadata_of o = obj (
      field "frame_id" (frame_value o.frame_id)
        (field "t_sec" (float o.t_sec) (field "source" (str "carla_current_tick") end)))

  abbrev pub on_build : Adapter fl → Built fl → Outcome Result
  on_build adapter (blocked reason) = ok (held reason (safe_stop fl))
  on_build adapter (ready o) =
      tick fl adapter (fields_of o.sensors) o.ego_state o.route
        (some (obj (fields_of o.calibration))) (some (metadata_of o))
      >>= λ t. ok (ticked t)

  unfoldable pub bridge_tick : Aggregator fl → Adapter fl → fl.Float → Outcome Result
  bridge_tick aggregator adapter now = on_build adapter (build fl aggregator now none)

  -- `float(v)`
  abbrev pub float_of : Value fl.Float → Outcome fl.Float
  float_of (str s) = elim (fl.float_of_text s) [
    | none ↦ err (value_error "could not convert string to float")
    | some x ↦ ok x
  ]
  float_of v = elim (as_float fl v) [ none ↦ err type_error | some x ↦ ok x ]

  -- `_decode_message`
  unfoldable pub decode_message : Value fl.Float → Value fl.Float
  decode_message (obj fs) = elim (find "data" fs) [ none ↦ obj fs | some v ↦ v ]
  decode_message v = v

  abbrev pub stamp_of : Fields fl.Float → Outcome fl.Float
  stamp_of fs = elim (find "stamp" fs) [ none ↦ ok (fl.of_int (pos 0)) | some v ↦ float_of v ]

  -- `_timestamp` of a message that comes without a time of its own
  unfoldable pub timestamp : Value fl.Float → Outcome fl.Float
  timestamp (obj fs) = elim (find "t_sec" fs) [ none ↦ stamp_of fs | some v ↦ float_of v ]
  timestamp _ = ok (fl.of_int (pos 0))

  abbrev pub look_up : String → Fields fl.Float → Value fl.Float
  look_up k fs = elim (find k fs) [ none ↦ null | some v ↦ v ]

  abbrev pub or_no_frame : Value fl.Float → Outcome (Value fl.Float)
  or_no_frame null = err (value_error "message requires frame_id for same-tick aggregation")
  or_no_frame v = ok v

  -- `_frame_id` of such a message
  unfoldable pub frame_id : Value fl.Float → Outcome (Value fl.Float)
  frame_id (obj fs) = or_no_frame (look_up "frame_id" fs)
  frame_id _ = or_no_frame null

  -- `_metadata(message, "calibration")`
  abbrev pub calibration_of : Value fl.Float → Value fl.Float
  calibration_of (obj fs) = look_up "calibration" fs
  calibration_of _ = null

  -- The callbacks of the subscriptions, which get a message alone.
  unfoldable pub receive_sensor : Aggregator fl → String → Value fl.Float → Outcome (Aggregator fl)
  receive_sensor a camera message = frame_id message >>= λ frame. timestamp message >>= λ t_sec.
      receive_camera fl a camera (decode_message message) frame t_sec (calibration_of message)

  unfoldable pub on_ego_state : Aggregator fl → Value fl.Float → Outcome (Aggregator fl)
  on_ego_state a message = frame_id message >>= λ frame.
      timestamp message >>= λ t_sec. receive_ego_state fl a (decode_message message) frame t_sec

  unfoldable pub on_route : Aggregator fl → Value fl.Float → Outcome (Aggregator fl)
  on_route a message = frame_id message >>= λ frame.
      timestamp message >>= λ t_sec. receive_route fl a (decode_message message) frame t_sec
