-- ===== src/Report/Collector.antt =====
-- metrics/collector.py: a row of tick metrics, and the collector that keeps the rows of a run.
pub mod Collected
use closed_loop_bench.Base.{
  String, Bool, true, false, List, [], ◌∷◌, ◌++◌, Option, none, some, if◌then◌else◌,
}
use closed_loop_bench.Base.Outcome.{Outcome, ok, err, type_error, value_error, ◌>>=◌, ◌>>◌}
use closed_loop_bench.Json.{
  Floats, Value, Fields, end, field, null, bool, int, float, str, obj, as_float, truthy,
}
use closed_loop_bench.Report.Numbers.{Data, Row}

module _ (fl : Floats) where
  -- The keyword arguments of `add_tick`.
  pub record Tick : Type 0 where
    pub t_sec : Data fl
    pub ego_pose : Data fl
    pub ego_speed_mps : Data fl
    pub ego_control : Data fl
    pub actor_distances_m : Fields fl.Float
    pub ttc : Data fl
    pub collision : Data fl
    pub route_progress : Data fl
    pub hard_brake : Data fl
    pub jerk : Data fl
    pub longitudinal_acceleration_mps2 : Data fl
    pub actor_decisions : Data fl
    pub actor_control_evidence : Data fl
    pub following : Data fl
    pub post_encroachment_time_sec : Data fl
    pub drac_mps2 : Data fl
    pub control_latency_ms : Data fl
    pub control_timeout : Data fl
    pub control_fallback : Data fl
    pub actor_outcomes : Data fl
    pub sensor_dropped_frames : Data fl
    pub synchronization_error_ms : Data fl

  abbrev parsed_float : Option fl.Float → Outcome fl.Float
  parsed_float none = err (value_error "could not convert string to float")
  parsed_float (some x) = ok x

  abbrev number_or : Option fl.Float → Outcome fl.Float
  number_or none = err type_error
  number_or (some x) = ok x

  -- `float(v)`
  abbrev pub to_float : Data fl → Outcome fl.Float
  to_float (str s) = parsed_float (fl.float_of_text s)
  to_float v = number_or (as_float fl v)

  -- `float(v) if isinstance(v, (int, float)) else None`
  abbrev pub float_or_none : Data fl → Data fl
  float_or_none v = elim (as_float fl v) [ none ↦ null | some x ↦ float x ]

  -- `bool(v) if isinstance(v, bool) else None`
  abbrev pub bool_or_none : Data fl → Data fl
  bool_or_none (bool b) = bool b
  bool_or_none _ = null

  -- `int(v)` of an int that is no bool, else None
  abbrev pub int_or_none : Data fl → Data fl
  int_or_none (int n) = int n
  int_or_none _ = null

  -- `deepcopy(v or {})`
  abbrev pub or_object : Data fl → Data fl
  or_object v = if truthy fl v then v else obj end

  unfoldable pub float_distances : Fields fl.Float → Outcome (Fields fl.Float)
  float_distances end = ok end
  float_distances (field actor v fs) = do
    x ← to_float v
    rest ← float_distances fs
    ok (field actor (float x) rest)

  abbrev ego_of : Tick → fl.Float → Data fl
  ego_of a speed = obj (
      field "pose" a.ego_pose (field "speed_mps" (float speed) (field "control" a.ego_control end)))

  abbrev comfort_fields : Tick → Fields fl.Float
  comfort_fields a =
      field "longitudinal_acceleration_mps2" (float_or_none a.longitudinal_acceleration_mps2) (
        field "jerk" (float_or_none a.jerk) (
          field "following" (bool_or_none a.following) (
            field "post_encroachment_time_sec" (float_or_none a.post_encroachment_time_sec) (
              field "drac_mps2" (float_or_none a.drac_mps2) (
                field "control_latency_ms" (float_or_none a.control_latency_ms) (
                  field "control_timeout" (bool_or_none a.control_timeout) (
                    field "control_fallback" (bool_or_none a.control_fallback) (
                      field "actor_outcomes" (or_object a.actor_outcomes) (
                        field "sensor_dropped_frames" (int_or_none a.sensor_dropped_frames) (
                          field "synchronization_error_ms"
                            (float_or_none a.synchronization_error_ms) end))))))))))

  unfoldable pub build_tick_row : Tick → Outcome (Row fl)
  build_tick_row a = do
    t_sec ← to_float a.t_sec
    speed ← to_float a.ego_speed_mps
    distances ← float_distances a.actor_distances_m
    progress ← to_float a.route_progress
    ok (
        field "t_sec" (float t_sec) (
          field "ego" (ego_of a speed) (
            field "actor_distances_m" (obj distances) (
              field "actor_decisions" (or_object a.actor_decisions) (
                field "actor_control_evidence" (or_object a.actor_control_evidence) (
                  field "ttc" (float_or_none a.ttc) (
                    field "min_ttc" (float_or_none a.ttc) (
                      field "collision" (bool_or_none a.collision) (
                        field "route_progress" (float progress) (
                          field "hard_brake" (bool (truthy fl a.hard_brake))
                            (comfort_fields a)))))))))))

  -- The rows of a collector, and the row that `add_tick` returns.
  abbrev pub Collector : Type 0
  Collector = List (Row fl)

  unfoldable pub add_tick : Tick → Collector → Outcome (Row fl × Collector)
  add_tick a rows = build_tick_row a >>= λ row. ok (row, rows ++ (row ∷ []))

  -- The ticks of a run, one after the other.
  unfoldable pub collect : List Tick → Collector → Outcome Collector
  collect [] rows = ok rows
  collect (tick ∷ ticks) rows = add_tick tick rows >>= λ r. collect ticks r.1
