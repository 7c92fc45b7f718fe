-- ===== src/Plugin/Executor.antt =====
-- AlgorithmPluginExecutor of agents/plugin_contract.py: its state and its operations. What the plugin
-- answers to a call is an argument of the operation: a value, or the exception that it raises.
use closed_loop_bench.Base.{
  ℕ, String, Bool, true, false, ◌&&◌, ◌||◌, not, ◌==◌, List, [], ◌∷◌, any, Option, none, some,
  if◌then◌else◌,
}
use closed_loop_bench.Base.Outcome.{
  Outcome, ok, err, Error, type_error, contract_error, guard, ◌>>=◌, ◌>>◌,
}
use closed_loop_bench.Json.{pos, Floats, Fields, end, field, null, bool, float, str, arr, obj}
use closed_loop_bench.Plugin.Checks.{
  Data, Capability, get_or, put_field, set_default, is_false, zero_float, fails, reason_code,
  validate_capability, validate_plugin_lifecycle, validate_observation, validate_control,
}
use closed_loop_bench.Plugin.Identity.{Host, build_plugin_identity}

abbrev evidence_classifications : List String
evidence_classifications =
    "offline_conformance" ∷ "control_only" ∷ "perception_eligible" ∷ "quality_stress"
    ∷ "remote_validation_required" ∷ []

module _ (fl : Floats) where
  pub record Executor : Type 0 where
    pub capability : Capability fl
    pub identity : Data fl
    pub evidence_classification : String
    pub initialized : Bool
    pub reset_complete : Bool
    pub closed : Bool
    pub last_frame_id : Option ℕ

  -- `__init__`
  unfoldable pub create_executor :
      Host fl → (String → Bool) → Data fl → Fields fl.Float → Bool → String → Outcome Executor
  create_executor H has_method capability config already_initialized evidence = do
    validate_plugin_lifecycle fl has_method capability
    guard (any (λ c. evidence == c) evidence_classifications)
        (contract_error "unknown evidence_classification")
    valid ← validate_capability fl capability
    identity ← build_plugin_identity fl H config valid
    ok (record {
      capability = valid;
      identity = identity;
      evidence_classification = evidence;
      initialized = already_initialized;
      reset_complete = false;
      closed = false;
      last_frame_id = none;
    })

  -- `health.get("status") not in {None, "ready", "healthy", "ok"}`: a list or a dict has no hash.
  abbrev pub check_status : Data fl → Outcome (Unit {0})
  check_status null = ok tt
  check_status (str s) =
      guard (s == "ready" || s == "healthy" || s == "ok") (contract_error "health_check_failure")
  check_status (arr vs) = err type_error
  check_status (obj fs) = err type_error
  check_status _ = fails "health_check_failure"

  -- `_require_healthy`
  unfoldable pub require_healthy : Outcome (Data fl) → Outcome (Unit {0})
  require_healthy (err e) = fails "health_check_failure"
  require_healthy (ok health) =
      if is_false health
      then fails "health_check_failure"
      else elim health [ obj fs ↦ check_status (get_or "status" null fs) | _ ↦ ok tt ]

  abbrev after_initialize : Executor → Outcome (Data fl) → Outcome (Data fl) × Executor
  after_initialize e health = (require_healthy health >>= λ u. ok e.identity, e)

  unfoldable pub initialize :
      Executor → Outcome (Unit {0}) → Outcome (Data fl) → Outcome (Data fl) × Executor
  initialize e started health =
      if e.closed
      then (fails "plugin is already closed", e)
      else if e.initialized
      then after_initialize e health
      else elim started [
        | err error ↦ (err error, e)
        | ok u ↦ after_initialize (record e { initialized = true }) health
      ]

  unfoldable pub reset : Executor → Outcome (Unit {0}) → Outcome (Unit {0}) × Executor
  reset e done =
      if not e.initialized || e.closed
      then (fails "plugin must be initialized and open before reset", e)
      else elim done [
        | err error ↦ (err error, e)
        | ok u ↦ (ok tt, record e { last_frame_id = none; reset_complete = true })
      ]

  unfoldable pub close : Executor → Outcome (Unit {0}) → Outcome (Unit {0}) × Executor
  close e done = if e.closed then (ok tt, e) else elim done [
    | err error ↦ (err error, e)
    | ok u ↦ (ok tt, record e { closed = true; reset_complete = false })
  ]

  -- SAFE_STOP_CONTROL, with what `_safe_stop` adds
  abbrev pub stop_control : Data fl → String → fl.Float → Fields fl.Float
  stop_control frame_id reason inference_ms = field "throttle" (float (zero_float fl)) (
      field "steer" (float (zero_float fl)) (
        field "brake" (float (fl.of_int (pos 1))) (
          field "hand_brake" (bool false) (
            field "reverse" (bool false) (
              field "source_frame_id" frame_id (
                field "inference_ms" (float inference_ms)
                  (field "status" (str "safe_stop") (field "reason" (str reason) end))))))))

  -- `_safe_stop`
  abbrev pub stop_reply : Executor → Data fl → String → fl.Float → Fields fl.Float → Data fl
  stop_reply e frame_id reason inference_ms detail = obj (
      field "execution_status" (str "fallback") (
        field "evidence_classification" (str e.evidence_classification) (
          field "control" (obj (stop_control frame_id reason inference_ms))
            (field "detail" (obj detail) (field "plugin_identity" e.identity end)))))

  -- The reply with a control of the plugin.
  abbrev pub control_reply : Executor → Fields fl.Float → Data fl
  control_reply e control = obj (
      field "execution_status" (str "control") (
        field "evidence_classification" (str e.evidence_classification)
          (field "control" (obj control) (field "plugin_identity" e.identity end))))

  -- How the plugin answers during one call of `predict`, and how long that takes.
  pub record Replies : Type 0 where
    pub health : Outcome (Data fl)
    pub prediction : Data fl → Outcome (Data fl)
    pub elapsed_ms : fl.Float
    -- `str(exc)`
    pub message : Error → String

  -- `observation.get("frame_id") if isinstance(observation, Mapping) else None`
  abbrev pub frame_field : Data fl → Data fl
  frame_field (obj fs) = get_or "frame_id" null fs
  frame_field _ = null

  -- `except PluginContractError as exc`: other exceptions leave the call.
  abbrev pub caught :
      {A : Type 0}
      → Outcome A
      → (String → Data fl)
      → (A → Outcome (Data fl) × Executor)
      → Executor
      → Outcome (Data fl) × Executor
  caught (ok a) stop rest e = rest a
  caught (err (contract_error text)) stop rest e = (ok (stop text), e)
  caught (err error) stop rest e = (err error, e)

  abbrev pub complete_control : Replies → Fields fl.Float → Fields fl.Float
  complete_control r control =
      set_default "reason" null
        (set_default "status" (str "ok") (put_field "inference_ms" (float r.elapsed_ms) control))

  -- The candidate came in time.
  abbrev pub on_candidate :
      Executor → Data fl → ℕ → Replies → Data fl → Outcome (Data fl) × Executor
  on_candidate e frame_id n r candidate =
      caught (validate_control fl candidate n)
        (λ text.
          stop_reply e frame_id (reason_code text) (zero_float fl)
            (field "detail" (str (r.message (contract_error text))) end))
        (λ control.
          (ok (control_reply e (complete_control r control)), record e { last_frame_id = some n }))
        e

  abbrev pub timeout_ms : Executor → fl.Float
  timeout_ms e = fl.mul e.capability.timeout_sec (fl.of_int (pos 1000))

  abbrev pub on_answer :
      Executor → Data fl → ℕ → Replies → Outcome (Data fl) → Outcome (Data fl) × Executor
  on_answer e frame_id n r (err error) = (
    ok (
        stop_reply e frame_id "backend_exception" (zero_float fl)
          (field "detail" (str (r.message error)) end)),
    e,
  )
  on_answer e frame_id n r (ok candidate) =
      if fl.lt_float (timeout_ms e) r.elapsed_ms
      then (
        ok (
            stop_reply e frame_id "timeout" r.elapsed_ms
              (field "timeout_ms" (float (timeout_ms e)) end)),
        e,
      )
      else on_candidate e frame_id n r candidate

  abbrev pub is_injected : Option String → Bool
  is_injected none = false
  is_injected (some s) = s == "backend_exception" || s == "timeout"

  abbrev pub forced_reason : Option String → String
  forced_reason none = ""
  forced_reason (some s) = s

  -- The observation is valid.
  abbrev pub on_valid :
      Executor → Data fl → Data fl → Option String → Replies → ℕ → Outcome (Data fl) × Executor
  on_valid e observation frame_id forced r n =
      if is_injected forced
      then (
        ok (
            stop_reply e frame_id (forced_reason forced) (zero_float fl)
              (field "injected" (bool true) end)),
        e,
      )
      else on_answer e frame_id n r (r.prediction observation)

  -- The checks before the plugin is asked.
  abbrev pub admitted : Executor → Data fl → Replies → Outcome ℕ
  admitted e observation r = do
    require_healthy r.health
    validate_observation fl observation e.capability e.last_frame_id

  abbrev pub is_ready : Executor → Bool
  is_ready e = e.initialized && e.reset_complete && not e.closed

  unfoldable pub predict :
      Executor → Data fl → Option String → Replies → Outcome (Data fl) × Executor
  predict e observation forced r =
      let frame_id = frame_field observation in
      if is_ready e
      then caught (admitted e observation r)
          (λ text. stop_reply e frame_id (reason_code text) (zero_float fl) end)
          (λ n. on_valid e observation frame_id forced r n) e
      else (ok (stop_reply e frame_id "lifecycle_not_ready" (zero_float fl) end), e)
