-- ===== src/Matrix/Checks.antt =====
-- `_validate_matrix` and `_unique`.
use closed_loop_bench.Base.{
  String, ◌<>◌, Bool, true, false, ◌==◌, ◌&&◌, not, ltb, leb, List, [], ◌∷◌, any, all,
  if◌then◌else◌,
}
use closed_loop_bench.Base.Outcome.{Outcome, ok, err, matrix_error, guard, ◌>>=◌, ◌>>◌}
use closed_loop_bench.Json.{
  pos, Floats, Value, null, bool, int, float, obj, arr, nil, item, end, get, is_text, truthy,
  text_of,
}
use closed_loop_bench.Matrix.Keys.{Key, scalar, same_key, is_among}
use closed_loop_bench.Matrix.Plan.{safe, items}

abbrev pub matrix_schema : String
matrix_schema = "closed_loop_experiment_matrix.v0"

module _ (fl : Floats) (repr : Value fl.Float → String)
    (validate_shared_document validate_artifact_reference : Value fl.Float
      → Outcome (Unit {0})) where
  abbrev pub Data : Type 0
  Data = Value fl.Float

  -- `len(values) == len(set(values))`
  unfoldable pub all_different : List (Key fl.Float) → Bool
  all_different [] = true
  all_different (k ∷ ks) = not (any (same_key fl k) ks) && all_different ks

  -- `[key(row) for row in rows]`, as far as a set of them needs it
  unfoldable pub keys_of :
      (Data → Outcome (Key fl.Float)) → List Data → Outcome (List (Key fl.Float))
  keys_of key [] = ok []
  keys_of key (row ∷ rows) = do k ← key row; ks ← keys_of key rows; ok (k ∷ ks)

  unfoldable pub check_unique :
      (Data → Outcome (Key fl.Float)) → List Data → String → Outcome (Unit {0})
  check_unique key rows label = do
    ks ← keys_of key rows
    guard (all_different ks) (matrix_error label)

  -- `item.get(name)` as a key
  abbrev pub key_at : String → Data → Outcome (Key fl.Float)
  key_at name row = do v ← get name row; s ← scalar v; ok (s ∷ [])

  abbrev pub pair_at : String → String → Data → Outcome (Key fl.Float)
  pair_at a b row = do x ← get a row; y ← get b row; s ← scalar x; t ← scalar y; ok (s ∷ t ∷ [])

  abbrev pub self_key : Data → Outcome (Key fl.Float)
  self_key v = do s ← scalar v; ok (s ∷ [])

  -- `not isinstance(matrix.get(name), list) or not matrix[name]`
  unfoldable pub list_at : String → Data → Outcome (List Data)
  list_at name matrix = get name matrix >>= λ v. elim v [
    | arr vs ↦ elim vs [
      | nil ↦ err (matrix_error (name <> " must be a non-empty list"))
      | item w ws ↦ ok (w ∷ items fl repr validate_shared_document ws)
    ]
    | _ ↦ err (matrix_error (name <> " must be a non-empty list"))
  ]

  -- A non-negative int that is no bool.
  abbrev pub is_seed : Data → Bool
  is_seed (int (pos n)) = true
  is_seed _ = false

  -- `_safe(row.get(name), name)`
  unfoldable pub safe_at : String → Data → Outcome (Unit {0})
  safe_at name row = do v ← get name row; s ← safe fl repr validate_shared_document v name; ok tt

  unfoldable pub for_each : (Data → Outcome (Unit {0})) → List Data → Outcome (Unit {0})
  for_each f [] = ok tt
  for_each f (x ∷ xs) = do f x; for_each f xs

  abbrev pub or_empty : Data → Data
  or_empty v = if truthy fl v then v else obj end

  unfoldable pub check_scene : Data → Outcome (Unit {0})
  check_scene scene = do
    safe_at "scene_id" scene
    safe_at "scene_version" scene
    safe_at "correlation_id" scene
    safe_at "root_message_id" scene
    scene_package ← get "scene_package" scene
    validate_artifact_reference (or_empty scene_package)

  -- `str(v or "")` is not empty
  abbrev pub has_text : Data → Bool
  has_text v = truthy fl v && not (text_of repr v == "")

  unfoldable pub check_algorithm : Data → Outcome (Unit {0})
  check_algorithm algorithm = do
    safe_at "algorithm_id" algorithm
    version ← get "algorithm_version" algorithm
    guard (has_text version) (matrix_error "algorithm_version is required")
    driver ← get "driver" algorithm
    known ← is_among driver ("basic_agent" ∷ "ros2" ∷ "external_plugin" ∷ [])
    guard known (matrix_error "unsupported algorithm driver")

  -- `0 < v <= 1` of a number that is no bool
  abbrev pub is_step : Data → Bool
  is_step (int (pos n)) = ltb 0 n && leb n 1
  is_step (float x) = fl.lt_float (fl.of_int (pos 0)) x && fl.le_float x (fl.of_int (pos 1))
  is_step _ = false

  -- `v > 0` of a number that is no bool
  abbrev pub is_positive : Data → Bool
  is_positive (int (pos n)) = ltb 0 n
  is_positive (float x) = fl.lt_float (fl.of_int (pos 0)) x
  is_positive _ = false

  -- `v is True`
  abbrev pub is_true : Data → Bool
  is_true (bool b) = b
  is_true _ = false

  unfoldable pub check_simulator : Data → Outcome (Unit {0})
  check_simulator matrix = do
    section ← get "simulator" matrix
    let simulator = or_empty section
    name ← get "name" simulator
    mode ← get "synchronous_mode" simulator
    guard (is_text name "carla" && is_true mode) (matrix_error "matrix requires synchronous CARLA")
    delta ← get "fixed_delta_seconds" simulator
    guard (is_step delta) (matrix_error "fixed_delta_seconds must be in (0, 1]")

  -- `v in {None, ...}`
  abbrev pub is_style : Data → Outcome Bool
  is_style null = ok true
  is_style v = is_among v ("cautious" ∷ "normal" ∷ "aggressive" ∷ [])

  unfoldable pub check_actors : Data → Outcome (Unit {0})
  check_actors matrix = do
    section ← get "actor_control" matrix
    let actor = or_empty section
    mode ← get "mode" actor
    known_mode ← is_among mode ("replay" ∷ "scripted" ∷ "traffic_manager" ∷ "mixed" ∷ [])
    guard known_mode (matrix_error "unsupported actor control mode")
    style ← get "style" actor
    known_style ← is_style style
    guard known_style (matrix_error "unsupported actor style")

  unfoldable pub validate_matrix : Data → Outcome (Unit {0})
  validate_matrix matrix = do
    schema ← get "schema_version" matrix
    guard (is_text schema matrix_schema) (matrix_error "unsupported experiment matrix schema")
    safe_at "matrix_id" matrix
    scenes ← list_at "scenes" matrix
    algorithms ← list_at "algorithms" matrix
    odds ← list_at "odds" matrix
    seeds ← list_at "seeds" matrix
    metrics ← list_at "metrics" matrix
    check_unique (pair_at "scene_id" "scene_version") scenes "duplicate scene"
    check_unique (key_at "algorithm_id") algorithms "duplicate algorithm_id"
    check_unique (key_at "odd_id") odds "duplicate odd_id"
    check_unique self_key seeds "seeds must be unique"
    guard (all is_seed seeds) (matrix_error "seeds must be non-negative integers")
    check_unique self_key metrics "metrics must be unique"
    for_each (λ m. safe fl repr validate_shared_document m "metric" >>= λ s. ok tt) metrics
    for_each check_scene scenes
    for_each check_algorithm algorithms
    for_each (safe_at "odd_id") odds
    check_simulator matrix
    check_actors matrix
    timeout ← get "timeout_sec" matrix
    guard (is_positive timeout) (matrix_error "timeout_sec must be positive")
