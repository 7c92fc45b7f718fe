-- ===== src/Matrix/Plan.antt =====
-- `build_experiment_plan` with `_request`, `_run_id` and `_safe`.
use closed_loop_bench.Base.{String, ◌<>◌, List, [], ◌∷◌, ◌++◌, none, some, if◌then◌else◌}
use closed_loop_bench.Base.Outcome.{Outcome, ok, err, type_error, matrix_error, ◌>>=◌, ◌>>◌}
use closed_loop_bench.Json.{
  Floats, Value, Items, nil, item, Fields, end, field, str, arr, obj, find, at, truthy, text_of,
}
use closed_loop_bench.Exchange.Segment.{matches_segment}
use closed_loop_bench.Matrix.Keys.{run_key_from_request}

module _ (fl : Floats) (repr : Value fl.Float → String)
    (validate_shared_document : Value fl.Float → Outcome (Unit {0})) where
  abbrev pub Data : Type 0
  Data = Value fl.Float

  unfoldable pub safe : Data → String → Outcome String
  safe v label =
      let s = if truthy fl v then text_of repr v else "" in
      if matches_segment s then ok s else err (matrix_error ("invalid " <> label))

  -- `for x in v` of a list
  abbrev pub items : Items fl.Float → List Data
  items nil = []
  items (item v vs) = v ∷ items vs

  abbrev pub elements : Data → Outcome (List Data)
  elements (arr vs) = ok (items vs)
  elements _ = err type_error

  -- `run-{scene_id}-{algorithm_id}-{odd_id}-s{seed}`
  unfoldable pub run_id_of : Data → Data → Data → Data → Outcome String
  run_id_of scene algorithm odd seed = do
    scene_id ← at "scene_id" scene
    algorithm_id ← at "algorithm_id" algorithm
    odd_id ← at "odd_id" odd
    safe
        (str (
          "run-"
          <> text_of repr scene_id
          <> "-"
          <> text_of repr algorithm_id
          <> "-"
          <> text_of repr odd_id
          <> "-s"
          <> text_of repr seed))
        "run_id"

  -- `if name in source: target[name] = source[name]`, at the end of the target
  abbrev pub copied : String → Data → Fields fl.Float → Outcome (Fields fl.Float)
  copied name (obj fs) rest = elim (find name fs) [
    | none ↦ ok rest
    | some v ↦ ok (field name v rest)
  ]
  copied name _ rest = err type_error

  unfoldable pub algorithm_of : Data → Outcome Data
  algorithm_of algorithm = do
    id ← at "algorithm_id" algorithm
    version ← at "algorithm_version" algorithm
    driver ← at "driver" algorithm
    parameters ← copied "parameters" algorithm end
    optional ← copied "checkpoint" algorithm parameters
    ok (
        obj (
          field "algorithm_id" id
            (field "algorithm_version" version (field "driver" driver optional))))

  unfoldable pub odd_of : Data → Outcome Data
  odd_of odd = do
    id ← at "odd_id" odd
    parameters ← copied "parameters" odd end
    optional ← copied "weather" odd parameters
    ok (obj (field "odd_id" id optional))

  unfoldable pub payload_of : Data → Data → Data → Data → Data → String → Outcome Data
  payload_of matrix scene algorithm odd seed run_id = do
    scene_id ← at "scene_id" scene
    scene_version ← at "scene_version" scene
    scene_package ← at "scene_package" scene
    algorithm' ← algorithm_of algorithm
    odd' ← odd_of odd
    simulator ← at "simulator" matrix
    actor_control ← at "actor_control" matrix
    metrics ← at "metrics" matrix
    timeout_sec ← at "timeout_sec" matrix
    ok (
        obj (
          field "run_id" (str run_id) (
            field "scene_id" scene_id (
              field "scene_version" scene_version (
                field "scene_package" scene_package (
                  field "algorithm" algorithm' (
                    field "odd" odd' (
                      field "simulator" simulator (
                        field "actor_control" actor_control (
                          field "metrics" metrics (
                            field "seed" seed (
                              field "timeout_sec" timeout_sec
                                (field "output_prefix" (str ("runs/" <> run_id)) end)))))))))))))

  abbrev pub evaluation_key : Data → Data → Data → Data → Data → String
  evaluation_key scene_id scene_version algorithm_id odd_id seed =
      "evaluation/"
      <> text_of repr scene_id
      <> "/"
      <> text_of repr scene_version
      <> "/"
      <> text_of repr algorithm_id
      <> "/"
      <> text_of repr odd_id
      <> "/seed-"
      <> text_of repr seed

  unfoldable pub request_of : Data → Data → Data → Data → Data → String → String → Outcome Data
  request_of matrix scene algorithm odd seed run_id created_at = do
    payload ← payload_of matrix scene algorithm odd seed run_id
    producer ← at "producer" matrix
    correlation_id ← at "correlation_id" scene
    root_message_id ← at "root_message_id" scene
    causation ← at "scene_result_message_id" scene
    scene_id ← at "scene_id" scene
    scene_version ← at "scene_version" scene
    algorithm_id ← at "algorithm_id" algorithm
    odd_id ← at "odd_id" odd
    ok (
        obj (
          field "protocol_version" (str "shared_exchange_protocol.v1") (
            field "schema_version" (str "evaluation_run_request.v1") (
              field "message_id" (str ("msg-" <> run_id)) (
                field "message_type" (str "evaluation.run.request") (
                  field "created_at" (str created_at) (
                    field "producer" producer (
                      field "correlation"
                        (obj (
                          field "correlation_id" correlation_id (
                            field "root_message_id" root_message_id
                              (field "causation_message_id" causation end))))
                        (field "idempotency"
                          (obj (
                            field "key"
                              (str (evaluation_key scene_id scene_version algorithm_id odd_id seed))
                              (field "scope" (str "run") end)))
                          (field "payload" payload end))))))))))

  pub record PlannedRun : Type 0 where
    pub run_id : String
    pub key : List Data
    pub request : Data

  unfoldable pub plan_run : Data → String → Data → Data → Data → Data → Outcome PlannedRun
  plan_run matrix created_at scene algorithm odd seed = do
    run_id ← run_id_of scene algorithm odd seed
    request ← request_of matrix scene algorithm odd seed run_id created_at
    validate_shared_document request
    key ← run_key_from_request fl request
    ok (record { run_id = run_id; key = key; request = request })

  -- One of the nested loops: the runs of the elements, one after the other.
  unfoldable pub each : (Data → Outcome (List PlannedRun)) → List Data → Outcome (List PlannedRun)
  each f [] = ok []
  each f (x ∷ xs) = do runs ← f x; rest ← each f xs; ok (runs ++ rest)

  unfoldable pub one_run : Outcome PlannedRun → Outcome (List PlannedRun)
  one_run r = do run ← r; ok (run ∷ [])

  pub record Dimensions : Type 0 where
    pub scenes : List Data
    pub algorithms : List Data
    pub odds : List Data
    pub seeds : List Data

  unfoldable pub dimensions_of : Data → Outcome Dimensions
  dimensions_of matrix = do
    scenes ← at "scenes" matrix
    scene_list ← elements scenes
    algorithms ← at "algorithms" matrix
    algorithm_list ← elements algorithms
    odds ← at "odds" matrix
    odd_list ← elements odds
    seeds ← at "seeds" matrix
    seed_list ← elements seeds
    ok (record {
      scenes = scene_list;
      algorithms = algorithm_list;
      odds = odd_list;
      seeds = seed_list;
    })

  unfoldable pub plan_runs : Data → String → Dimensions → Outcome (List PlannedRun)
  plan_runs matrix created_at d =
      each
        (λ scene.
          each
            (λ algorithm.
              each
                (λ odd.
                  each (λ seed. one_run (plan_run matrix created_at scene algorithm odd seed))
                    d.seeds)
                d.odds)
            d.algorithms)
        d.scenes
