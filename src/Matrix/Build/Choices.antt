-- ===== src/Matrix/Build/Choices.antt =====
-- Which runs a plan has: the keys of its runs are those of the choices of a scene, an algorithm, an
-- odd and a seed, in the order of the nested loops.
use closed_loop_bench.Base.{String, List, [], ◌∷◌, ◌++◌, ◌≡◌, refl, ap, sym}
use mathlib.Core.Path.{transport}
use closed_loop_bench.Base.Outcome.{Outcome, ok, >>=-eq-ok, ok_unique}
use closed_loop_bench.Json.{Floats, Value, end, at}
use closed_loop_bench.Matrix.Keys.{run_key_from_request}
use closed_loop_bench.Matrix.Plan.{
  PlannedRun, Dimensions, plan_runs, plan_run, each, one_run, run_id_of, request_of, payload_of,
  algorithm_of, odd_of, copied,
}

abbrev pub spread : {A C : Type 0} → (A → List C) → List A → List C
spread f [] = []
spread f (x ∷ xs) = f x ++ spread f xs

-- The two lists have the same length, and their elements are related one by one.
abbrev pub Matches : {C R : Type 0} → (C → R → Type 0) → List C → List R → Type 0
Matches Q [] [] = Unit
Matches Q (c ∷ cs) (r ∷ rs) = Q c r × Matches Q cs rs
Matches Q _ _ = ⊥

Matches-++ :
    {C R : Type 0} (Q : C → R → Type 0) (cs ds : List C) (rs qs : List R)
    → Matches Q cs rs
    → Matches Q ds qs
    → Matches Q (cs ++ ds) (rs ++ qs)
Matches-++ Q [] ds [] qs h k = k
Matches-++ Q [] ds (r ∷ rs) qs h k = absurd h
Matches-++ Q (c ∷ cs) ds [] qs h k = absurd h
Matches-++ Q (c ∷ cs) ds (r ∷ rs) qs h k = (h.0, Matches-++ Q cs ds rs qs h.1 k)

module _ (fl : Floats) (repr : Value fl.Float → String)
    (validate : Value fl.Float → Outcome (Unit {0})) where
  abbrev Data : Type 0
  Data = Value fl.Float

  pub record Choice : Type 0 where
    pub scene : Data
    pub algorithm : Data
    pub odd : Data
    pub seed : Data

  abbrev chosen : Data → Data → Data → Data → List Choice
  chosen scene algorithm odd seed =
      record { scene = scene; algorithm = algorithm; odd = odd; seed = seed } ∷ []

  -- Every choice, the seeds of an odd first.
  abbrev pub choices : Dimensions fl repr validate → List Choice
  choices d =
      spread
        (λ scene.
          spread (λ algorithm. spread (λ odd. spread (chosen scene algorithm odd) d.seeds) d.odds)
            d.algorithms)
        d.scenes

  -- The key of the run tells the ids of the choice, its versions and its seed.
  pub record IsRunOf (c : Choice) (run : PlannedRun fl repr validate) : Type 0 where
    pub scene_id : Data
    pub scene_version : Data
    pub algorithm_id : Data
    pub algorithm_version : Data
    pub odd_id : Data
    pub scene_id_at : at "scene_id" c.scene ≡ ok scene_id
    pub scene_version_at : at "scene_version" c.scene ≡ ok scene_version
    pub algorithm_id_at : at "algorithm_id" c.algorithm ≡ ok algorithm_id
    pub algorithm_version_at : at "algorithm_version" c.algorithm ≡ ok algorithm_version
    pub odd_id_at : at "odd_id" c.odd ≡ ok odd_id
    pub key_told :
        run.key ≡ scene_id ∷ scene_version ∷ algorithm_id ∷ algorithm_version ∷ odd_id ∷ c.seed ∷ []

  algorithm_parts :
      (algorithm told : Data)
      → algorithm_of fl repr validate algorithm ≡ ok told
      → (id version : Data) × (at "algorithm_id" algorithm ≡ ok id)
        × (at "algorithm_version" algorithm ≡ ok version)
        × (at "algorithm_id" told ≡ ok id)
        × (at "algorithm_version" told ≡ ok version)
  unfolding algorithm_of
  algorithm_parts algorithm told h =
      let (id, e, h1) = >>=-eq-ok (at "algorithm_id" algorithm) _ h in
      let (version, e1, h2) = >>=-eq-ok (at "algorithm_version" algorithm) _ h1 in
      let (driver, e2, h3) = >>=-eq-ok (at "driver" algorithm) _ h2 in
      let (parameters, e3, h4) =
        >>=-eq-ok (copied fl repr validate "parameters" algorithm end) _ h3 in
      let (optional, e4, h5) =
        >>=-eq-ok (copied fl repr validate "checkpoint" algorithm parameters) _ h4 in
      let same = ok_unique refl h5 in
      (
        id,
        version,
        e,
        e1,
        ap (at "algorithm_id") (sym same),
        ap (at "algorithm_version") (sym same),
      )

  odd_parts :
      (odd told : Data)
      → odd_of fl repr validate odd ≡ ok told
      → (id : Data) × (at "odd_id" odd ≡ ok id) × (at "odd_id" told ≡ ok id)
  unfolding odd_of
  odd_parts odd told h =
      let (id, e, h1) = >>=-eq-ok (at "odd_id" odd) _ h in
      let (parameters, e1, h2) = >>=-eq-ok (copied fl repr validate "parameters" odd end) _ h1 in
      let (optional, e2, h3) = >>=-eq-ok (copied fl repr validate "weather" odd parameters) _ h2 in
      (id, e, ap (at "odd_id") (sym (ok_unique refl h3)))

  -- The ids, versions and seed of a choice are those that its payload tells.
  record PayloadOf (c : Choice) (payload : Data) : Type 0 where
    scene_id : Data
    scene_version : Data
    algorithm_id : Data
    algorithm_version : Data
    odd_id : Data
    algorithm_told : Data
    odd_told : Data
    scene_id_at : at "scene_id" c.scene ≡ ok scene_id
    scene_version_at : at "scene_version" c.scene ≡ ok scene_version
    algorithm_id_at : at "algorithm_id" c.algorithm ≡ ok algorithm_id
    algorithm_version_at : at "algorithm_version" c.algorithm ≡ ok algorithm_version
    odd_id_at : at "odd_id" c.odd ≡ ok odd_id
    told_scene : at "scene_id" payload ≡ ok scene_id
    told_version : at "scene_version" payload ≡ ok scene_version
    told_algorithm : at "algorithm" payload ≡ ok algorithm_told
    told_algorithm_id : at "algorithm_id" algorithm_told ≡ ok algorithm_id
    told_algorithm_version : at "algorithm_version" algorithm_told ≡ ok algorithm_version
    told_odd : at "odd" payload ≡ ok odd_told
    told_odd_id : at "odd_id" odd_told ≡ ok odd_id
    told_seed : at "seed" payload ≡ ok c.seed

  payload-PayloadOf :
      (matrix : Data) (c : Choice) (run_id : String) (payload : Data)
      → payload_of fl repr validate matrix c.scene c.algorithm c.odd c.seed run_id ≡ ok payload
      → PayloadOf c payload
  unfolding payload_of
  payload-PayloadOf matrix c run_id payload h =
      let (scene_id, e, h1) = >>=-eq-ok (at "scene_id" c.scene) _ h in
      let (scene_version, e1, h2) = >>=-eq-ok (at "scene_version" c.scene) _ h1 in
      let (files, e2, h3) = >>=-eq-ok (at "scene_package" c.scene) _ h2 in
      let (algorithm, e3, h4) = >>=-eq-ok (algorithm_of fl repr validate c.algorithm) _ h3 in
      let (odd, e4, h5) = >>=-eq-ok (odd_of fl repr validate c.odd) _ h4 in
      let (simulator, e5, h6) = >>=-eq-ok (at "simulator" matrix) _ h5 in
      let (actors, e6, h7) = >>=-eq-ok (at "actor_control" matrix) _ h6 in
      let (metrics, e7, h8) = >>=-eq-ok (at "metrics" matrix) _ h7 in
      let (timeout, e8, h9) = >>=-eq-ok (at "timeout_sec" matrix) _ h8 in
      let (id, version, id_at, version_at, told_id, told_version) =
        algorithm_parts c.algorithm algorithm e3 in
      let (odd_id, odd_at, told_odd) = odd_parts c.odd odd e4 in
      transport (ap (PayloadOf c) (ok_unique refl h9)) (record {
        scene_id = scene_id;
        scene_version = scene_version;
        algorithm_id = id;
        algorithm_version = version;
        odd_id = odd_id;
        algorithm_told = algorithm;
        odd_told = odd;
        scene_id_at = e;
        scene_version_at = e1;
        algorithm_id_at = id_at;
        algorithm_version_at = version_at;
        odd_id_at = odd_at;
        told_scene = refl;
        told_version = refl;
        told_algorithm = refl;
        told_algorithm_id = told_id;
        told_algorithm_version = told_version;
        told_odd = refl;
        told_odd_id = told_odd;
        told_seed = refl;
      })

  request_payload :
      (matrix : Data) (c : Choice) (run_id time : String) (request : Data)
      → request_of fl repr validate matrix c.scene c.algorithm c.odd c.seed run_id time ≡ ok request
      → (payload : Data) × (at "payload" request ≡ ok payload) × PayloadOf c payload
  unfolding request_of
  request_payload matrix c run_id time request h =
      let (payload, e, h1) =
        >>=-eq-ok (payload_of fl repr validate matrix c.scene c.algorithm c.odd c.seed run_id) _
          h in
      let (producer, e1, h2) = >>=-eq-ok (at "producer" matrix) _ h1 in
      let (correlation, e2, h3) = >>=-eq-ok (at "correlation_id" c.scene) _ h2 in
      let (root, e3, h4) = >>=-eq-ok (at "root_message_id" c.scene) _ h3 in
      let (causation, e4, h5) = >>=-eq-ok (at "scene_result_message_id" c.scene) _ h4 in
      let (scene_id, e5, h6) = >>=-eq-ok (at "scene_id" c.scene) _ h5 in
      let (scene_version, e6, h7) = >>=-eq-ok (at "scene_version" c.scene) _ h6 in
      let (algorithm_id, e7, h8) = >>=-eq-ok (at "algorithm_id" c.algorithm) _ h7 in
      let (odd_id, e8, h9) = >>=-eq-ok (at "odd_id" c.odd) _ h8 in
      (
        payload,
        ap (at "payload") (sym (ok_unique refl h9)),
        payload-PayloadOf matrix c run_id payload e,
      )

  request_key :
      (c : Choice) (request payload : Data) (p : PayloadOf c payload)
      → at "payload" request ≡ ok payload
      → run_key_from_request fl request
        ≡ ok (
            p.scene_id ∷ p.scene_version ∷ p.algorithm_id ∷ p.algorithm_version ∷ p.odd_id ∷ c.seed
            ∷ [])
  unfolding run_key_from_request
  request_key c request payload p there =
      rw
        (
          there, p.told_scene, p.told_version, p.told_algorithm, p.told_algorithm_id,
          p.told_algorithm_version, p.told_odd, p.told_odd_id, p.told_seed,
        )
        refl

  plan_run-IsRunOf :
      (matrix : Data) (time : String) (c : Choice) (run : PlannedRun fl repr validate)
      → plan_run fl repr validate matrix time c.scene c.algorithm c.odd c.seed ≡ ok run
      → IsRunOf c run
  unfolding plan_run
  plan_run-IsRunOf matrix time c run h =
      let (run_id, e, h1) =
        >>=-eq-ok (run_id_of fl repr validate c.scene c.algorithm c.odd c.seed) _ h in
      let (request, e1, h2) =
        >>=-eq-ok (request_of fl repr validate matrix c.scene c.algorithm c.odd c.seed run_id time)
          _ h1 in
      let (u, e2, h3) = >>=-eq-ok (validate request) _ h2 in
      let (key, e3, h4) = >>=-eq-ok (run_key_from_request fl request) _ h3 in
      let (payload, there, p) = request_payload matrix c run_id time request e1 in
      transport (ap (IsRunOf c) (ok_unique refl h4)) (record {
        scene_id = p.scene_id;
        scene_version = p.scene_version;
        algorithm_id = p.algorithm_id;
        algorithm_version = p.algorithm_version;
        odd_id = p.odd_id;
        scene_id_at = p.scene_id_at;
        scene_version_at = p.scene_version_at;
        algorithm_id_at = p.algorithm_id_at;
        algorithm_version_at = p.algorithm_version_at;
        odd_id_at = p.odd_id_at;
        key_told = ok_unique e3 (request_key c request payload p there);
      })

  -- A loop whose rounds give the runs of their choices.
  each-Matches :
      (f : Data → Outcome (List (PlannedRun fl repr validate))) (g : Data → List Choice)
      → ((x : Data) (rs : List (PlannedRun fl repr validate))
          → f x ≡ ok rs
          → Matches IsRunOf (g x) rs)
      → (xs : List Data) (rs : List (PlannedRun fl repr validate))
      → each fl repr validate f xs ≡ ok rs
      → Matches IsRunOf (spread g xs) rs
  unfolding each
  each-Matches f g own [] rs h = transport (ap (Matches IsRunOf []) (ok_unique refl h)) tt
  each-Matches f g own (x ∷ xs) rs h =
      let (one, e, h1) = >>=-eq-ok (f x) _ h in
      let (rest, e1, h2) = >>=-eq-ok (each fl repr validate f xs) _ h1 in
      transport (ap (Matches IsRunOf (spread g (x ∷ xs))) (ok_unique refl h2)) (
        Matches-++ IsRunOf (g x) (spread g xs) one rest (own x one e)
          (each-Matches f g own xs rest e1))

  one-Matches :
      (matrix : Data) (time : String) (scene algorithm odd seed : Data)
      (rs : List (PlannedRun fl repr validate))
      → one_run fl repr validate (plan_run fl repr validate matrix time scene algorithm odd seed)
        ≡ ok rs
      → Matches IsRunOf (chosen scene algorithm odd seed) rs
  unfolding one_run
  one-Matches matrix time scene algorithm odd seed rs h =
      let c : Choice = record { scene = scene; algorithm = algorithm; odd = odd; seed = seed } in
      let (run, e, h1) =
        >>=-eq-ok (plan_run fl repr validate matrix time scene algorithm odd seed) _ h in
      transport (ap (Matches IsRunOf (c ∷ [])) (ok_unique refl h1))
        (plan_run-IsRunOf matrix time c run e, tt)

  pub plan_runs-Matches :
      (matrix : Data) (time : String) (d : Dimensions fl repr validate)
      (rs : List (PlannedRun fl repr validate))
      → plan_runs fl repr validate matrix time d ≡ ok rs
      → Matches IsRunOf (choices d) rs
  unfolding plan_runs
  plan_runs-Matches matrix time d rs h =
      each-Matches _ _
        (λ scene.
          each-Matches _ _
            (λ algorithm.
              each-Matches _ _
                (λ odd.
                  each-Matches _ (chosen scene algorithm odd)
                    (λ seed qs e. one-Matches matrix time scene algorithm odd seed qs e) d.seeds)
                d.odds)
            d.algorithms)
        d.scenes rs h
