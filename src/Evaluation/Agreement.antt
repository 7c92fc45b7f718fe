-- ===== src/Evaluation/Agreement.antt =====
-- When a report is about the run of a request, and the error of a run that did not succeed.
use closed_loop_bench.Base.{
  String, true, false, List, [], ◌∷◌, ◌≡◌, refl, sym, ap, arith, Bool-cases, inl, inr, ◌⊎◌,
  if◌then◌else◌,
}
use mathlib.Core.Path.{transport}
use closed_loop_bench.Base.Outcome.{Outcome, ok, >>=-eq-ok, ok_unique}
use closed_loop_bench.Json.{Floats, Value, Fields, end, null, bool, str, obj, get, at, equal}
use closed_loop_bench.Evaluation.{
  Environment, is_success, is_in, Asked, asked_of, names_apart, mismatched, if_differs, error_of,
  or_empty, or_else,
}

cons_empty : {A : Type 0} {x : A} {xs : List A} → x ∷ xs ≡ [] → ⊥
cons_empty h = ground arith

module _ (fl : Floats) (e : Environment fl) where
  abbrev Data : Type 0
  Data = Value fl.Float

  agrees :
      (name : String) (actual expected : Data) (rest : List String)
      → if_differs fl e name actual expected rest ≡ []
      → (equal fl actual expected ≡ true) × (rest ≡ [])
  agrees name actual expected rest h = elim (Bool-cases (equal fl actual expected)) [
    | inl same ↦ (same, rw same at h)
    | inr other ↦ absurd (cons_empty (rw other at h))
  ]

  -- The run, the scene and its version, the algorithm and its version, the odd and the seed that a
  -- payload tells.
  pub record Wants (payload : Data) (a : Asked fl e) : Type 0 where
    pub algorithm : Data
    pub odd : Data
    pub algorithm_at : at "algorithm" payload ≡ ok algorithm
    pub odd_at : at "odd" payload ≡ ok odd
    pub run_at : at "run_id" payload ≡ ok a.run_id
    pub scene_at : at "scene_id" payload ≡ ok a.scene_id
    pub version_at : at "scene_version" payload ≡ ok a.scene_version
    pub algorithm_id_at : at "algorithm_id" algorithm ≡ ok a.algorithm_id
    pub algorithm_version_at : at "algorithm_version" algorithm ≡ ok a.algorithm_version
    pub odd_id_at : at "odd_id" odd ≡ ok a.odd_id
    pub seed_at : at "seed" payload ≡ ok a.seed

  asked-Wants : (payload : Data) (a : Asked fl e) → asked_of fl e payload ≡ ok a → Wants payload a
  unfolding asked_of
  asked-Wants payload a h =
      let (run_id, a3, h3) = >>=-eq-ok (at "run_id" payload) _ h in
      let (scene_id, a4, h4) = >>=-eq-ok (at "scene_id" payload) _ h3 in
      let (version, a5, h5) = >>=-eq-ok (at "scene_version" payload) _ h4 in
      let (algorithm, a6, h6) = >>=-eq-ok (at "algorithm" payload) _ h5 in
      let (algorithm_id, a7, h7) = >>=-eq-ok (at "algorithm_id" algorithm) _ h6 in
      let (algorithm_version, a8, h8) = >>=-eq-ok (at "algorithm_version" algorithm) _ h7 in
      let (odd, a9, h9) = >>=-eq-ok (at "odd" payload) _ h8 in
      let (odd_id, b1, g1) = >>=-eq-ok (at "odd_id" odd) _ h9 in
      let (seed, b2, g2) = >>=-eq-ok (at "seed" payload) _ g1 in
      transport (ap (Wants payload) (ok_unique refl g2)) (record {
        algorithm = algorithm;
        odd = odd;
        algorithm_at = a6;
        odd_at = a9;
        run_at = a3;
        scene_at = a4;
        version_at = a5;
        algorithm_id_at = a7;
        algorithm_version_at = a8;
        odd_id_at = b1;
        seed_at = b2;
      })

  -- The outcome of a look into the report equals what is asked for.
  pub record Tells (told : Outcome Data) (wanted : Data) : Type 0 where
    pub value : Data
    pub told_at : told ≡ ok value
    pub same : equal fl value wanted ≡ true

  -- The report and its experiment tell what is asked for; the run may stand in either.
  pub record TellsAll (report experiment : Data) (a : Asked fl e) : Type 0 where
    pub own_run : Data
    pub experiment_run : Data
    pub own_run_at : get "run_id" report ≡ ok own_run
    pub experiment_run_at : get "run_id" experiment ≡ ok experiment_run
    pub same_run : equal fl (or_else fl e own_run experiment_run) a.run_id ≡ true
    pub same_scene : Tells (get "scenario_id" report) a.scene_id
    pub same_version : Tells (get "scene_version" experiment) a.scene_version
    pub same_algorithm : Tells (get "algorithm_id" experiment) a.algorithm_id
    pub same_algorithm_version : Tells (get "algorithm_version" experiment) a.algorithm_version
    pub same_odd : Tells (get "odd_id" experiment) a.odd_id
    pub same_seed : Tells (get "seed" experiment) a.seed

  abbrev apart_from : Asked fl e → Data → Data → Data → Data → Data → Data → Data → List String
  apart_from a run scene version algorithm algorithm_version odd seed =
      if_differs fl e "run_id" run a.run_id (
        if_differs fl e "scenario_id" scene a.scene_id (
          if_differs fl e "scene_version" version a.scene_version (
            if_differs fl e "algorithm_id" algorithm a.algorithm_id (
              if_differs fl e "algorithm_version" algorithm_version a.algorithm_version
                (if_differs fl e "odd_id" odd a.odd_id (if_differs fl e "seed" seed a.seed []))))))

  none_apart :
      (a : Asked fl e) (run scene version algorithm algorithm_version odd seed : Data)
      → apart_from a run scene version algorithm algorithm_version odd seed ≡ []
      → (equal fl run a.run_id ≡ true)
        × (equal fl scene a.scene_id ≡ true)
        × (equal fl version a.scene_version ≡ true)
        × (equal fl algorithm a.algorithm_id ≡ true)
        × (equal fl algorithm_version a.algorithm_version ≡ true)
        × (equal fl odd a.odd_id ≡ true)
        × (equal fl seed a.seed ≡ true)
  none_apart a run scene version algorithm algorithm_version odd seed h =
      let (r, k1) = agrees "run_id" run a.run_id _ h in
      let (s, k2) = agrees "scenario_id" scene a.scene_id _ k1 in
      let (v, k3) = agrees "scene_version" version a.scene_version _ k2 in
      let (g, k4) = agrees "algorithm_id" algorithm a.algorithm_id _ k3 in
      let (w, k5) = agrees "algorithm_version" algorithm_version a.algorithm_version _ k4 in
      let (o, k6) = agrees "odd_id" odd a.odd_id _ k5 in
      let (d, k7) = agrees "seed" seed a.seed _ k6 in (r, s, v, g, w, o, d)

  apart-TellsAll :
      (report experiment : Data) (a : Asked fl e)
      → names_apart fl e report experiment a ≡ ok []
      → TellsAll report experiment a
  unfolding names_apart
  apart-TellsAll report experiment a h =
      let (own_run, b3, g3) = >>=-eq-ok (get "run_id" report) _ h in
      let (other_run, b4, g4) = >>=-eq-ok (get "run_id" experiment) _ g3 in
      let (scene, b5, g5) = >>=-eq-ok (get "scenario_id" report) _ g4 in
      let (version, b6, g6) = >>=-eq-ok (get "scene_version" experiment) _ g5 in
      let (algorithm, b7, g7) = >>=-eq-ok (get "algorithm_id" experiment) _ g6 in
      let (algorithm_version, b8, g8) = >>=-eq-ok (get "algorithm_version" experiment) _ g7 in
      let (odd, b9, g9) = >>=-eq-ok (get "odd_id" experiment) _ g8 in
      let (seed, c1, d1) = >>=-eq-ok (get "seed" experiment) _ g9 in
      let (r, s, v, g, w, o, d) =
        none_apart a (or_else fl e own_run other_run) scene version algorithm algorithm_version odd
          seed (ok_unique refl d1) in
      record {
        own_run = own_run;
        experiment_run = other_run;
        own_run_at = b3;
        experiment_run_at = b4;
        same_run = r;
        same_scene = record { value = scene; told_at = b5; same = s };
        same_version = record { value = version; told_at = b6; same = v };
        same_algorithm = record { value = algorithm; told_at = b7; same = g };
        same_algorithm_version = record { value = algorithm_version; told_at = b8; same = w };
        same_odd = record { value = odd; told_at = b9; same = o };
        same_seed = record { value = seed; told_at = c1; same = d };
      }

  -- The report tells the run, the scene and its version, the algorithm and its version, the odd and
  -- the seed that the request tells.
  pub record SameRun (request report : Data) : Type 0 where
    pub payload : Data
    pub section : Data
    pub asked : Asked fl e
    pub payload_at : at "payload" request ≡ ok payload
    pub section_at : get "experiment" report ≡ ok section
    pub wants : Wants payload asked
    pub told : TellsAll report (or_empty fl e section) asked

  pub mismatched-SameRun :
      (request report : Data) → mismatched fl e request report ≡ ok [] → SameRun request report
  unfolding mismatched
  mismatched-SameRun request report h =
      let (payload, a1, h1) = >>=-eq-ok (at "payload" request) _ h in
      let (section, a2, h2) = >>=-eq-ok (get "experiment" report) _ h1 in
      let (asked, a3, h3) = >>=-eq-ok (asked_of fl e payload) _ h2 in
      record {
        payload = payload;
        section = section;
        asked = asked;
        payload_at = a1;
        section_at = a2;
        wants = asked-Wants payload asked a3;
        told = apart-TellsAll report (or_empty fl e section) asked h3;
      }

  -- The error of a failure: its code, and whether the runtime status asks for another attempt.
  pub record IsFailure (status : String) (error : Outcome Data) : Type 0 where
    pub fields : Fields fl.Float
    pub error_at : error ≡ ok (obj fields)
    pub code_at : at "code" (obj fields) ≡ ok (str "EVALUATION_RUNTIME_FAILED")
    pub retryable_at :
        at "retryable" (obj fields)
        ≡ ok (bool (is_in status ("not_run" ∷ "planned" ∷ "failed" ∷ [])))

  -- A payload has no error where the run succeeded, and one where it did not.
  abbrev pub ErrsJustOtherwise : String → Outcome Data → Type 0
  ErrsJustOtherwise status error =
      ((is_success status ≡ true) × (error ≡ ok null))
      ⊎ ((is_success status ≡ false) × IsFailure status error)

  error_of-IsFailure :
      (report : Data) (status : String) (error : Fields fl.Float)
      → error_of fl e report status ≡ ok error
      → IsFailure status (get "error" (obj error))
  unfolding error_of
  error_of-IsFailure report status error h =
      let (runtime, a, h1) = >>=-eq-ok (get "runtime" report) _ h in
      let (reason, b, h2) = >>=-eq-ok (get "failure_reason" (or_empty fl e runtime)) _ h1 in
      transport (ap (λ fs. IsFailure status (get "error" (obj fs))) (ok_unique refl h2))
        (record { fields = _; error_at = refl; code_at = refl; retryable_at = refl })

  pub error_fields-just :
      (report : Data) (status : String) (error : Fields fl.Float)
      → (if is_success status then ok end else error_of fl e report status) ≡ ok error
      → ErrsJustOtherwise status (get "error" (obj error))
  error_fields-just report status error h = elim (Bool-cases (is_success status)) [
    | inl good ↦ inl (good, ap (λ fs. get "error" (obj fs)) (sym (ok_unique refl (rw good at h))))
    | inr bad ↦ inr (bad, error_of-IsFailure report status error (rw bad at h))
  ]
