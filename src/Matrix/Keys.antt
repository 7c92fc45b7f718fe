-- ===== src/Matrix/Keys.antt =====
-- The keys of runs, as Python hashes and compares them.
pub mod Laws
use closed_loop_bench.Base.{
  String, Bool, true, false, ◌==◌, ◌&&◌, ◌||◌, not, List, [], ◌∷◌, any, if◌then◌else◌,
}
use closed_loop_bench.Base.Outcome.{Outcome, ok, err, matrix_error, type_error, ◌>>=◌}
use closed_loop_bench.Json.{
  ℤ, eq_ℤ, Floats, Value, null, bool, int, float, str, arr, obj, end, get, at, is_null, truthy,
  of_bool,
}

-- A value that can be hashed; a bool is an int.
pub data Scalar (F : Type 0) : Type 0 where
  nothing : Scalar F
  number : ℤ → Scalar F
  real : F → Scalar F
  word : String → Scalar F

abbrev pub Key : Type 0 → Type 0
Key F = List (Scalar F)

-- `hash(v)`: a list or a dict has none.
abbrev pub scalar : {F : Type 0} → Value F → Outcome (Scalar F)
scalar null = ok nothing
scalar (bool b) = ok (number (of_bool b))
scalar (int n) = ok (number n)
scalar (float x) = ok (real x)
scalar (str s) = ok (word s)
scalar _ = err type_error

unfoldable pub scalars : {F : Type 0} → List (Value F) → Outcome (Key F)
scalars [] = ok []
scalars (v ∷ vs) = do s ← scalar v; rest ← scalars vs; ok (s ∷ rest)

-- `v in {...}` for a set of strings
abbrev pub is_among : {F : Type 0} → Value F → List String → Outcome Bool
is_among v ss = scalar v >>= λ s. elim s [ word t ↦ ok (any (λ u. t == u) ss) | _ ↦ ok false ]

module _ (fl : Floats) where
  abbrev pub same_scalar : Scalar fl.Float → Scalar fl.Float → Bool
  same_scalar nothing nothing = true
  same_scalar (number m) (number n) = eq_ℤ m n
  same_scalar (number m) (real y) = fl.eq_int y m
  same_scalar (real x) (number n) = fl.eq_int x n
  same_scalar (real x) (real y) = fl.eq_float x y
  same_scalar (word s) (word t) = s == t
  same_scalar _ _ = false

  unfoldable pub same_key : Key fl.Float → Key fl.Float → Bool
  same_key [] [] = true
  same_key [] (t ∷ ts) = false
  same_key (s ∷ ss) [] = false
  same_key (s ∷ ss) (t ∷ ts) = same_scalar s t && same_key ss ts

  abbrev null_name : String → Value fl.Float → List String → List String
  null_name name v rest = elim (is_null v) [ true ↦ name ∷ rest | false ↦ rest ]

  -- `report.get("experiment") or {}`
  abbrev pub section_or_empty : Value fl.Float → Value fl.Float
  section_or_empty v = if truthy fl v then v else obj end

  abbrev report_key : List String → List (Value fl.Float) → Outcome (List (Value fl.Float))
  report_key [] values = ok values
  report_key (name ∷ names) values = err (matrix_error "report identity is missing")

  unfoldable pub run_key_from_report : Value fl.Float → Outcome (List (Value fl.Float))
  run_key_from_report report = do
    section ← get "experiment" report
    let experiment = section_or_empty section
    scenario_id ← get "scenario_id" report
    scene_version ← get "scene_version" experiment
    algorithm_id ← get "algorithm_id" experiment
    algorithm_version ← get "algorithm_version" experiment
    odd_id ← get "odd_id" experiment
    seed ← get "seed" experiment
    report_key
        (null_name "scenario_id" scenario_id (
          null_name "scene_version" scene_version (
            null_name "algorithm_id" algorithm_id (
              null_name "algorithm_version" algorithm_version
                (null_name "odd_id" odd_id (null_name "seed" seed []))))))
        (scenario_id ∷ scene_version ∷ algorithm_id ∷ algorithm_version ∷ odd_id ∷ seed ∷ [])

  unfoldable pub run_key_from_request : Value fl.Float → Outcome (List (Value fl.Float))
  run_key_from_request request = do
    payload ← at "payload" request
    scene_id ← at "scene_id" payload
    scene_version ← at "scene_version" payload
    algorithm ← at "algorithm" payload
    algorithm_id ← at "algorithm_id" algorithm
    algorithm_version ← at "algorithm_version" algorithm
    odd ← at "odd" payload
    odd_id ← at "odd_id" odd
    seed ← at "seed" payload
    ok (scene_id ∷ scene_version ∷ algorithm_id ∷ algorithm_version ∷ odd_id ∷ seed ∷ [])
