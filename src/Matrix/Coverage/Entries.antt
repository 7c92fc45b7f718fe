-- ===== src/Matrix/Coverage/Entries.antt =====
-- What an empty list of a coverage says of all entries.
use closed_loop_bench.Base.{
  ℕ, suc, String, Bool, true, false, ◌&&◌, ltb, List, [], ◌∷◌, ◌++◌, map, length, is_empty, Option,
  none, some, ◌≡◌, refl, ◌∙◌, sym, ap, arith, Bool-cases, inl, inr, All,
}
use mathlib.Core.Path.{transport}
use closed_loop_bench.Base.Outcome.{ok, >>=-eq-ok, ok_unique}
use closed_loop_bench.Json.{Floats, Value}
use closed_loop_bench.Matrix.Keys.{Key, scalars, same_key, run_key_from_report}
use closed_loop_bench.Matrix.Groups.{lookup, add, rows_at}
use closed_loop_bench.Matrix.Coverage.{
  Run, Seen, Invalid, Expected, Observed, see, tell_malformed, observe, invalid_with, invalid_entry,
  invalid_runs, report_reasons,
}
use closed_loop_bench.Matrix.Coverage.Grouped.{not_empty}

pub and_parts : (a b : Bool) → (a && b) ≡ true → (a ≡ true) × (b ≡ true)
and_parts true b h = (refl, h)
and_parts false b h = cc

pub single :
    {A : Type 0} (xs : List A)
    → is_empty xs ≡ false
    → ltb 1 (length xs) ≡ false
    → (x : A) × (xs ≡ x ∷ [])
single [] h g = cc
single (x ∷ []) h g = (x, refl)
single (x ∷ y ∷ xs) h g = absurd (ground arith)

pub All-map :
    {A B : Type 0} (f : A → B) (P : B → Type 0) (xs : List A)
    → All P (map f xs)
    → All (λ x. P (f x)) xs
All-map f P [] h = tt
All-map f P (x ∷ xs) h = (h.0, All-map f P xs h.1)

pub All-imp :
    {A : Type 0} (P Q : A → Type 0) (xs : List A) → ((x : A) → P x → Q x) → All P xs → All Q xs
All-imp P Q [] f h = tt
All-imp P Q (x ∷ xs) f h = (f x h.0, All-imp P Q xs f h.1)

pub All-both :
    {A : Type 0} (P Q : A → Type 0) (xs : List A) → All P xs → All Q xs → All (λ x. P x × Q x) xs
All-both P Q [] h g = tt
All-both P Q (x ∷ xs) h g = ((h.0, g.0), All-both P Q xs h.1 g.1)

some_unique : {A : Type 0} (x y : A) → some x ≡ some y → x ≡ y
some_unique x y h = cc

module _ (fl : Floats) where
  hit :
      {X : Type 0} (k j : Key fl.Float) (y : X) (d : List (Key fl.Float × X))
      → same_key fl j k ≡ true
      → lookup (same_key fl) k ((j, y) ∷ d) ≡ some y
  unfolding lookup
  hit k j y d p = rw p refl

  miss :
      {X : Type 0} (k j : Key fl.Float) (y : X) (d : List (Key fl.Float × X))
      → same_key fl j k ≡ false
      → lookup (same_key fl) k ((j, y) ∷ d) ≡ lookup (same_key fl) k d
  unfolding lookup
  miss k j y d p = rw p refl

  -- Something that holds of all entries holds of the one that is found, for its own key.
  pub found :
      {X : Type 0} (P : Key fl.Float → X → Type 0) (k : Key fl.Float) (d : List (Key fl.Float × X))
      (x : X)
      → All (λ e. P e.0 e.1) d
      → lookup (same_key fl) k d ≡ some x
      → (j : Key fl.Float) × (same_key fl j k ≡ true) × P j x
  unfolding lookup
  found P k [] x h g = cc
  found P k ((j, y) ∷ d) x h g = elim (Bool-cases (same_key fl j k)) [
    | inl p ↦ (j, p, transport (ap (P j) (some_unique y x (sym (hit k j y d p) ∙ g))) h.0)
    | inr p ↦ found P k d x h.1 (sym (miss k j y d p) ∙ g)
  ]

  abbrev pub Filled : Observed fl → Type 0
  Filled d = All (λ e. is_empty e.1 ≡ false) d

  add-Filled :
      (k : Key fl.Float) (r : Value fl.Float) (d : Observed fl)
      → Filled d
      → Filled (add (same_key fl) k r d)
  unfolding add
  add-Filled k r [] h = (refl, tt)
  add-Filled k r ((j, rs) ∷ d) h = elim (Bool-cases (same_key fl j k)) [
    | inl p ↦ rw p (not_empty rs r, h.1)
    | inr p ↦ rw p (h.0, add-Filled k r d h.1)
  ]

  see-Filled :
      (i : ℕ) (r : Value fl.Float) (seen next : Seen fl) (key : Option (List (Value fl.Float)))
      → see fl i r seen key ≡ ok next
      → Filled seen.observed
      → Filled next.observed
  see-Filled i r seen next none h f = transport (ap (λ x. Filled x.observed) (ok_unique refl h)) f
  see-Filled i r seen next (some values) h f =
      let (k, hashed, h1) = >>=-eq-ok (scalars values) _ h in
      transport (ap (λ x. Filled x.observed) (ok_unique refl h1)) (add-Filled k r seen.observed f)

  pub observe-Filled :
      (i : ℕ) (seen last : Seen fl) (reports : List (Value fl.Float))
      → observe fl i seen reports ≡ ok last
      → Filled seen.observed
      → Filled last.observed
  unfolding observe
  observe-Filled i seen last [] h f = transport (ap (λ x. Filled x.observed) (ok_unique refl h)) f
  observe-Filled i seen last (r ∷ rs) h f =
      let (key, told, h1) = >>=-eq-ok (tell_malformed fl (run_key_from_report fl r)) _ h in
      let (next, one, h2) = >>=-eq-ok (see fl i r seen key) _ h1 in
      observe-Filled (suc i) next last rs h2 (see-Filled i r seen next key one f)

  -- The reports of a key with exactly one report, when no run is invalid.
  abbrev pub Reasonless : Observed fl → Key fl.Float → Run fl → Type 0
  Reasonless observed k run =
      (r : Value fl.Float)
      → rows_at (same_key fl) k observed ≡ r ∷ []
      → report_reasons fl run.request r ≡ ok []

  entry_empty :
      (k : Key fl.Float) (reasons : List String)
      → is_empty (invalid_entry fl k reasons) ≡ true
      → reasons ≡ []
  entry_empty k [] h = refl
  entry_empty k (r ∷ rs) h = cc

  empty_parts :
      {A : Type 0} (xs ys : List A)
      → is_empty (xs ++ ys) ≡ true
      → (is_empty xs ≡ true) × (is_empty ys ≡ true)
  empty_parts [] ys h = (refl, h)
  empty_parts (x ∷ xs) ys h = cc

  pub invalid_none :
      (expected : Expected fl) (observed : Observed fl) (invalid : List (Invalid fl))
      → invalid_runs fl expected observed ≡ ok invalid
      → is_empty invalid ≡ true
      → All (λ e. Reasonless observed e.0 e.1) expected
  unfolding invalid_runs
  invalid_none [] observed invalid h empty = tt
  invalid_none ((k, run) ∷ expected) observed invalid h empty =
      let (entry, one, h1) =
        >>=-eq-ok (invalid_with fl k run (rows_at (same_key fl) k observed)) _ h in
      let (rest, others, h2) = >>=-eq-ok (invalid_runs fl expected observed) _ h1 in
      let (e1, e2) = empty_parts entry rest (ap is_empty (ok_unique refl h2) ∙ empty) in
      (
        λ r single_row.
            let one' = ap (invalid_with fl k run) (sym single_row) ∙ one in
            let (reasons, told, h3) = >>=-eq-ok (report_reasons fl run.request r) _ one' in
            told ∙ ap ok (entry_empty k reasons (ap is_empty (ok_unique refl h3) ∙ e1)),
        invalid_none expected observed rest others e2,
      )
