-- ===== src/Report/Build/Extremes.antt =====
-- The least and the greatest of the values of the rows.
use closed_loop_bench.Base.{
  String, Bool, true, false, not, List, [], ◌∷◌, All, Option, none, some, ◌≡◌, refl, ap, sym, arith,
  Bool-cases, inl, inr, ◌⊎◌, if◌then◌else◌,
}
use mathlib.Core.Path.{transport}
use closed_loop_bench.Json.{Floats}
use closed_loop_bench.Report.Numbers.{
  Row, first_of, values_of, min_from, max_from, min_of, max_of, push,
}

-- A float that is no NaN equals itself.
abbrev pub is_ordered : (fl : Floats) → fl.Float → Bool
is_ordered fl x = fl.eq_float x x

-- What the comparisons of floats obey.
pub record IsComparable (fl : Floats) : Type 0 where
  pub lt_not_le :
      (x y : fl.Float)
      → is_ordered fl x ≡ true
      → is_ordered fl y ≡ true
      → fl.lt_float x y ≡ not (fl.le_float y x)
  pub le_refl : (x : fl.Float) → is_ordered fl x ≡ true → fl.le_float x x ≡ true
  pub le_total :
      (x y : fl.Float)
      → is_ordered fl x ≡ true
      → is_ordered fl y ≡ true
      → fl.le_float x y ≡ false
      → fl.le_float y x ≡ true
  pub le_trans :
      (x y z : fl.Float) → fl.le_float x y ≡ true → fl.le_float y z ≡ true → fl.le_float x z ≡ true

pub some_unique : {A : Type 0} {a b : A} → some a ≡ some b → a ≡ b
some_unique h = ground arith

module _ (fl : Floats) (law : IsComparable fl) where
  abbrev pub IsOrdered : fl.Float → Type 0
  IsOrdered x = is_ordered fl x ≡ true

  -- The lesser of two is at most each.
  lesser :
      (m x : fl.Float)
      → IsOrdered m
      → IsOrdered x
      → let l = if fl.lt_float x m then x else m in
        (fl.le_float l m ≡ true) × (fl.le_float l x ≡ true) × IsOrdered l
  lesser m x om ox = elim (Bool-cases (fl.le_float m x)) [
    | inl below ↦ rw (law.lt_not_le x m ox om, below) (law.le_refl m om, below, om)
    | inr above ↦
        rw (law.lt_not_le x m ox om, above) (law.le_total m x om ox above, law.le_refl x ox, ox)
  ]

  -- What is at most the least of the values is at most each of them.
  below_each :
      (e m : fl.Float) (xs : List fl.Float)
      → fl.le_float e (min_from fl m xs) ≡ true
      → IsOrdered m
      → All IsOrdered xs
      → (fl.le_float e m ≡ true) × All (λ x. fl.le_float e x ≡ true) xs
  unfolding min_from
  below_each e m [] h om os = (h, tt)
  below_each e m (x ∷ xs) h om os =
      let (to_m, to_x, ordered) = lesser m x om os.0 in
      let (below, rest) = below_each e (if fl.lt_float x m then x else m) xs h ordered os.1 in
      (law.le_trans e _ m below to_m, (law.le_trans e _ x below to_x, rest))

  pub below_min :
      (e m : fl.Float) (xs : List fl.Float)
      → min_of fl xs ≡ some m
      → fl.le_float e m ≡ true
      → All IsOrdered xs
      → All (λ x. fl.le_float e x ≡ true) xs
  below_min e m [] h least os = cc
  below_min e m (x ∷ xs) h least os = below_each e x xs (rw (some_unique h) least) os.0 os.1

module _ {A : Type 0} where
  -- `Q` holds of an element of the list.
  abbrev pub Somewhere : (A → Type 0) → List A → Type 0
  Somewhere Q [] = ⊥
  Somewhere Q (x ∷ xs) = Q x ⊎ Somewhere Q xs

module _ (fl : Floats) where
  -- The greatest of the values is one of them.
  max_from-in :
      (Q : fl.Float → Type 0) (m : fl.Float) (xs : List fl.Float)
      → Q (max_from fl m xs)
      → Q m ⊎ Somewhere Q xs
  unfolding max_from
  max_from-in Q m [] h = inl h
  max_from-in Q m (x ∷ xs) h = elim (Bool-cases (fl.lt_float m x)) [
    | inl greater ↦ inr (max_from-in Q x xs (rw greater at h))
    | inr other ↦ elim (max_from-in Q m xs (rw other at h)) [
      | inl first ↦ inl first
      | inr later ↦ inr (inr later)
    ]
  ]

  pub max_of-in :
      (Q : fl.Float → Type 0) (m : fl.Float) (xs : List fl.Float)
      → max_of fl xs ≡ some m
      → Q m
      → Somewhere Q xs
  max_of-in Q m [] h q = cc
  max_of-in Q m (x ∷ xs) h q = max_from-in Q x xs (transport (ap Q (sym (some_unique h))) q)

  pushed :
      (Q : fl.Float → Type 0) (o : Option fl.Float) (xs : List fl.Float)
      → All Q (push fl o xs)
      → ((v : fl.Float) → o ≡ some v → Q v) × All Q xs
  pushed Q none xs h = (λ v e. absurd (ground (arith, e)), h)
  pushed Q (some x) xs h = (λ v e. transport (ap Q (some_unique e)) h.0, h.1)

  push_all :
      (Q : fl.Float → Type 0) (o : Option fl.Float) (xs : List fl.Float)
      → ((v : fl.Float) → o ≡ some v → Q v)
      → All Q xs
      → All Q (push fl o xs)
  push_all Q none xs one rest = rest
  push_all Q (some x) xs one rest = (one x refl, rest)

  pushed-Somewhere :
      (Q : fl.Float → Type 0) (o : Option fl.Float) (xs : List fl.Float)
      → Somewhere Q (push fl o xs)
      → ((v : fl.Float) × (o ≡ some v) × Q v) ⊎ Somewhere Q xs
  pushed-Somewhere Q none xs h = inr h
  pushed-Somewhere Q (some x) xs (inl here) = inl (x, refl, here)
  pushed-Somewhere Q (some x) xs (inr there) = inr there

  module _ (read : String → Row fl → Option fl.Float) (keys : List String) where
    -- What a row tells under the keys satisfies `Q`.
    abbrev pub Tells : (fl.Float → Type 0) → Row fl → Type 0
    Tells Q row = (v : fl.Float) → first_of fl read keys row ≡ some v → Q v

    pub values-Tells :
        (Q : fl.Float → Type 0) (rows : List (Row fl))
        → All Q (values_of fl read keys rows)
        → All (Tells Q) rows
    unfolding values_of
    values-Tells Q [] h = tt
    values-Tells Q (row ∷ rows) h =
        let (one, rest) = pushed Q (first_of fl read keys row) (values_of fl read keys rows) h in
        (one, values-Tells Q rows rest)

    pub Tells-values :
        (Q : fl.Float → Type 0) (rows : List (Row fl))
        → All (Tells Q) rows
        → All Q (values_of fl read keys rows)
    unfolding values_of
    Tells-values Q [] h = tt
    Tells-values Q (row ∷ rows) h =
        push_all Q (first_of fl read keys row) (values_of fl read keys rows) h.0
          (Tells-values Q rows h.1)

    -- A row tells a value that satisfies `Q`.
    abbrev pub Reaches : (fl.Float → Type 0) → Row fl → Type 0
    Reaches Q row = (v : fl.Float) × (first_of fl read keys row ≡ some v) × Q v

    pub values-Reaches :
        (Q : fl.Float → Type 0) (rows : List (Row fl))
        → Somewhere Q (values_of fl read keys rows)
        → Somewhere (Reaches Q) rows
    unfolding values_of
    values-Reaches Q [] h = h
    values-Reaches Q (row ∷ rows) h =
        elim (pushed-Somewhere Q (first_of fl read keys row) (values_of fl read keys rows) h) [
          | inl here ↦ inl here
          | inr there ↦ inr (values-Reaches Q rows there)
        ]
