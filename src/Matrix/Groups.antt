-- ===== src/Matrix/Groups.antt =====
-- A Python dict from keys to lists of rows, in the order of insertion: `d.setdefault(k, []).append(r)`
-- and `d.get(k, [])`.
use closed_loop_bench.Base.{
  Bool, true, false, List, [], ◌∷◌, ◌++◌, Option, none, some, ◌≡◌, refl, ◌∙◌, sym, Bool-cases, inl,
  inr, if◌then◌else◌,
}

true_is_false : true ≡ false → ⊥
true_is_false h = cc

module _ {K X : Type 0} (same : K → K → Bool) where
  unfoldable pub lookup : K → List (K × X) → Option X
  lookup k [] = none
  lookup k ((j, x) ∷ d) = if same j k then some x else lookup k d

  -- `d[k] = x`: a key that is there keeps its place.
  unfoldable pub put : K → X → List (K × X) → List (K × X)
  put k x [] = (k, x) ∷ []
  put k x ((j, y) ∷ d) = let rest = put k x d in if same j k then (j, x) ∷ d else (j, y) ∷ rest

module _ {K : Type 0} (same : K → K → Bool) (same_refl : (k : K) → same k k ≡ true)
    (same_cong : (j k l : K) → same j k ≡ true → same j l ≡ same k l) where
  apart : (j k l : K) → same j k ≡ false → same j l ≡ true → same k l ≡ false
  apart j k l h g = elim (Bool-cases (same k l)) [
    | inr p ↦ p
    | inl p ↦
        absurd (true_is_false (sym (same_refl k) ∙ same_cong k l k p ∙ sym (same_cong j l k g) ∙ h))
  ]

module _ {K R : Type 0} (same : K → K → Bool) where
  unfoldable pub add : K → R → List (K × List R) → List (K × List R)
  add k r [] = (k, r ∷ []) ∷ []
  add k r ((j, rs) ∷ d) =
      let rest = add k r d in if same j k then (j, rs ++ (r ∷ [])) ∷ d else (j, rs) ∷ rest

  abbrev pub rows_or_none : Option (List R) → List R
  rows_or_none none = []
  rows_or_none (some rs) = rs

  -- `d.get(k, [])`
  abbrev pub rows_at : K → List (K × List R) → List R
  rows_at k d = rows_or_none (lookup same k d)

  module _ (same_refl : (k : K) → same k k ≡ true)
      (same_cong : (j k l : K) → same j k ≡ true → same j l ≡ same k l) where
    -- A row that is added comes last among those of its key, and changes no other key's.
    pub rows_at-add :
        (k l : K) (r : R) (d : List (K × List R))
        → rows_at l (add k r d) ≡ (if same k l then rows_at l d ++ (r ∷ []) else rows_at l d)
    unfolding lookup add
    rows_at-add k l r [] = elim (Bool-cases (same k l)) [ inl h ↦ rw h refl | inr h ↦ rw h refl ]
    rows_at-add k l r ((j, rs) ∷ d) = elim (Bool-cases (same j k)) [
      | inl h ↦ elim (Bool-cases (same k l)) [
        | inl g ↦ rw (h, same_cong j k l h, g) refl
        | inr g ↦ rw (h, same_cong j k l h, g) refl
      ]
      | inr h ↦ elim (Bool-cases (same j l)) [
        | inl g ↦ rw (h, g) (rw (apart same same_refl same_cong j k l h g) refl)
        | inr g ↦ rw (h, g) (rows_at-add k l r d)
      ]
    ]
