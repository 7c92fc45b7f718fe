-- ===== src/Report/Comparison/Totals.antt =====
-- Totals over a list, over what `sorted_by` and `distinct` make of it, and the counts of results.
use closed_loop_bench.Base.{
  insert, sorted_by, ℕ, suc, ◌+◌, String, Bool, true, false, ◌==◌, List, [], ◌∷◌, length, any, map,
  ◌≡◌, refl, ◌∙◌, ap, sym, arith, Bool-cases, inl, inr, eq_iff, eq_refl,
}
use closed_loop_bench.Report.Comparison.{
  distinct, same_text, sorted_texts, occurrences, result_counts,
}

module _ {A : Type 0} where
  abbrev pub total : (A → ℕ) → List A → ℕ
  total f [] = 0
  total f (x ∷ xs) = f x + total f xs

  total-insert :
      (lt : A → A → Bool) (f : A → ℕ) (x : A) (ys : List A)
      → total f (insert lt x ys) ≡ f x + total f ys
  unfolding insert
  total-insert lt f x [] = refl
  total-insert lt f x (y ∷ ys) = elim (Bool-cases (lt y x)) [
    | inl h ↦ rw h (omega (arith, total-insert lt f x ys))
    | inr h ↦ rw h refl
  ]

  pub total-sorted_by :
      (lt : A → A → Bool) (f : A → ℕ) (xs : List A) → total f (sorted_by lt xs) ≡ total f xs
  unfolding sorted_by
  total-sorted_by lt f [] = refl
  total-sorted_by lt f (x ∷ xs) =
      omega (arith, total-insert lt f x (sorted_by lt xs), total-sorted_by lt f xs)

total-map :
    {A B : Type 0} (f : B → ℕ) (g : A → B) (xs : List A)
    → total f (map g xs) ≡ total (λ x. f (g x)) xs
total-map f g [] = refl
total-map f g (x ∷ xs) = omega (arith, total-map f g xs)

-- The distinct texts of a list, and how often each is in it.
abbrev one_if : Bool → ℕ
one_if true = 1
one_if false = 0

abbrev is_in : String → List String → Bool
is_in x xs = any (λ y. y == x) xs

same_sym : (s t : String) → (s == t) ≡ (t == s)
same_sym s t = elim (Bool-cases (s == t)) [
  | inl h ↦ rw ((eq_iff s t).0 h) refl
  | inr h ↦ elim (Bool-cases (t == s)) [ inl g ↦ rw ((eq_iff t s).0 g) refl | inr g ↦ h ∙ sym g ]
]

is_in-distinct : (x : String) (ys : List String) → is_in x (distinct same_text ys) ≡ is_in x ys
unfolding distinct
is_in-distinct x [] = refl
is_in-distinct x (y ∷ ys) = elim (Bool-cases (is_in y (distinct same_text ys))) [
  | inr h ↦ rw h (ground (arith, is_in-distinct x ys))
  | inl h ↦ elim (Bool-cases (y == x)) [
    | inr g ↦ rw (h, g) (is_in-distinct x ys)
    | inl g ↦ rw (h, g) (rw ((eq_iff y x).0 g) at h)
  ]
]

absent : (x : String) (ys : List String) → is_in x ys ≡ false → occurrences x ys ≡ 0
absent x [] h = refl
absent x (y ∷ ys) h = elim (Bool-cases (y == x)) [
  | inl g ↦ absurd (ground (arith, g, h))
  | inr g ↦ rw g (absent x ys (ground (arith, g, h)))
]

occurrences-distinct :
    (x : String) (ys : List String) → occurrences x (distinct same_text ys) ≡ one_if (is_in x ys)
unfolding distinct
occurrences-distinct x [] = refl
occurrences-distinct x (y ∷ ys) =
    let here = is_in-distinct y ys in
    elim (Bool-cases (is_in y (distinct same_text ys))) [
      | inl h ↦ elim (Bool-cases (y == x)) [
        | inr g ↦ rw (h, g) (occurrences-distinct x ys)
        | inl g ↦
            let there = rw ((eq_iff y x).0 g) at (sym here ∙ h) in
            rw (h, g) (occurrences-distinct x ys ∙ ap one_if there)
      ]
      | inr h ↦ elim (Bool-cases (y == x)) [
        | inr g ↦ rw (h, g) (occurrences-distinct x ys)
        | inl g ↦
            let there = rw ((eq_iff y x).0 g) at (sym here ∙ h) in
            rw (h, g) (ap suc (occurrences-distinct x ys ∙ ap one_if there))
      ]
    ]

-- One text more is found once by each of the same texts.
total-occurrences :
    (x : String) (xs texts : List String)
    → total (λ t. occurrences t (x ∷ xs)) texts
      ≡ total (λ t. occurrences t xs) texts + occurrences x texts
total-occurrences x xs [] = refl
total-occurrences x xs (t ∷ texts) = rw (same_sym x t) (elim (Bool-cases (t == x)) [
  | inl h ↦ rw h (omega (arith, total-occurrences x xs texts))
  | inr h ↦ rw h (omega (arith, total-occurrences x xs texts))
])

total-distinct :
    (texts : List String)
    → total (λ t. occurrences t texts) (distinct same_text texts) ≡ length texts
unfolding distinct
total-distinct [] = refl
total-distinct (x ∷ xs) =
    let known = is_in-distinct x xs in
    let once = occurrences-distinct x xs in
    let more = total-occurrences x xs (distinct same_text xs) in
    elim (Bool-cases (is_in x (distinct same_text xs))) [
      | inl h ↦ rw h (omega (arith, more, once, ap one_if (sym known ∙ h), total-distinct xs))
      | inr h ↦
          rw (h, eq_refl x)
            (omega (
              arith,
              more,
              once,
              ap one_if (sym known ∙ h),
              absent x xs (sym known ∙ h),
              total-distinct xs,
            ))
    ]

pub total-result_counts :
    (texts : List String) → total (λ c. c.1) (result_counts texts) ≡ length texts
total-result_counts texts =
    total-map (λ c. c.1) (λ text. (text, occurrences text texts)) (sorted_texts texts)
    ∙ total-sorted_by _ (λ t. occurrences t texts) (distinct same_text texts)
    ∙ total-distinct texts
