-- ===== src/Matrix/Coverage/Grouped.antt =====
-- How the reports are grouped by their keys.
use closed_loop_bench.Base.{
  ℕ, suc, String, Bool, true, false, List, [], ◌∷◌, ◌++◌, keep, is_empty, Option, none, some, ◌≡◌,
  refl, ◌∙◌, sym, ap, arith, Bool-cases, inl, inr, ◌⊎◌, if◌then◌else◌,
}
use closed_loop_bench.Base.Outcome.{
  Error, Outcome, ok, err, matrix_error, ◌>>=◌, >>=-eq-ok, ok_unique,
}
use closed_loop_bench.Json.{Floats, Value}
use closed_loop_bench.Matrix.Keys.{Key, scalars, same_key, run_key_from_report}
use closed_loop_bench.Matrix.Keys.Laws.{IsEquality, same_key_refl, same_key_cong}
use closed_loop_bench.Matrix.Groups.{rows_at, rows_at-add}
use closed_loop_bench.Matrix.Coverage.{Seen, see, tell_malformed, observe}

pub true_is_false : true ≡ false → ⊥
true_is_false h = cc

keep_one : {A : Type 0} (p : A → Bool) (x : A) → keep p (x ∷ []) ≡ (if p x then x ∷ [] else [])
keep_one p x = elim (Bool-cases (p x)) [ inl h ↦ ground arith | inr h ↦ ground arith ]

keep_cons :
    {A : Type 0} (p : A → Bool) (x : A) (xs : List A)
    → keep p (x ∷ xs) ≡ keep p (x ∷ []) ++ keep p xs
keep_cons p x xs = elim (Bool-cases (p x)) [ inl h ↦ ground arith | inr h ↦ ground arith ]

append_empty : {A : Type 0} (xs : List A) → xs ++ [] ≡ xs
append_empty [] = refl
append_empty (x ∷ xs) = ap (λ ys. x ∷ ys) (append_empty xs)

append_assoc : {A : Type 0} (xs ys zs : List A) → (xs ++ ys) ++ zs ≡ xs ++ (ys ++ zs)
append_assoc [] ys zs = refl
append_assoc (x ∷ xs) ys zs = ap (λ ws. x ∷ ws) (append_assoc xs ys zs)

pub not_empty : {A : Type 0} (xs : List A) (x : A) → is_empty (xs ++ (x ∷ [])) ≡ false
not_empty [] x = refl
not_empty (y ∷ xs) x = refl

pub empty_prefix : {A : Type 0} (xs ys : List A) → is_empty xs ≡ false → is_empty (xs ++ ys) ≡ false
empty_prefix [] ys h = cc
empty_prefix (x ∷ xs) ys h = refl

module _ (fl : Floats) (law : IsEquality fl) where
  -- The key of a report.
  abbrev pub report_key : Value fl.Float → Outcome (Key fl.Float)
  report_key r = run_key_from_report fl r >>= scalars

  abbrev is_key : Key fl.Float → Outcome (Key fl.Float) → Bool
  is_key k (ok j) = same_key fl j k
  is_key k (err e) = false

  abbrev pub belongs : Key fl.Float → Value fl.Float → Bool
  belongs k r = is_key k (report_key r)

  -- The reports with a key, in order.
  abbrev pub with_key : Key fl.Float → List (Value fl.Float) → List (Value fl.Float)
  with_key k reports = keep (belongs k) reports

  -- A report tells all parts of its key.
  pub record Keyed (r : Value fl.Float) : Type 0 where
    pub key : Key fl.Float
    pub key_at : report_key r ≡ ok key

  -- What one report does to the observations.
  pub record IsSeen (seen next : Seen fl) (r : Value fl.Float) : Type 0 where
    pub grown :
        (k : Key fl.Float)
        → rows_at (same_key fl) k next.observed
          ≡ rows_at (same_key fl) k seen.observed ++ with_key k (r ∷ [])
    pub told : is_empty next.malformed ≡ true → (is_empty seen.malformed ≡ true) × Keyed r

  joined :
      (b : Bool) (rows : List (Value fl.Float)) (r : Value fl.Float)
      → (if b then rows ++ (r ∷ []) else rows) ≡ rows ++ (if b then r ∷ [] else [])
  joined true rows r = refl
  joined false rows r = sym (append_empty rows)

  pub with_one :
      (k : Key fl.Float) (r : Value fl.Float) (j : Key fl.Float)
      → report_key r ≡ ok j
      → with_key k (r ∷ []) ≡ (if same_key fl j k then r ∷ [] else [])
  with_one k r j h = keep_one (belongs k) r ∙ ap (λ b. if b then r ∷ [] else []) (ap (is_key k) h)

  with_none :
      (k : Key fl.Float) (r : Value fl.Float) (e : Error)
      → report_key r ≡ err e
      → with_key k (r ∷ []) ≡ []
  with_none k r e h = keep_one (belongs k) r ∙ ap (λ b. if b then r ∷ [] else []) (ap (is_key k) h)

  -- A report that is no error has a key, or is malformed.
  tell_malformed-cases :
      (o : Outcome (List (Value fl.Float))) (key : Option (List (Value fl.Float)))
      → tell_malformed fl o ≡ ok key
      → ((values : List (Value fl.Float)) × (o ≡ ok values) × (key ≡ some values))
        ⊎ ((text : String) × (o ≡ err (matrix_error text)) × (key ≡ none))
  tell_malformed-cases (ok values) key h = inl (values, refl, sym (ok_unique refl h))
  tell_malformed-cases (err (matrix_error text)) key h = inr (text, refl, sym (ok_unique refl h))
  tell_malformed-cases (err _) key h = cc

  see_keyed :
      (i : ℕ) (r : Value fl.Float) (seen next : Seen fl) (values : List (Value fl.Float))
      → run_key_from_report fl r ≡ ok values
      → see fl i r seen (some values) ≡ ok next
      → IsSeen seen next r
  see_keyed i r seen next values known h =
      let (j, hashed, h1) = >>=-eq-ok (scalars values) _ h in
      let keyed : report_key r ≡ ok j = rw (known, hashed) refl in
      let same = ok_unique refl h1 in
      record {
        grown = λ k.
            ap (λ x. rows_at (same_key fl) k x.observed) (sym same)
            ∙ rows_at-add (same_key fl) (same_key_refl fl law) (same_key_cong fl law) j k r
                seen.observed
            ∙ joined (same_key fl j k) _ r
            ∙ ap (λ xs. rows_at (same_key fl) k seen.observed ++ xs) (sym (with_one k r j keyed));
        told = λ m. (ap (λ x. is_empty x.malformed) same ∙ m, record { key = j; key_at = keyed });
      }

  see_malformed :
      (i : ℕ) (r : Value fl.Float) (seen next : Seen fl) (text : String)
      → run_key_from_report fl r ≡ err (matrix_error text)
      → see fl i r seen none ≡ ok next
      → IsSeen seen next r
  see_malformed i r seen next text known h =
      let same = ok_unique refl h in
      record {
        grown = λ k.
            ap (λ x. rows_at (same_key fl) k x.observed) (sym same)
            ∙ sym (append_empty _)
            ∙ ap (λ xs. rows_at (same_key fl) k seen.observed ++ xs)
                (sym (with_none k r (matrix_error text) (rw known refl)));
        told = λ m. absurd (
            true_is_false
              (sym m ∙ ap (λ x. is_empty x.malformed) (sym same) ∙ not_empty seen.malformed i));
      }

  pub see-IsSeen :
      (i : ℕ) (r : Value fl.Float) (seen next : Seen fl) (key : Option (List (Value fl.Float)))
      → tell_malformed fl (run_key_from_report fl r) ≡ ok key
      → see fl i r seen key ≡ ok next
      → IsSeen seen next r
  see-IsSeen i r seen next key told h =
      elim (tell_malformed-cases (run_key_from_report fl r) key told) [
        | inl (values, known, same) ↦
            see_keyed i r seen next values known (ap (λ x. see fl i r seen x) (sym same) ∙ h)
        | inr (text, known, same) ↦
            see_malformed i r seen next text known (ap (λ x. see fl i r seen x) (sym same) ∙ h)
      ]

  -- All the reports: they are grouped by key, in order.
  pub observe_rows :
      (i : ℕ) (seen last : Seen fl) (reports : List (Value fl.Float)) (k : Key fl.Float)
      → observe fl i seen reports ≡ ok last
      → rows_at (same_key fl) k last.observed
        ≡ rows_at (same_key fl) k seen.observed ++ with_key k reports
  unfolding observe
  observe_rows i seen last [] k h =
      ap (λ x. rows_at (same_key fl) k x.observed) (ok_unique h refl) ∙ sym (append_empty _)
  observe_rows i seen last (r ∷ rs) k h =
      let (key, told, h1) = >>=-eq-ok (tell_malformed fl (run_key_from_report fl r)) _ h in
      let (next, one, h2) = >>=-eq-ok (see fl i r seen key) _ h1 in
      observe_rows (suc i) next last rs k h2
      ∙ ap (λ xs. xs ++ with_key k rs) ((see-IsSeen i r seen next key told one).grown k)
      ∙ append_assoc (rows_at (same_key fl) k seen.observed) (with_key k (r ∷ [])) (with_key k rs)
      ∙ ap (λ xs. rows_at (same_key fl) k seen.observed ++ xs) (sym (keep_cons (belongs k) r rs))
