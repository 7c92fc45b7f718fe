-- ===== src/Matrix/Keys/Laws.antt =====
-- What the grouping by keys relies on.
use closed_loop_bench.Base.{true, ◌≡◌, refl, arith, [], ◌∷◌}
use closed_loop_bench.Json.{Floats}
use closed_loop_bench.Matrix.Keys.{Scalar, Key, same_scalar, same_key}

-- Equality of hashable values is an equivalence, as it is in Python away from NaN.
pub record IsEquality (fl : Floats) : Type 0 where
  pub same_refl : (s : Scalar fl.Float) → same_scalar fl s s ≡ true
  pub same_cong :
      (s t u : Scalar fl.Float)
      → same_scalar fl s t ≡ true
      → same_scalar fl s u ≡ same_scalar fl t u

module _ (fl : Floats) (law : IsEquality fl) where
  pub same_key_refl : (k : Key fl.Float) → same_key fl k k ≡ true
  unfolding same_key
  same_key_refl [] = refl
  same_key_refl (s ∷ ss) = rw (law.same_refl s, same_key_refl ss) refl

  pub same_key_cong :
      (j k l : Key fl.Float) → same_key fl j k ≡ true → same_key fl j l ≡ same_key fl k l
  unfolding same_key
  same_key_cong [] [] l h = refl
  same_key_cong [] (t ∷ ts) l h = cc
  same_key_cong (s ∷ ss) [] l h = cc
  same_key_cong (s ∷ ss) (t ∷ ts) [] h = refl
  same_key_cong (s ∷ ss) (t ∷ ts) (u ∷ us) h =
      let p : same_scalar fl s t ≡ true = ground arith in
      let q : same_key fl ss ts ≡ true = ground arith in
      rw (law.same_cong s t u p, same_key_cong ss ts us q) refl
