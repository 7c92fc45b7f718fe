-- ===== src/Base/Sorting.antt =====
-- Python's `sorted`, by the comparison of the elements.
use Prim.Native.String.{String, compare}
use mathlib.Core.Bool.{Bool}
use mathlib.Core.List.{List, [], ◌∷◌}
use text.Mathlib.Text.{is_lt}
use closed_loop_bench.Base.Tests.{if◌then◌else◌}

module _ {A : Type 0} (lt : A → A → Bool) where
  -- An element comes before the first one that is not less.
  unfoldable pub insert : A → List A → List A
  insert x [] = x ∷ []
  insert x (y ∷ ys) = let rest = insert x ys in if lt y x then y ∷ rest else x ∷ y ∷ ys

  unfoldable pub sorted_by : List A → List A
  sorted_by [] = []
  sorted_by (x ∷ xs) = insert x (sorted_by xs)

-- Texts compare by code points.
abbrev pub lt_text : String → String → Bool
lt_text s t = is_lt (compare s t)
