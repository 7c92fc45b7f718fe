-- ===== src/Base/Text.antt =====
-- Lengths of texts, by which a text differs from a longer one.
use Prim.Native.Nat.{◌+◌, ◌<◌}
use Prim.Native.String.{String, [], ◌∷◌, ◌++◌ as ◌<>◌}
use Prim.Native.String.append
use mathlib.Core.Path.{◌≡◌, ap}
use mathlib.Core.Bool.{false}
use mathlib.Core.Logic.{inl, inr}
use native.Mathlib.Omega.{arith}
use text.Mathlib.Text.{◌==◌}
use text.Mathlib.TextEquality.{eq_iff}
use closed_loop_bench.Base.Decimal.{count}
use closed_loop_bench.Base.Tests.{Bool-cases}

pub count-append : (s t : String) → count (s <> t) ≡ count s + count t
count-append [] t = omega (arith, ap count (append.nil t))
count-append (c ∷ s) t = omega (arith, ap count (append.cons c s t), count-append s t)

pub longer_differs : (s t : String) → count t < count s → (s == t) ≡ false
longer_differs s t h = elim (Bool-cases (s == t)) [
  | inl same ↦ absurd (omega (arith, ap count ((eq_iff s t).0 same)))
  | inr other ↦ other
]
