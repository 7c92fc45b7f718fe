-- ===== src/Base/Decimal.antt =====
-- Decimal text of a number, as `str(n)` and the format `{n:04d}` print it.
use closed_loop_bench.Base.Tests.{ltb, eqb, if◌then◌else◌}
use Prim.Native.Nat.{ℕ, zero, suc, ◌-◌, ◌/◌, ◌%◌}
use Prim.Native.String.{String, [], ◌∷◌, ◌++◌ as ◌<>◌}

abbrev digit : ℕ → String
digit n =
    if eqb n 0
    then "0"
    else if eqb n 1
    then "1"
    else if eqb n 2
    then "2"
    else if eqb n 3
    then "3"
    else if eqb n 4
    then "4"
    else if eqb n 5
    then "5"
    else if eqb n 6
    then "6"
    else if eqb n 7
    then "7"
    else if eqb n 8
    then "8"
    else "9"

-- A number has fewer digits than its value plus one.
digits : ℕ → ℕ → String
digits zero n = ""
digits (suc fuel) n =
    let rest = digits fuel (n / 10) in if ltb n 10 then digit n else rest <> digit (n % 10)

unfoldable pub decimal : ℕ → String
unfolding digits
decimal n = digits (suc n) n

-- The number of characters of a text.
abbrev pub count : String → ℕ
count [] = 0
count (c ∷ s) = suc (count s)

abbrev pub zeros : ℕ → String
zeros zero = ""
zeros (suc n) = "0" <> zeros n

-- `{n:0wd}` of a number that is not negative
unfoldable pub padded : ℕ → ℕ → String
unfolding decimal
padded w n = zeros (w - count (decimal n)) <> decimal n
