-- ===== src/Report/Events/Blocks.antt =====
-- An event is a longest block of rows whose flag is raised: the loop of `_collision_count` and of
-- `_hard_brake_count` counts such blocks.
use closed_loop_bench.Base.{
  ℕ, suc, ◌+◌, String, Bool, true, false, not, ◌&&◌, List, [], ◌∷◌, keep, length, map, All, ◌≡◌,
  refl, ◌∙◌, ap, sym, arith, Bool-cases, inl, inr,
}
use closed_loop_bench.Base.Outcome.{ok}
use closed_loop_bench.Json.{pos, Floats, Value, is_number}
use closed_loop_bench.Criteria.{look_up}
use closed_loop_bench.Report.Numbers.{Row}
use closed_loop_bench.Report.Events.{Counted, nothing_counted, on_flag, count_events, is_raised}

-- `itertools.groupby`: the longest blocks of equal flags, each with its length
abbrev join_block : Bool → List (Bool × ℕ) → List (Bool × ℕ)
join_block b [] = (b, 1) ∷ []
join_block true ((true, n) ∷ gs) = (true, suc n) ∷ gs
join_block false ((false, n) ∷ gs) = (false, suc n) ∷ gs
join_block b (g ∷ gs) = (b, 1) ∷ g ∷ gs

abbrev pub group : List Bool → List (Bool × ℕ)
group [] = []
group (b ∷ bs) = join_block b (group bs)

-- How many of the blocks are raised.
abbrev pub raised_blocks : List Bool → ℕ
raised_blocks bs = length (keep (λ g. g.0) (group bs))

abbrev one_if : Bool → ℕ
one_if true = 1
one_if false = 0

abbrev rises : Bool → List Bool → ℕ
rises active [] = 0
rises active (b ∷ bs) = one_if (b && not active) + rises b bs

abbrev begins : List Bool → Bool
begins [] = false
begins (b ∷ bs) = b

abbrev first_flag : List (Bool × ℕ) → Bool
first_flag [] = false
first_flag (g ∷ gs) = g.0

first_flag-join : (b : Bool) (gs : List (Bool × ℕ)) → first_flag (join_block b gs) ≡ b
first_flag-join b [] = refl
first_flag-join true ((true, n) ∷ gs) = refl
first_flag-join true ((false, n) ∷ gs) = refl
first_flag-join false ((true, n) ∷ gs) = refl
first_flag-join false ((false, n) ∷ gs) = refl

group-begins : (bs : List Bool) → first_flag (group bs) ≡ begins bs
group-begins [] = refl
group-begins (b ∷ bs) = first_flag-join b (group bs)

rises-active : (bs : List Bool) → rises false bs ≡ rises true bs + one_if (begins bs)
rises-active [] = refl
rises-active (true ∷ bs) = omega arith
rises-active (false ∷ bs) = omega arith

blocks-join :
    (b : Bool) (gs : List (Bool × ℕ))
    → length (keep (λ g. g.0) (join_block b gs))
      ≡ length (keep (λ g. g.0) gs) + one_if (b && not (first_flag gs))
blocks-join true [] = refl
blocks-join false [] = refl
blocks-join true ((true, n) ∷ gs) = omega arith
blocks-join true ((false, n) ∷ gs) = omega arith
blocks-join false ((true, n) ∷ gs) = omega arith
blocks-join false ((false, n) ∷ gs) = omega arith

next_block :
    (b : Bool) (bs : List Bool)
    → raised_blocks bs ≡ rises false bs
    → raised_blocks bs + one_if (b && not (begins bs)) ≡ one_if (b && true) + rises b bs
next_block true bs h = elim (Bool-cases (begins bs)) [
  | inl p ↦ rw p (omega (arith, h, rises-active bs, ap one_if p))
  | inr p ↦ rw p (omega (arith, h, rises-active bs, ap one_if p))
]
next_block false bs h = omega (arith, h)

blocks-rises : (bs : List Bool) → raised_blocks bs ≡ rises false bs
blocks-rises [] = refl
blocks-rises (b ∷ bs) =
    blocks-join b (group bs) ∙ rw (group-begins bs) (next_block b bs (blocks-rises bs))

no_rises : (bs : List Bool) → rises false bs ≡ 0 → All (λ b. b ≡ false) bs
no_rises [] h = tt
no_rises (true ∷ bs) h = absurd (omega (arith, h))
no_rises (false ∷ bs) h = (refl, no_rises bs (omega (arith, h)))

-- Without a raised block, no flag is raised.
pub no_blocks : (bs : List Bool) → raised_blocks bs ≡ 0 → All (λ b. b ≡ false) bs
no_blocks bs h = no_rises bs (sym (blocks-rises bs) ∙ h)

module _ (fl : Floats) (flag counter : String) where
  -- The flags of the rows: raised where the flag is True.
  abbrev pub flags_of : List (Row fl) → List Bool
  flags_of rows = map (λ row. is_raised fl (look_up flag row)) rows

  -- A row tells its event by the flag, and not by a count.
  abbrev pub IsFlagged : Row fl → Type 0
  IsFlagged row = is_number (look_up counter row) ≡ false

  abbrev state : ℕ → Bool → Counted fl
  state n active = record { count = pos n; in_event = active }

  flag_step :
      (v : Value fl.Float) (n : ℕ) (active : Bool)
      → on_flag fl v (state n active)
        ≡ state (n + one_if (is_raised fl v && not active)) (is_raised fl v)
  flag_step v n active = ground arith

  count_from :
      (rows : List (Row fl)) (n : ℕ) (active : Bool)
      → All IsFlagged rows
      → count_events fl flag counter rows (state n active)
        ≡ ok (pos (n + rises active (flags_of rows)))
  unfolding count_events
  count_from [] n active h = ground arith
  count_from (row ∷ rows) n active h =
      let up = is_raised fl (look_up flag row) in
      rw (h.0, flag_step (look_up flag row) n active)
        (count_from rows (n + one_if (up && not active)) up h.1
          ∙ ap (λ k. ok (pos k)) (omega arith))

  -- Where no row tells a count of its own, the loop counts the longest blocks of rows whose flag is
  -- raised: each collision and each hard brake is counted once, however many rows it lasts.
  pub count_events_blocks :
      (rows : List (Row fl))
      → All IsFlagged rows
      → count_events fl flag counter rows (nothing_counted fl)
        ≡ ok (pos (raised_blocks (flags_of rows)))
  count_events_blocks rows h =
      count_from rows 0 false h ∙ ap (λ n. ok (pos n)) (omega (arith, blocks-rises (flags_of rows)))
