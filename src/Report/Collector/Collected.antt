-- ===== src/Report/Collector/Collected.antt =====
-- A report of collected rows is a report of the ticks that they were made of.
use closed_loop_bench.Base.{
  String, true, false, List, [], ◌∷◌, ◌++◌, All, some, ◌≡◌, refl, ◌∙◌, ap, sym, arith, inl, inr,
}
use mathlib.Core.Path.{transport}
use mathlib.Core.List.{append-nil, append_assoc}
use closed_loop_bench.Base.Outcome.{ok, >>=-eq-ok, ok_unique}
use closed_loop_bench.Json.{
  ℤ, pos, Floats, Value, Fields, end, field, null, bool, int, float, str, arr, obj, as_float,
}
use closed_loop_bench.Criteria.{look_up, pass, default_criteria, criteria_from_run_config}
use closed_loop_bench.Report.Numbers.{Data, Row, number_at, first_of}
use closed_loop_bench.Report.Events.{is_raised}
use closed_loop_bench.Report.Events.Blocks.{IsFlagged}
use closed_loop_bench.Report.Build.{ttc_keys, ClosedLoopReport, build_closed_loop_report}
use closed_loop_bench.Report.Build.Extremes.{
  IsComparable, is_ordered, Tells, Reaches, Somewhere, some_unique,
}
use closed_loop_bench.Report.Build.Passed.{build_closed_loop_report-IsSafeRun}
use closed_loop_bench.Report.Collector.{
  Tick, to_float, float_or_none, bool_or_none, float_distances, build_tick_row, add_tick, collect,
}

module _ (fl : Floats) where
  -- What the report reads of a row, told of its tick.
  record IsRowOf (a : Tick fl) (row : Row fl) : Type 0 where
    collided : look_up "collision" row ≡ bool_or_none fl a.collision
    flagged : IsFlagged fl "collision" "collision_count" row
    timed : first_of fl (number_at fl) ttc_keys row ≡ as_float fl a.ttc
    progress : fl.Float
    progress_of : to_float fl a.route_progress ≡ ok progress
    progressed : first_of fl (number_at fl) ("route_progress" ∷ []) row ≡ some progress

  row_of : Data fl → Row fl
  row_of v = field "min_ttc" (float_or_none fl v) (field "ttc" (float_or_none fl v) end)

  told_ttc : (v : Data fl) → first_of fl (number_at fl) ttc_keys (row_of v) ≡ as_float fl v
  unfolding first_of row_of
  told_ttc null = refl
  told_ttc (bool b) = refl
  told_ttc (int n) = refl
  told_ttc (float x) = refl
  told_ttc (str t) = refl
  told_ttc (arr vs) = refl
  told_ttc (obj fs) = refl

  row-IsRowOf : (a : Tick fl) (row : Row fl) → build_tick_row fl a ≡ ok row → IsRowOf a row
  unfolding build_tick_row first_of row_of
  row-IsRowOf a row h =
      let (t, e1, h1) = >>=-eq-ok (to_float fl a.t_sec) _ h in
      let (s, e2, h2) = >>=-eq-ok (to_float fl a.ego_speed_mps) _ h1 in
      let (d, e3, h3) = >>=-eq-ok (float_distances fl a.actor_distances_m) _ h2 in
      let (p, e4, h4) = >>=-eq-ok (to_float fl a.route_progress) _ h3 in
      transport (ap (IsRowOf a) (ok_unique refl h4)) (record {
        collided = refl;
        flagged = refl;
        timed = told_ttc a.ttc;
        progress = p;
        progress_of = e4;
        progressed = refl;
      })

  -- The rows are those of the ticks, in order.
  abbrev Rows : List (Tick fl) → List (Row fl) → Type 0
  Rows [] [] = Unit
  Rows (a ∷ ticks) (row ∷ rows) = IsRowOf a row × Rows ticks rows
  Rows _ _ = ⊥

  collect-Rows :
      (ticks : List (Tick fl)) (before rows : List (Row fl))
      → collect fl ticks before ≡ ok rows
      → (new : List (Row fl)) × (rows ≡ before ++ new) × Rows ticks new
  unfolding collect add_tick
  collect-Rows [] before rows h = ([], sym (ok_unique refl h) ∙ sym (append-nil before), tt)
  collect-Rows (a ∷ ticks) before rows h =
      let (r, e, h1) = >>=-eq-ok (add_tick fl a before) _ h in
      let (row, e2, h2) = >>=-eq-ok (build_tick_row fl a) _ e in
      let (new, same, made) = collect-Rows ticks r.1 rows h1 in
      (
        row ∷ new,
        same
            ∙ ap (λ x. x ++ new) (sym (ap (λ x. x.1) (ok_unique refl h2)))
            ∙ append_assoc before (row ∷ []) new,
        (row-IsRowOf a row e2, made),
      )

  -- A time to collision that is a number is no NaN.
  abbrev pub IsTimed : Tick fl → Type 0
  IsTimed a = (x : fl.Float) → as_float fl a.ttc ≡ some x → is_ordered fl x ≡ true

  IsFlagged-Rows :
      (ticks : List (Tick fl)) (rows : List (Row fl))
      → Rows ticks rows
      → All (IsFlagged fl "collision" "collision_count") rows
  IsFlagged-Rows [] [] h = tt
  IsFlagged-Rows [] (row ∷ rows) h = absurd h
  IsFlagged-Rows (a ∷ ticks) [] h = absurd h
  IsFlagged-Rows (a ∷ ticks) (row ∷ rows) h = (h.0.flagged, IsFlagged-Rows ticks rows h.1)

  timed-Rows :
      (ticks : List (Tick fl)) (rows : List (Row fl))
      → Rows ticks rows
      → All IsTimed ticks
      → All (Tells fl (number_at fl) ttc_keys (λ v. is_ordered fl v ≡ true)) rows
  timed-Rows [] [] h k = tt
  timed-Rows [] (row ∷ rows) h k = absurd h
  timed-Rows (a ∷ ticks) [] h k = absurd h
  timed-Rows (a ∷ ticks) (row ∷ rows) h k =
      (λ v told. k.0 v (sym h.0.timed ∙ told), timed-Rows ticks rows h.1 k.1)

  -- No tick told a collision, every time to collision was at least one second, and at some tick 95 per
  -- cent of the route was done.
  pub record IsSafeDrive (ticks : List (Tick fl)) : Type 0 where
    pub no_collision : All (λ a. is_raised fl a.collision ≡ false) ticks
    pub clear :
        All
          (λ a.
            (x : fl.Float) → as_float fl a.ttc ≡ some x → fl.le_float (fl.literal 10 1) x ≡ true)
          ticks
    pub arrived :
        Somewhere
          (λ a.
            (p : fl.Float) × (to_float fl a.route_progress ≡ ok p)
            × (fl.le_float (fl.literal 95 2) p ≡ true))
          ticks

  raised_flag : (v : Data fl) → is_raised fl (bool_or_none fl v) ≡ is_raised fl v
  raised_flag v = ground arith

  uncollided_ticks :
      (ticks : List (Tick fl)) (rows : List (Row fl))
      → Rows ticks rows
      → All (λ row. is_raised fl (look_up "collision" row) ≡ false) rows
      → All (λ a. is_raised fl a.collision ≡ false) ticks
  uncollided_ticks [] [] h k = tt
  uncollided_ticks [] (row ∷ rows) h k = absurd h
  uncollided_ticks (a ∷ ticks) [] h k = absurd h
  uncollided_ticks (a ∷ ticks) (row ∷ rows) h k = (
    sym (raised_flag a.collision) ∙ ap (is_raised fl) (sym h.0.collided) ∙ k.0,
    uncollided_ticks ticks rows h.1 k.1,
  )

  clear_ticks :
      (ticks : List (Tick fl)) (rows : List (Row fl))
      → Rows ticks rows
      → All (Tells fl (number_at fl) ttc_keys (λ v. fl.le_float (fl.literal 10 1) v ≡ true)) rows
      → All
          (λ a.
            (x : fl.Float) → as_float fl a.ttc ≡ some x → fl.le_float (fl.literal 10 1) x ≡ true)
          ticks
  clear_ticks [] [] h k = tt
  clear_ticks [] (row ∷ rows) h k = absurd h
  clear_ticks (a ∷ ticks) [] h k = absurd h
  clear_ticks (a ∷ ticks) (row ∷ rows) h k =
      (λ x told. k.0 x (h.0.timed ∙ told), clear_ticks ticks rows h.1 k.1)

  arrived_ticks :
      (ticks : List (Tick fl)) (rows : List (Row fl))
      → Rows ticks rows
      → Somewhere
          (Reaches fl
            (number_at fl)
            ("route_progress" ∷ [])
            (λ v. fl.le_float (fl.literal 95 2) v ≡ true))
          rows
      → Somewhere
          (λ a.
            (p : fl.Float) × (to_float fl a.route_progress ≡ ok p)
            × (fl.le_float (fl.literal 95 2) p ≡ true))
          ticks
  arrived_ticks [] [] h k = absurd k
  arrived_ticks [] (row ∷ rows) h k = absurd h
  arrived_ticks (a ∷ ticks) [] h k = absurd h
  arrived_ticks (a ∷ ticks) (row ∷ rows) h (inr k) = inr (arrived_ticks ticks rows h.1 k)
  arrived_ticks (a ∷ ticks) (row ∷ rows) h (inl (v, told, reached)) =
      let same = some_unique (sym told ∙ h.0.progressed) in
      inl (
        h.0.progress,
        h.0.progress_of,
        transport (ap (λ x. fl.le_float (fl.literal 95 2) x ≡ true) same) reached,
      )

  -- The report of the rows that a new collector has gathered passes the default criteria only for a
  -- safe drive: no tick told a collision, every time to collision that is a number was at least one
  -- second, and at some tick 95 per cent of the route was done. No time to collision of the ticks is
  -- NaN, and comparisons of the other floats are a total order in which just the int 0 equals 0.
  pub collect-IsSafeDrive :
      (repr : Value fl.Float → String) (ticks : List (Tick fl)) (run_config : Fields fl.Float)
      (rows : List (Row fl)) (status : String) (r : ClosedLoopReport fl repr)
      → IsComparable fl
      → ((n : ℤ) → fl.eq_float (fl.of_int n) (fl.of_int (pos 0)) ≡ true → n ≡ pos 0)
      → All IsTimed ticks
      → collect fl ticks [] ≡ ok rows
      → build_closed_loop_report fl repr run_config rows status ≡ ok r
      → criteria_from_run_config fl repr run_config ≡ ok (default_criteria fl repr)
      → r.evaluation.overall ≡ pass
      → IsSafeDrive ticks
  collect-IsSafeDrive repr ticks run_config rows status r law zero timed gathered built asked
        passed =
      let (new, same, rows_of) = collect-Rows ticks [] rows gathered in
      let made = transport (ap (Rows ticks) (sym same)) rows_of in
      let safe =
        build_closed_loop_report-IsSafeRun fl repr run_config rows status r law zero built asked
          passed (IsFlagged-Rows ticks rows made) (timed-Rows ticks rows made timed) in
      record {
        no_collision = uncollided_ticks ticks rows made safe.no_collision;
        clear = clear_ticks ticks rows made safe.clear;
        arrived = arrived_ticks ticks rows made safe.arrived;
      }
