-- ===== src/Observation/SameTick.antt =====
-- What an observation that is ready consists of.
use closed_loop_bench.Base.{
  String, Bool, true, false, not, List, [], ◌∷◌, keep, any, is_empty, Option, none, some, ◌≡◌, refl,
  ◌∙◌, sym, ap, arith, eq_refl, Bool-cases, Option-cases, inl, inr, All, none_kept,
}
use mathlib.Core.Path.{transport}
use closed_loop_bench.Json.{pos, Floats, is_null}
use closed_loop_bench.Observation.{
  Frame, index, label, same_frame, camera_channel, ego_state_fields, route_fields, Sample,
  Aggregator, Reason, Observation, blocked, ready, required_channels, channel, is_absent, gather,
  smallest, largest, missing_fields, calibration_error, check_cameras, differs, is_unexpected,
  finish, finished, check_times, check_frames, with_both, build,
}

same_frame_refl : (f : Frame) → same_frame f f ≡ true
same_frame_refl (index n) = ground arith
same_frame_refl (label s) = eq_refl s

none_differs :
    {A : Type 0} (p : A → Bool) (xs : List A)
    → any (λ x. not (p x)) xs ≡ false
    → All (λ x. p x ≡ true) xs
none_differs p [] h = tt
none_differs p (x ∷ xs) h = elim (Bool-cases (p x)) [
  | inl q ↦ (q, none_differs p xs (ground arith))
  | inr q ↦ absurd (ground arith)
]

module _ (fl : Floats) (a : Aggregator fl) where
  -- A channel holds a sample of the tick.
  abbrev pub OfTick : Frame → String → Type 0
  OfTick frame name =
      (s : Sample fl) × (channel fl name a ≡ some s) × (same_frame s.frame_id frame ≡ true)

  -- A camera's sample has data and, where that is wanted, a valid calibration.
  abbrev pub Sees : String → Type 0
  Sees camera =
      (s : Sample fl) × (channel fl (camera_channel camera) a ≡ some s)
      × (is_null s.value ≡ false)
      × (calibration_error fl a s ≡ none)

  -- The ages of the oldest and of the newest sample are within the bounds of the aggregator.
  pub record IsTimely (now oldest newest : fl.Float) : Type 0 where
    pub not_future : fl.lt_float (fl.sub now oldest) (fl.neg a.max_skew_sec) ≡ false
    pub not_stale : fl.lt_float a.timeout_sec (fl.sub now oldest) ≡ false
    pub not_skewed : fl.lt_float a.max_skew_sec (fl.sub newest oldest) ≡ false

  -- The time stamps of the oldest and of the newest of some samples.
  abbrev pub earliest : List (String × Sample fl) → fl.Float
  earliest [] = fl.of_int (pos 0)
  earliest ((name, s) ∷ ss) = smallest fl s.t_sec ss

  abbrev pub latest : List (String × Sample fl) → fl.Float
  latest [] = fl.of_int (pos 0)
  latest ((name, s) ∷ ss) = largest fl s.t_sec ss

  -- What an observation that is ready has.
  pub record IsSameTick (now : fl.Float) (expected : Option Frame) (o : Observation fl)
      : Type 0 where
    pub channels_of_tick : All (OfTick o.frame_id) (required_channels fl a)
    pub cameras_see : All Sees a.required_cameras
    pub state_complete : is_empty (missing_fields fl o.ego_state ego_state_fields) ≡ true
    pub route_complete : is_empty (missing_fields fl o.route route_fields) ≡ true
    pub frame_expected : is_unexpected fl expected o.frame_id ≡ false
    pub timely :
        IsTimely now
          (earliest (gather fl a (required_channels fl a)))
          (latest (gather fl a (required_channels fl a)))
    pub newest : o.t_sec ≡ latest (gather fl a (required_channels fl a))

  gather_hit :
      (n : String) (ns : List String) (s : Sample fl)
      → channel fl n a ≡ some s
      → gather fl a (n ∷ ns) ≡ (n, s) ∷ gather fl a ns
  unfolding gather
  gather_hit n ns s p = ground arith

  gathered :
      (frame : Frame) (names : List String)
      → All (λ n. is_absent fl a n ≡ false) names
      → All (λ e. same_frame e.1.frame_id frame ≡ true) (gather fl a names)
      → All (OfTick frame) names
  unfolding gather
  gathered frame [] h g = tt
  gathered frame (n ∷ ns) h g = elim (Option-cases (channel fl n a)) [
    | inl p ↦ absurd (ground (arith, h.0, p))
    | inr (s, p) ↦
        let g' =
          transport (ap (All (λ e. same_frame e.1.frame_id frame ≡ true)) (gather_hit n ns s p))
            g in
        ((s, p, g'.0), gathered frame ns h.1 g'.1)
  ]

  cameras_checked : (cameras : List String) → check_cameras fl a cameras ≡ none → All Sees cameras
  unfolding check_cameras
  cameras_checked [] h = tt
  cameras_checked (c ∷ cs) h = elim (Option-cases (channel fl (camera_channel c) a)) [
    | inl p ↦ absurd (ground arith)
    | inr (s, p) ↦ elim (Bool-cases (is_null s.value)) [
      | inl q ↦ absurd (ground arith)
      | inr q ↦ elim (Option-cases (calibration_error fl a s)) [
        | inl r ↦ ((s, p, q, r), cameras_checked cs (ground arith))
        | inr (text, r) ↦ absurd (ground arith)
      ]
    ]
  ]

  not_ready : (r : Reason fl) (o : Observation fl) → blocked r ≡ ready o → ⊥
  not_ready r o h = cc

  ready_unique : (o p : Observation fl) → ready o ≡ ready p → o ≡ p
  ready_unique o p h = cc

  -- The end of a build that is ready.
  pub record IsFinished (frame : Frame) (newest : fl.Float) (o : Observation fl) : Type 0 where
    pub frame_at : o.frame_id ≡ frame
    pub newest_at : o.t_sec ≡ newest
    pub see : All Sees a.required_cameras
    pub states : is_empty (missing_fields fl o.ego_state ego_state_fields) ≡ true
    pub routes : is_empty (missing_fields fl o.route route_fields) ≡ true

  finish-IsFinished :
      (frame : Frame) (newest : fl.Float) (ego route : Sample fl) (o : Observation fl)
      → finish fl a frame newest ego route ≡ ready o
      → IsFinished frame newest o
  unfolding finish
  finish-IsFinished frame newest ego route o h =
      elim (Bool-cases (is_empty (missing_fields fl ego.value ego_state_fields))) [
        | inr p ↦ absurd (ground (arith, p, h))
        | inl p ↦ elim (Bool-cases (is_empty (missing_fields fl route.value route_fields))) [
          | inr q ↦ absurd (ground (arith, p, q, h))
          | inl q ↦ elim (Option-cases (check_cameras fl a a.required_cameras)) [
            | inr (r, c) ↦ absurd (ground (arith, p, q, c, h))
            | inl c ↦
                let e : finish fl a frame newest ego route
                    ≡ ready (finished fl a frame newest ego route) =
                  ground (arith, p, q, c) in
                let same = ready_unique (finished fl a frame newest ego route) o (sym e ∙ h) in
                transport (ap (IsFinished frame newest) same) (record {
                  frame_at = refl;
                  newest_at = refl;
                  see = cameras_checked a.required_cameras c;
                  states = p;
                  routes = q;
                })
          ]
        ]
      ]

  times-IsTimely :
      (now : fl.Float) (frame : Frame) (oldest newest : fl.Float) (ego route : Sample fl)
      (o : Observation fl)
      → check_times fl a now frame oldest newest ego route ≡ ready o
      → IsTimely now oldest newest × (finish fl a frame newest ego route ≡ ready o)
  unfolding check_times
  times-IsTimely now frame oldest newest ego route o h = (
    record { not_future = ground arith; not_stale = ground arith; not_skewed = ground arith },
    ground arith,
  )

  frames_parts :
      (now : fl.Float) (expected : Option Frame) (ss : List (String × Sample fl))
      (ego route : Sample fl) (o : Observation fl)
      → check_frames fl a now expected ss ego route ≡ ready o
      → All (λ e. same_frame e.1.frame_id o.frame_id ≡ true) ss
        × (is_unexpected fl expected o.frame_id ≡ false)
        × IsTimely now (earliest ss) (latest ss)
        × (o.t_sec ≡ latest ss)
        × IsFinished o.frame_id o.t_sec o
  unfolding check_frames
  frames_parts now expected [] ego route o h = absurd (not_ready _ o h)
  frames_parts now expected ((name, s) ∷ ss) ego route o h =
      elim (Bool-cases (any (differs fl s.frame_id) ss)) [
        | inl p ↦ absurd (ground (arith, p, h))
        | inr p ↦ elim (Bool-cases (is_unexpected fl expected s.frame_id)) [
          | inl q ↦ absurd (ground (arith, p, q, h))
          | inr q ↦
              let oldest = smallest fl s.t_sec ss in
              let newest = largest fl s.t_sec ss in
              let (timely, done) =
                times-IsTimely now s.frame_id oldest newest ego route o (ground (arith, p, q, h)) in
              let end_ = finish-IsFinished s.frame_id newest ego route o done in
              let head_same = same_frame_refl s.frame_id in
              let rest_same = none_differs (λ e. same_frame e.1.frame_id s.frame_id) ss p in
              (
                transport
                    (ap (λ f. All (λ e. same_frame e.1.frame_id f ≡ true) ((name, s) ∷ ss))
                      (sym end_.frame_at))
                    (head_same, rest_same),
                ap (is_unexpected fl expected) end_.frame_at ∙ q,
                timely,
                end_.newest_at,
                record {
                  frame_at = refl;
                  newest_at = refl;
                  see = end_.see;
                  states = end_.states;
                  routes = end_.routes;
                },
              )
        ]
      ]

  both_parts :
      (now : fl.Float) (expected : Option Frame) (ego route : Option (Sample fl))
      (o : Observation fl)
      → All (λ n. is_absent fl a n ≡ false) (required_channels fl a)
      → with_both fl a now expected ego route ≡ ready o
      → IsSameTick now expected o
  both_parts now expected none route o present h = absurd (not_ready _ o h)
  both_parts now expected (some ego) none o present h = absurd (not_ready _ o h)
  both_parts now expected (some ego) (some route) o present h =
      let (same, wanted, timely, newest, done) =
        frames_parts now expected (gather fl a (required_channels fl a)) ego route o h in
      record {
        channels_of_tick = gathered o.frame_id (required_channels fl a) present same;
        cameras_see = done.see;
        state_complete = done.states;
        route_complete = done.routes;
        frame_expected = wanted;
        timely = timely;
        newest = newest;
      }

  -- An observation is ready only if every required channel holds a sample of the observation's tick,
  -- which is the expected tick where one is expected; the oldest and the newest sample are not from
  -- the future, not stale and not too far apart; every camera has data and, where that is wanted, a
  -- valid calibration; and the ego state and the route have all their fields.
  pub build-IsSameTick :
      (now : fl.Float) (expected : Option Frame) (o : Observation fl)
      → build fl a now expected ≡ ready o
      → IsSameTick now expected o
  unfolding build
  build-IsSameTick now expected o h =
      elim (Bool-cases (is_empty (keep (is_absent fl a) (required_channels fl a)))) [
        | inr p ↦ absurd (ground (arith, p, h))
        | inl p ↦
            both_parts now expected (channel fl "ego_state" a) (channel fl "route" a) o
              (none_kept (is_absent fl a) (required_channels fl a) p) (ground (arith, p, h))
      ]
