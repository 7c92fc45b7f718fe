-- ===== src/Plugin/Contained.antt =====
-- Which exceptions leave a call of `predict`: none, where the validity of the sensors is no None and
-- the health status can be hashed, and no int is too large for a float.
use closed_loop_bench.Base.{
  and_parts, ℕ, String, Bool, true, false, ◌&&◌, ◌||◌, not, List, [], ◌∷◌, all, Option, none, some,
  ◌≡◌, refl, ap, sym, arith, Option-cases, inl, inr, if◌then◌else◌,
}
use mathlib.Core.Path.{transport}
use closed_loop_bench.Base.Outcome.{
  Outcome, ok, err, Error, contract_error, overflow_error, ok_unique, guard, guard-eq-ok, refuse,
  ◌>>=◌, ◌>>◌,
}
use closed_loop_bench.Json.{
  pos, negsuc, Floats, Fields, end, null, bool, int, float, str, arr, obj, find, get, at, is_null,
  is_obj, equals_int, converts,
}
use closed_loop_bench.Plugin.Checks.{
  Data, Capability, has, get_or, is_false, control_fields, finite_number, ranged_at, is_boolean,
  validate_control, validate_observation, frame_number, is_stale, is_off, camera_missing,
  any_missing, fields_of, check_lidar, check_synchronization, finite_nonnegative, fails,
}

-- A result that `except PluginContractError` deals with.
pub data IsContained {A : Type 0} : Outcome A → Type 0 where
  returns : (a : A) → IsContained (ok a)
  refuses : (text : String) → IsContained (err (contract_error text))

pub IsContained-bind :
    {A C : Type 0} (x : Outcome A) (rest : A → Outcome C)
    → IsContained x
    → ((a : A) → x ≡ ok a → IsContained (rest a))
    → IsContained (x >>= rest)
IsContained-bind _ rest (IsContained.returns a) k = k a refl
IsContained-bind _ rest (IsContained.refuses text) k = IsContained.refuses text

pub IsContained-guard : (b : Bool) (text : String) → IsContained (guard b (contract_error text))
IsContained-guard true text = IsContained.returns tt
IsContained-guard false text = IsContained.refuses text

IsContained-refuse : (b : Bool) (text : String) → IsContained (refuse b (contract_error text))
IsContained-refuse true text = IsContained.refuses text
IsContained-refuse false text = IsContained.returns tt

IsContained-if :
    {A : Type 0} (b : Bool) (x y : Outcome A)
    → IsContained x
    → IsContained y
    → IsContained (if b then x else y)
IsContained-if true x y h k = h
IsContained-if false x y h k = k

module _ (fl : Floats) where
  frame-IsContained : (v : Data fl) → IsContained (frame_number fl v)
  frame-IsContained (int (pos n)) = IsContained.returns n
  frame-IsContained (int (negsuc n)) = IsContained.refuses _
  frame-IsContained null = IsContained.refuses _
  frame-IsContained (bool b) = IsContained.refuses _
  frame-IsContained (float x) = IsContained.refuses _
  frame-IsContained (str s) = IsContained.refuses _
  frame-IsContained (arr vs) = IsContained.refuses _
  frame-IsContained (obj fs) = IsContained.refuses _

  found-IsContained :
      (o : Option (Data fl)) → IsContained {A = Data fl} (elim o [ none ↦ ok null | some v ↦ ok v ])
  found-IsContained none = IsContained.returns null
  found-IsContained (some v) = IsContained.returns v

  off-IsContained : (fs : Fields fl.Float) (k : String) → IsContained (is_off fl (obj fs) k)
  off-IsContained fs k =
      IsContained-bind (get k (obj fs)) (λ v. ok (is_false v)) (found-IsContained (find k fs))
        λ v p. IsContained.returns (is_false v)

  camera_found :
      (o : Option (Data fl)) (validity : Fields fl.Float) (camera : String)
      → IsContained {A = Bool} (elim o [
        | none ↦ ok true
        | some v ↦ if is_null v then ok true else is_off fl (obj validity) camera
      ])
  camera_found none validity camera = IsContained.returns true
  camera_found (some v) validity camera =
      IsContained-if (is_null v) (ok true) (is_off fl (obj validity) camera)
        (IsContained.returns true) (off-IsContained validity camera)

  camera-IsContained :
      (rgb validity : Fields fl.Float) (camera : String)
      → IsContained (camera_missing fl rgb (obj validity) camera)
  camera-IsContained rgb validity camera = camera_found (find camera rgb) validity camera

  missing-IsContained :
      (rgb validity : Fields fl.Float) (cameras : List String)
      → IsContained (any_missing fl rgb (obj validity) cameras)
  unfolding any_missing
  missing-IsContained rgb validity [] = IsContained.returns false
  missing-IsContained rgb validity (c ∷ cs) =
      IsContained-bind (camera_missing fl rgb (obj validity) c) _
        (camera-IsContained rgb validity c)
        λ missing p.
          IsContained-bind (any_missing fl rgb (obj validity) cs) _
            (missing-IsContained rgb validity cs) λ rest q. IsContained.returns _

  fields-IsContained : (text : String) (v : Data fl) → IsContained (fields_of fl text v)
  fields-IsContained text (obj fs) = IsContained.returns fs
  fields-IsContained text null = IsContained.refuses _
  fields-IsContained text (bool b) = IsContained.refuses _
  fields-IsContained text (int n) = IsContained.refuses _
  fields-IsContained text (float x) = IsContained.refuses _
  fields-IsContained text (str s) = IsContained.refuses _
  fields-IsContained text (arr vs) = IsContained.refuses _

  lidar-IsContained :
      (wanted : Bool) (fs validity : Fields fl.Float)
      → IsContained (check_lidar fl wanted fs (obj validity))
  lidar-IsContained false fs validity = IsContained.returns tt
  lidar-IsContained true fs validity =
      IsContained-if (is_null (get_or "lidar" null fs)) _ _ (IsContained.refuses _) (
        IsContained-bind (is_off fl (obj validity) "lidar") _ (off-IsContained validity "lidar")
          λ off p. IsContained-refuse off _)

  synchronization-IsContained : (n : ℕ) (v : Data fl) → IsContained (check_synchronization fl n v)
  synchronization-IsContained n null = IsContained.returns tt
  synchronization-IsContained n (obj fs) = IsContained-guard _ _
  synchronization-IsContained n (bool b) = IsContained.refuses _
  synchronization-IsContained n (int k) = IsContained.refuses _
  synchronization-IsContained n (float x) = IsContained.refuses _
  synchronization-IsContained n (str s) = IsContained.refuses _
  synchronization-IsContained n (arr vs) = IsContained.refuses _

  obj_of : (v : Data fl) → is_obj v ≡ true → (gs : Fields fl.Float) × (v ≡ obj gs)
  obj_of (obj gs) h = (gs, refl)
  obj_of null h = cc
  obj_of (bool b) h = cc
  obj_of (int k) h = cc
  obj_of (float x) h = cc
  obj_of (str s) h = cc
  obj_of (arr vs) h = cc

  -- The checks of an observation after its validity is known to be a dict.
  rest-IsContained :
      (fs validity : Fields fl.Float) (capability : Capability fl) (n : ℕ) (v : Data fl)
      → v ≡ obj validity
      → IsContained (do
        rgb ←
            fields_of fl "observation rgb/sensors must be an object"
              (get_or "rgb" (get_or "sensors" (obj end) fs) fs)
        missing ← any_missing fl rgb v capability.required_rgb_cameras
        refuse missing (contract_error "missing_sensors: RGB cameras")
        check_lidar fl capability.requires_lidar fs v
        refuse
            (capability.uses_ego_state && not (is_obj (get_or "ego_state" null fs)))
            (contract_error "missing_ego_state")
        refuse
            (capability.uses_route && not (is_obj (get_or "route" null fs)))
            (contract_error "missing_route")
        check_synchronization fl n (get_or "synchronization" null fs)
        ok n)
  rest-IsContained fs validity capability n v same = rw same (
      search
        (
          IsContained-bind, IsContained-refuse, fields-IsContained, missing-IsContained,
          lidar-IsContained, synchronization-IsContained, IsContained.returns,
        )
        depth 12)

  -- `sensor_validity` is not None: left out, a dict, or something that the check refuses.
  abbrev pub tells_validity : Data fl → Bool
  tells_validity (obj fs) = not (is_null (get_or "sensor_validity" (obj end) fs))
  tells_validity _ = true

  either_obj :
      (v : Data fl) → not (is_null v) ≡ true → (is_null v || is_obj v) ≡ true → is_obj v ≡ true
  either_obj v told h = ground arith

  -- The time of the observation is no int that no float holds.
  abbrev pub time_converts : Data fl → Bool
  time_converts (obj fs) = converts fl (get_or "timestamp" (get_or "t_sec" null fs) fs)
  time_converts _ = true

  guard-known : (b : Bool) (e : Error) → b ≡ true → IsContained (guard b e)
  guard-known true e h = IsContained.returns tt
  guard-known false e h = cc

  pub observation-IsContained :
      (observation : Data fl) (capability : Capability fl) (last : Option ℕ)
      → tells_validity observation ≡ true
      → time_converts observation ≡ true
      → IsContained (validate_observation fl observation capability last)
  unfolding validate_observation
  observation-IsContained (obj fs) capability last told small =
      IsContained-bind (frame_number fl (get_or "frame_id" null fs)) _ (frame-IsContained _) λ n p1.
        IsContained-bind (refuse (is_stale fl last n) (contract_error "stale_frame")) _
          (IsContained-refuse _ _)
          λ u1 p2.
            IsContained-bind
              (guard (converts fl (get_or "timestamp" (get_or "t_sec" null fs) fs)) overflow_error)
              _ (guard-known _ _ small)
              λ u0 p0.
                IsContained-bind
                  (guard (finite_nonnegative fl (get_or "timestamp" (get_or "t_sec" null fs) fs))
                    (contract_error "observation timestamp must be finite and non-negative"))
                  _ (IsContained-guard _ _)
                  λ u2 p3.
                    let v = get_or "sensor_validity" (obj end) fs in
                    IsContained-bind
                      (guard (is_null v || is_obj v)
                        (contract_error "sensor_validity must be an object"))
                      _ (IsContained-guard _ _)
                      λ u3 p4.
                        let (gs, same) = obj_of v (either_obj v told (guard-eq-ok _ _ p4)) in
                        rest-IsContained fs gs capability n v same
  observation-IsContained null capability last told small = IsContained.refuses _
  observation-IsContained (bool b) capability last told small = IsContained.refuses _
  observation-IsContained (int n) capability last told small = IsContained.refuses _
  observation-IsContained (float x) capability last told small = IsContained.refuses _
  observation-IsContained (str s) capability last told small = IsContained.refuses _
  observation-IsContained (arr vs) capability last told small = IsContained.refuses _

  at_found :
      (k : String) (fs : Fields fl.Float)
      → has fs k ≡ true
      → IsContained {A = Data fl} (at k (obj fs))
  at_found k fs h = elim (Option-cases (find k fs)) [
    | inl absent ↦ absurd (ground arith)
    | inr (v, there) ↦
        let e : at k (obj fs) ≡ ok v = ground arith in
        transport (ap IsContained (sym e)) (IsContained.returns v)
  ]

  ranged_value :
      (o : Option fl.Float) (lower upper : fl.Float)
      → IsContained {A = fl.Float} (elim o [
        | none ↦ fails "invalid_control: must be finite"
        | some x ↦
            if fl.le_float lower x && fl.le_float x upper
            then ok x
            else fails "invalid_control: outside its range"
      ])
  ranged_value none lower upper = IsContained.refuses _
  ranged_value (some x) lower upper =
      IsContained-if (fl.le_float lower x && fl.le_float x upper) _ _ (IsContained.returns x)
        (IsContained.refuses _)

  -- The commands of an answer are no ints that no float holds.
  abbrev converts_at : Fields fl.Float → String → Bool
  converts_at fs name = elim (find name fs) [ none ↦ true | some v ↦ converts fl v ]

  abbrev pub commands_convert : Data fl → Bool
  commands_convert (obj fs) =
      converts_at fs "throttle" && converts_at fs "steer" && converts_at fs "brake"
  commands_convert _ = true

  found_converts :
      (fs : Fields fl.Float) (k : String) (v : Data fl)
      → at k (obj fs) ≡ ok v
      → converts_at fs k ≡ true
      → converts fl v ≡ true
  found_converts fs k v p h = elim (Option-cases (find k fs)) [
    | inl absent ↦ absurd (ground arith)
    | inr (w, there) ↦
        let same : w ≡ v = ok_unique (ground arith) p in
        transport (ap (λ x. converts fl x ≡ true) same) (ground (arith, there, h))
  ]

  ranged-IsContained :
      (k : String) (lower upper : fl.Float) (fs : Fields fl.Float)
      → has fs k ≡ true
      → converts_at fs k ≡ true
      → IsContained (ranged_at fl k lower upper fs)
  ranged-IsContained k lower upper fs h small =
      IsContained-bind (at k (obj fs)) _ (at_found k fs h) λ v p.
        IsContained-bind (guard (converts fl v) overflow_error) _
          (guard-known _ _ (found_converts fs k v p small))
          λ u q. ranged_value (finite_number fl v) lower upper

  all-has :
      (fs : Fields fl.Float)
      → all (has fs) control_fields ≡ true
      → (has fs "throttle" ≡ true)
        × (has fs "steer" ≡ true)
        × (has fs "brake" ≡ true)
        × (has fs "hand_brake" ≡ true)
        × (has fs "reverse" ≡ true)
        × (has fs "source_frame_id" ≡ true)
  all-has fs h = ground arith

  pub control-IsContained :
      (candidate : Data fl) (n : ℕ)
      → commands_convert candidate ≡ true
      → IsContained (validate_control fl candidate n)
  unfolding validate_control
  control-IsContained (obj fs) n small =
      let (small1, brake_small) = and_parts _ _ small in
      let (throttle_small, steer_small) = and_parts _ _ small1 in
      IsContained-bind (guard (all (has fs) control_fields) _) _ (IsContained-guard _ _)
        λ u complete.
          let (h1, h2, h3, h4, h5, h6) = all-has fs (guard-eq-ok _ _ complete) in
          IsContained-bind (ranged_at fl "throttle" _ _ fs) _
            (ranged-IsContained _ _ _ fs h1 throttle_small)
            λ t p1.
              IsContained-bind (ranged_at fl "steer" _ _ fs) _
                (ranged-IsContained _ _ _ fs h2 steer_small)
                λ s p2.
                  IsContained-bind (ranged_at fl "brake" _ _ fs) _
                    (ranged-IsContained _ _ _ fs h3 brake_small)
                    λ b p3.
                      IsContained-bind (at "hand_brake" (obj fs)) _ (at_found "hand_brake" fs h4)
                        λ hand p4.
                          IsContained-bind (at "reverse" (obj fs)) _ (at_found "reverse" fs h5)
                            λ back p5.
                              IsContained-bind (guard (is_boolean fl hand && is_boolean fl back) _)
                                _ (IsContained-guard _ _)
                                λ u1 p6.
                                  IsContained-bind (at "source_frame_id" (obj fs)) _
                                    (at_found "source_frame_id" fs h6)
                                    λ source p7.
                                      IsContained-bind (guard (equals_int fl source (pos n)) _) _
                                        (IsContained-guard _ _) λ u2 p8. IsContained.returns _
  control-IsContained null n small = IsContained.refuses _
  control-IsContained (bool b) n small = IsContained.refuses _
  control-IsContained (int k) n small = IsContained.refuses _
  control-IsContained (float x) n small = IsContained.refuses _
  control-IsContained (str s) n small = IsContained.refuses _
  control-IsContained (arr vs) n small = IsContained.refuses _
