-- ===== src/Plugin/Control.antt =====
-- What a validated control holds: its commands are in range.
use closed_loop_bench.Base.{
  ℕ, String, true, false, ◌&&◌, ◌==◌, some, ◌≡◌, refl, ◌∙◌, ap, arith, Bool-cases, Option-cases,
  inl, inr, eq_refl, eq_iff, all, if◌then◌else◌,
}
use mathlib.Core.Path.{transport}
use closed_loop_bench.Base.Outcome.{ok, err, contract_error, >>=-eq-ok, guard-bind, ok_unique}
use closed_loop_bench.Json.{
  pos, negsuc, Floats, Value, Fields, end, field, null, bool, int, float, str, arr, obj, find, at,
  equals_int, converts,
}
use closed_loop_bench.Plugin.Checks.{
  Data, put_field, set_default, zero_float, finite_number, ranged_at, has, control_fields,
  validate_control, is_boolean,
}
use closed_loop_bench.Plugin.Executor.{Replies, complete_control}

find-put_field :
    {F : Type 0} (k : String) (v : Value F) (fs : Fields F) → find k (put_field k v fs) ≡ some v
unfolding put_field
find-put_field k v end = ground (arith, eq_refl k)
find-put_field k v (field j w fs) = elim (Bool-cases (j == k)) [
  | inl same ↦ ground (arith, same)
  | inr other ↦ ground (arith, other, find-put_field k v fs)
]

find-put_field-other :
    {F : Type 0} (k j : String) (v : Value F) (fs : Fields F)
    → (j == k) ≡ false
    → find k (put_field j v fs) ≡ find k fs
unfolding put_field
find-put_field-other k j v end h = ground arith
find-put_field-other k j v (field i w fs) h = elim (Bool-cases (i == j)) [
  | inl same ↦ ground (arith, same, find-put_field-other k j v fs h, eq_iff i j)
  | inr other ↦ ground (arith, other, find-put_field-other k j v fs h)
]

find-set_default :
    {F : Type 0} (k j : String) (v : Value F) (fs : Fields F)
    → (j == k) ≡ false
    → find k (set_default j v fs) ≡ find k fs
find-set_default k j v fs h = ground (arith, find-put_field-other k j v fs h)

module _ (fl : Floats) where
  -- A field that holds a float between two bounds.
  pub record IsRanged (name : String) (lower upper : fl.Float) (fs : Fields fl.Float) : Type 0 where
    pub value : fl.Float
    pub found : find name fs ≡ some (float value)
    pub within : (fl.le_float lower value && fl.le_float value upper) ≡ true

  -- The commands of a control are in range: throttle and brake between 0 and 1, steering between -1
  -- and 1.
  pub record IsControl (fs : Fields fl.Float) : Type 0 where
    pub throttle_in : IsRanged "throttle" (zero_float fl) (fl.of_int (pos 1)) fs
    pub steer_in : IsRanged "steer" (fl.of_int (negsuc 0)) (fl.of_int (pos 1)) fs
    pub brake_in : IsRanged "brake" (zero_float fl) (fl.of_int (pos 1)) fs

  ranged_ok :
      (lower upper x : fl.Float) (text : String) {y : fl.Float}
      → (if fl.le_float lower x && fl.le_float x upper then ok x else err (contract_error text))
        ≡ ok y
      → (fl.le_float lower y && fl.le_float y upper) ≡ true
  ranged_ok lower upper x text h = elim (Bool-cases (fl.le_float lower x && fl.le_float x upper)) [
    | inl inside ↦ ground arith
    | inr outside ↦ absurd (ground arith)
  ]

  ranged_at-within :
      (name : String) (lower upper : fl.Float) (fs : Fields fl.Float) {x : fl.Float}
      → ranged_at fl name lower upper fs ≡ ok x
      → (fl.le_float lower x && fl.le_float x upper) ≡ true
  ranged_at-within name lower upper fs h =
      let (v, found, h0) = >>=-eq-ok (at name (obj fs)) _ h in
      let (fit, h1) = guard-bind (converts fl v) _ _ h0 in
      elim (Option-cases (finite_number fl v)) [
        | inl no_number ↦ absurd (ground (arith, h1))
        | inr (x, number) ↦ ranged_ok lower upper x _ (rw number at h1)
      ]

  IsRanged-put :
      (name : String) (lower upper x : fl.Float) (fs : Fields fl.Float)
      → (fl.le_float lower x && fl.le_float x upper) ≡ true
      → IsRanged name lower upper (put_field name (float x) fs)
  IsRanged-put name lower upper x fs inside = record {
    value = x;
    found = find-put_field name (float x) fs;
    within = inside;
  }

  IsRanged-keep :
      (name j : String) (lower upper : fl.Float) (v : Data fl) (fs : Fields fl.Float)
      → (j == name) ≡ false
      → IsRanged name lower upper fs
      → IsRanged name lower upper (put_field j v fs)
  IsRanged-keep name j lower upper v fs other r = record {
    value = r.value;
    found = find-put_field-other name j v fs other ∙ r.found;
    within = r.within;
  }

  IsRanged-default :
      (name j : String) (lower upper : fl.Float) (v : Data fl) (fs : Fields fl.Float)
      → (j == name) ≡ false
      → IsRanged name lower upper fs
      → IsRanged name lower upper (set_default j v fs)
  IsRanged-default name j lower upper v fs other r = record {
    value = r.value;
    found = find-set_default name j v fs other ∙ r.found;
    within = r.within;
  }

  commands :
      (t s b : fl.Float) (fs : Fields fl.Float)
      → (fl.le_float (zero_float fl) t && fl.le_float t (fl.of_int (pos 1))) ≡ true
      → (fl.le_float (fl.of_int (negsuc 0)) s && fl.le_float s (fl.of_int (pos 1))) ≡ true
      → (fl.le_float (zero_float fl) b && fl.le_float b (fl.of_int (pos 1))) ≡ true
      → IsControl (
          put_field "brake"
            (float b)
            (put_field "steer" (float s) (put_field "throttle" (float t) fs)))
  commands t s b fs t_in s_in b_in = record {
    throttle_in =
        IsRanged-keep "throttle" "brake" _ _ _ _ refl
          (IsRanged-keep "throttle" "steer" _ _ _ _ refl (IsRanged-put "throttle" _ _ t fs t_in));
    steer_in = IsRanged-keep "steer" "brake" _ _ _ _ refl (IsRanged-put "steer" _ _ s _ s_in);
    brake_in = IsRanged-put "brake" _ _ b _ b_in;
  }

  -- A control that passed its checks has its commands in range.
  pub validate_control-IsControl :
      (candidate : Data fl) (n : ℕ) {control : Fields fl.Float}
      → validate_control fl candidate n ≡ ok control
      → IsControl control
  unfolding validate_control
  validate_control-IsControl (obj fs) n h =
      let (complete, h1) = guard-bind (all (has fs) control_fields) _ _ h in
      let (t, t_at, h2) = >>=-eq-ok (ranged_at fl "throttle" _ _ fs) _ h1 in
      let (s, s_at, h3) = >>=-eq-ok (ranged_at fl "steer" _ _ fs) _ h2 in
      let (b, b_at, h4) = >>=-eq-ok (ranged_at fl "brake" _ _ fs) _ h3 in
      let (hand_brake, hand_at, h5) = >>=-eq-ok (at "hand_brake" (obj fs)) _ h4 in
      let (reverse, reverse_at, h6) = >>=-eq-ok (at "reverse" (obj fs)) _ h5 in
      let (flags, h7) = guard-bind (is_boolean fl hand_brake && is_boolean fl reverse) _ _ h6 in
      let (source, source_at, h8) = >>=-eq-ok (at "source_frame_id" (obj fs)) _ h7 in
      let (same, h9) = guard-bind (equals_int fl source (pos n)) _ _ h8 in
      transport (ap IsControl (ok_unique refl h9)) (
        commands t s b fs (ranged_at-within "throttle" _ _ fs t_at)
          (ranged_at-within "steer" _ _ fs s_at) (ranged_at-within "brake" _ _ fs b_at))
  validate_control-IsControl null n h = cc
  validate_control-IsControl (bool b) n h = cc
  validate_control-IsControl (int k) n h = cc
  validate_control-IsControl (float x) n h = cc
  validate_control-IsControl (str s) n h = cc
  validate_control-IsControl (arr vs) n h = cc

  pub complete_control-IsControl :
      (r : Replies fl) (control : Fields fl.Float)
      → IsControl control
      → IsControl (complete_control fl r control)
  complete_control-IsControl r control c = record {
    throttle_in = IsRanged-default "throttle" "reason" _ _ _ _ refl (
        IsRanged-default "throttle" "status" _ _ _ _ refl
          (IsRanged-keep "throttle" "inference_ms" _ _ _ _ refl c.throttle_in));
    steer_in = IsRanged-default "steer" "reason" _ _ _ _ refl (
        IsRanged-default "steer" "status" _ _ _ _ refl
          (IsRanged-keep "steer" "inference_ms" _ _ _ _ refl c.steer_in));
    brake_in = IsRanged-default "brake" "reason" _ _ _ _ refl (
        IsRanged-default "brake" "status" _ _ _ _ refl
          (IsRanged-keep "brake" "inference_ms" _ _ _ _ refl c.brake_in));
  }
