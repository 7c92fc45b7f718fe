-- ===== src/Json.antt =====
-- JSON documents as Python holds them (dict, list, str, bool, int, float, None), with the parts of
-- the language that the code uses on a value of unknown type: `d.get(k)`, `d[k]`, truth, `==`,
-- `isinstance`, `str` and `int`. Floats are a parameter.
use closed_loop_bench.Base.{
  ℕ, zero, suc, ◌==◌, ◌&&◌, not, eqb, String, Bool, true, false, Option, none, some, decimal, ◌<>◌,
  List, if◌then◌else◌,
}
use closed_loop_bench.Base.Outcome.{Outcome, ok, err, key_error, type_error, value_error}

-- `negsuc n` is -(n + 1).
pub data ℤ : Type 0 where
  pos : ℕ → ℤ
  negsuc : ℕ → ℤ

abbrev pub eq_ℤ : ℤ → ℤ → Bool
eq_ℤ (pos m) (pos n) = eqb m n
eq_ℤ (negsuc m) (negsuc n) = eqb m n
eq_ℤ _ _ = false

-- Python's float and the conversions from text, of which nothing is assumed here.
pub record Floats : Type 1 where
  pub Float : Type 0
  pub of_int : ℤ → Float
  -- `float(n)` raises no OverflowError.
  pub fits : ℤ → Bool
  -- `literal m k` is the literal of m / 10 ^ k, so 0.95 is `literal 95 2`.
  pub literal : ℕ → ℕ → Float
  -- `x + y`, `x * y` and `x / y` of a y that is not 0
  pub add : Float → Float → Float
  pub mul : Float → Float → Float
  pub div : Float → Float → Float
  -- `sum(xs)` and `abs(x)`
  pub sum : List Float → Float
  pub abs : Float → Float
  -- `int(math.floor(x))` and `int(math.ceil(x))` of a finite float
  pub floor : Float → ℤ
  pub ceil : Float → ℤ
  -- `x - y` and `-x`
  pub sub : Float → Float → Float
  pub neg : Float → Float
  -- `m / n` of two ints, where n is not 0
  pub ratio : ℕ → ℕ → Float
  pub eq_float : Float → Float → Bool
  -- the exact comparison of a float with an int
  pub eq_int : Float → ℤ → Bool
  pub le_float : Float → Float → Bool
  pub lt_float : Float → Float → Bool
  pub is_finite : Float → Bool
  -- `int(x)`; `none` at an infinity or a NaN
  pub truncate : Float → Option ℤ
  -- `int(s)`
  pub int_of_text : String → Option ℤ
  -- `float(s)`
  pub float_of_text : String → Option Float

mutual
  pub data Value (F : Type 0) : Type 0 where
    null : Value F
    bool : Bool → Value F
    int : ℤ → Value F
    float : F → Value F
    str : String → Value F
    arr : Items F → Value F
    obj : Fields F → Value F

  pub data Items (F : Type 0) : Type 0 where
    nil : Items F
    item : Value F → Items F → Items F

  pub data Fields (F : Type 0) : Type 0 where
    end : Fields F
    field : String → Value F → Fields F → Fields F

module _ {F : Type 0} where
  abbrev pub find : String → Fields F → Option (Value F)
  find k end = none
  find k (field j v fs) = if j == k then some v else find k fs

  abbrev pub size : Fields F → ℕ
  size end = zero
  size (field j v fs) = suc (size fs)

  -- `d.get(k)`: an absent key gives None.
  abbrev pub get : String → Value F → Outcome (Value F)
  get k (obj fs) = elim (find k fs) [ none ↦ ok null | some v ↦ ok v ]
  get k _ = err type_error

  -- `d[k]`
  abbrev pub at : String → Value F → Outcome (Value F)
  at k (obj fs) = elim (find k fs) [ none ↦ err (key_error k) | some v ↦ ok v ]
  at k _ = err type_error

  -- `v == s` for a string `s`
  abbrev pub is_text : Value F → String → Bool
  is_text (str t) s = t == s
  is_text _ s = false

  abbrev pub is_null : Value F → Bool
  is_null null = true
  is_null _ = false

  -- `isinstance(v, (int, float))`: a bool is an int.
  abbrev pub is_number : Value F → Bool
  is_number (bool b) = true
  is_number (int n) = true
  is_number (float x) = true
  is_number _ = false

  abbrev pub is_bool : Value F → Bool
  is_bool (bool b) = true
  is_bool _ = false

  abbrev pub is_obj : Value F → Bool
  is_obj (obj fs) = true
  is_obj _ = false

-- `str(v)`, where `repr` is what Python writes for a float, a list or a dict
module _ {F : Type 0} (repr : Value F → String) where
  abbrev pub text_of : Value F → String
  text_of null = "None"
  text_of (bool true) = "True"
  text_of (bool false) = "False"
  text_of (int (pos n)) = decimal n
  text_of (int (negsuc n)) = "-" <> decimal (suc n)
  text_of (str s) = s
  text_of v = repr v

abbrev pub of_bool : Bool → ℤ
of_bool true = pos 1
of_bool false = pos 0

module _ (fl : Floats) where
  open fl use {Float, of_int, fits, eq_float, eq_int, truncate, int_of_text}

  -- `bool(v)`
  abbrev pub truthy : Value Float → Bool
  truthy null = false
  truthy (bool b) = b
  truthy (int n) = not (eq_ℤ n (pos 0))
  truthy (float x) = not (eq_int x (pos 0))
  truthy (str s) = not (s == "")
  truthy (arr nil) = false
  truthy (arr (item v vs)) = true
  truthy (obj end) = false
  truthy (obj (field k v fs)) = true

  -- `a == b` where `b` is an int
  abbrev pub equals_int : Value Float → ℤ → Bool
  equals_int (bool b) n = eq_ℤ (of_bool b) n
  equals_int (int m) n = eq_ℤ m n
  equals_int (float x) n = eq_int x n
  equals_int _ n = false

  -- `float(v)` of a number
  abbrev pub as_float : Value Float → Option Float
  as_float (bool b) = some (of_int (of_bool b))
  as_float (int n) = some (of_int n)
  as_float (float x) = some x
  as_float _ = none

  -- `float(v)` raises no OverflowError.
  abbrev pub converts : Value Float → Bool
  converts (int n) = fits n
  converts _ = true

  abbrev or_raise : Option ℤ → Outcome ℤ
  or_raise none = err (value_error "invalid literal")
  or_raise (some n) = ok n

  -- `int(v)`
  abbrev pub to_int : Value Float → Outcome ℤ
  to_int (bool b) = ok (of_bool b)
  to_int (int n) = ok n
  to_int (float x) = or_raise (truncate x)
  to_int (str s) = or_raise (int_of_text s)
  to_int _ = err type_error

  -- `a == b`: ints, bools and floats compare as numbers, dicts whatever the order of their keys.
  unfoldable mutual
    pub equal : Value Float → Value Float → Bool
    equal null w = is_null w
    equal (bool b) w = equals_int w (of_bool b)
    equal (int n) w = equals_int w n
    equal (float x) w = elim w [
      | bool b ↦ eq_int x (of_bool b)
      | int n ↦ eq_int x n
      | float y ↦ eq_float x y
      | _ ↦ false
    ]
    equal (str s) w = is_text w s
    equal (arr xs) w = elim w [ arr ys ↦ equal_items xs ys | _ ↦ false ]
    equal (obj fs) w = elim w [ obj gs ↦ eqb (size fs) (size gs) && equal_fields fs gs | _ ↦ false ]

    pub equal_items : Items Float → Items Float → Bool
    equal_items nil nil = true
    equal_items nil (item y ys) = false
    equal_items (item x xs) nil = false
    equal_items (item x xs) (item y ys) = equal x y && equal_items xs ys

    pub equal_fields : Fields Float → Fields Float → Bool
    equal_fields end gs = true
    equal_fields (field k v fs) gs = elim (find k gs) [
      | none ↦ false
      | some w ↦ equal v w && equal_fields fs gs
    ]
