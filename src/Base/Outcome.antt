-- ===== src/Base/Outcome.antt =====
-- What a Python call gives back: a value, or an exception. A call that also writes to the file
-- system keeps what it wrote before the exception.
use mathlib.Core.Path.{◌≡◌, refl}
use mathlib.Core.Logic.{◌⊎◌, inl, inr}
use mathlib.Core.Bool.{Bool, true, false}
use Prim.Native.String.{String}

-- The exception classes that the modelled code raises or lets through. The text is the fixed part
-- of the message.
pub data Error : Type 0 where
  -- SharedMessageError
  message_error : String → Error
  -- SharedMessageExistsError
  exists_error : String → Error
  -- SharedMessageClaimedError
  claimed_error : String → Error
  -- SharedIdempotencyConflictError
  conflict_error : String → Error
  -- SharedProtocolValidationError
  validation_error : String → Error
  -- ExperimentMatrixError
  matrix_error : String → Error
  -- EvaluationProtocolError
  evaluation_error : String → Error
  -- PluginContractError
  contract_error : String → Error
  value_error : String → Error
  key_error : String → Error
  type_error : Error
  -- OverflowError, of a float of an int that is too large
  overflow_error : Error
  os_error : Error
  decode_error : Error

pub data Outcome {ℓ} (A : Type ℓ) : Type ℓ where
  ok : A → Outcome A
  err : Error → Outcome A

infixl 5 ◌>>=◌ ◌>>◌
abbrev pub ◌>>=◌ {ℓ κ} : {A : Type ℓ} {C : Type κ} → Outcome A → (A → Outcome C) → Outcome C
err e >>= rest = err e
ok first >>= rest = rest first

abbrev pub ◌>>◌ {ℓ κ} : {A : Type ℓ} {C : Type κ} → Outcome A → Outcome C → Outcome C
r >> rest = r >>= λ first. rest

-- `if not test: raise e`
abbrev pub guard : Bool → Error → Outcome (Unit {0})
guard true e = ok tt
guard false e = err e

-- `if test: raise e`
abbrev pub refuse : Bool → Error → Outcome (Unit {0})
refuse true e = err e
refuse false e = ok tt

-- A chain that returned: its first call returned, and the rest did on that value.
pub >>=-eq-ok {ℓ κ} :
    {A : Type ℓ} {C : Type κ} (r : Outcome A) (rest : A → Outcome C) {last : C}
    → (r >>= rest) ≡ ok last
    → (first : A) × (r ≡ ok first) × (rest first ≡ ok last)
>>=-eq-ok (err e) rest h = cc
>>=-eq-ok (ok first) rest h = (first, refl, h)

pub guard-eq-ok : (b : Bool) (e : Error) {u : Unit {0}} → guard b e ≡ ok u → b ≡ true
guard-eq-ok true e h = refl
guard-eq-ok false e h = cc

pub refuse-eq-ok : (b : Bool) (e : Error) {u : Unit {0}} → refuse b e ≡ ok u → b ≡ false
refuse-eq-ok true e h = cc
refuse-eq-ok false e h = refl

-- A guard that was passed, and what came after it.
pub guard-bind {ℓ} :
    {A : Type ℓ} (b : Bool) (e : Error) (k : Outcome A) {a : A}
    → (guard b e >> k) ≡ ok a
    → (b ≡ true) × (k ≡ ok a)
guard-bind true e k h = (refl, h)
guard-bind false e k h = cc

pub Outcome-cases {ℓ} :
    {A : Type ℓ} (r : Outcome A) → ((e : Error) × (r ≡ err e)) ⊎ ((a : A) × (r ≡ ok a))
Outcome-cases (err e) = inl (e, refl)
Outcome-cases (ok a) = inr (a, refl)

pub ok_unique {ℓ} : {A : Type ℓ} {r : Outcome A} {a b : A} → r ≡ ok a → r ≡ ok b → a ≡ b
ok_unique p q = cc
