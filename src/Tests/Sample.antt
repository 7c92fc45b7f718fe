-- ===== src/Tests/Sample.antt =====
-- A platform to run the exchange on: a file is a document or a text, floats are integers.
use closed_loop_bench.Base.{
  List, [], ◌∷◌, ℕ, zero, suc, ◌+◌, ◌-◌, ◌*◌, ◌/◌, leb, not, String, true, false, ◌==◌, Option,
  none, some, refl, if◌then◌else◌, ◌≡◌, ap,
}
use closed_loop_bench.Base.Outcome.{Outcome, ok, err, validation_error, ok_unique}
use closed_loop_bench.Json.{ℤ, pos, negsuc, eq_ℤ, Floats, Value, obj, str, field, end}
use closed_loop_bench.Exchange.Platform.{Platform, IsLawful, Document, Turn}
use closed_loop_bench.Exchange.Job.{leb_ℤ}
use closed_loop_bench.Files.{Files, FilePath}
use closed_loop_bench.Exchange.Reading.{idempotency_path}
use closed_loop_bench.Exchange.Writes.Kept.{IsReserveFit}
use mathlib.Core.Path.{transport}

abbrev neg_ℤ : ℤ → ℤ
neg_ℤ (pos zero) = pos zero
neg_ℤ (pos (suc n)) = negsuc n
neg_ℤ (negsuc n) = pos (suc n)

abbrev sub_ℕ : ℕ → ℕ → ℤ
sub_ℕ m n = if leb n m then pos (m - n) else negsuc (n - m - 1)

abbrev sub_ℤ : ℤ → ℤ → ℤ
sub_ℤ (pos m) (pos n) = sub_ℕ m n
sub_ℤ (pos m) (negsuc n) = pos (m + n + 1)
sub_ℤ (negsuc m) (pos n) = negsuc (m + n)
sub_ℤ (negsuc m) (negsuc n) = sub_ℕ n m

abbrev mul_ℤ : ℤ → ℤ → ℤ
mul_ℤ (pos m) (pos n) = pos (m * n)
mul_ℤ (pos m) (negsuc n) = neg_ℤ (pos (m * suc n))
mul_ℤ (negsuc m) (pos n) = neg_ℤ (pos (suc m * n))
mul_ℤ (negsuc m) (negsuc n) = pos (suc m * suc n)

abbrev div_ℤ : ℤ → ℤ → ℤ
div_ℤ (pos m) (pos n) = pos (m / n)
div_ℤ (pos m) (negsuc n) = neg_ℤ (pos (m / suc n))
div_ℤ (negsuc m) (pos n) = neg_ℤ (pos (suc m / n))
div_ℤ (negsuc m) (negsuc n) = pos (suc m / suc n)

abbrev sum_ℤ : List ℤ → ℤ
sum_ℤ [] = pos 0
sum_ℤ (x ∷ xs) = sub_ℤ x (neg_ℤ (sum_ℤ xs))

abbrev abs_ℤ : ℤ → ℤ
abs_ℤ (pos n) = pos n
abs_ℤ (negsuc n) = pos (suc n)

abbrev pub floats : Floats
floats = record {
  Float = ℤ;
  of_int = λ n. n;
  fits = λ n. leb_ℤ n (pos 1000000000000);
  literal = λ m k. pos m;
  add = λ x y. sub_ℤ x (neg_ℤ y);
  mul = λ x y. mul_ℤ x y;
  div = λ x y. div_ℤ x y;
  sum = sum_ℤ;
  abs = abs_ℤ;
  floor = λ x. x;
  ceil = λ x. x;
  sub = λ x y. sub_ℤ x y;
  neg = neg_ℤ;
  ratio = λ m n. pos m;
  eq_float = eq_ℤ;
  eq_int = eq_ℤ;
  le_float = leb_ℤ;
  lt_float = λ a b. not (leb_ℤ b a);
  is_finite = λ a. true;
  truncate = λ a. some a;
  int_of_text = λ s. none;
  float_of_text = λ s. none;
}

pub data Blob : Type 0 where
  document : Value ℤ → Blob
  text : String → Blob

abbrev load : Blob → Option (Value ℤ)
load (document v) = some v
load (text s) = none

abbrev digest : Blob → String
digest (document v) = "d0c"
digest (text s) = s

abbrev accepted : Value ℤ → Outcome (Unit {0})
accepted (obj fs) = ok tt
accepted _ = err (validation_error "not an object")

abbrev pub platform : Platform
platform = record {
  floats = floats;
  Bytes = Blob;
  dumps = document;
  dumps_ascii = document;
  loads = load;
  sha256 = digest;
  size_of = λ b. 3;
  utf8 = text;
  repr = λ v. "{}";
  instant = λ s. if s == "t1" then some (pos 1) else if s == "t5" then some (pos 5) else none;
  posix = true;
  has_drive = λ s. false;
  validate_shared_document = accepted;
  validate_artifact_reference = accepted;
}

pub lawful : IsLawful platform
lawful = record { loads-dumps = λ v. refl }

abbrev pub empty : Files Blob
empty p = none

abbrev pub turn : String → Turn Blob
turn u = record { uuid = u; others = λ fs. fs }

-- A message with the parts that the store reads.
abbrev pub message : String → String → String → Document platform → Document platform
message type id key payload = obj (
    field "protocol_version" (str "shared_exchange_protocol.v1") (
      field "message_type" (str type) (
        field "message_id" (str id) (
          field "idempotency" (obj (field "scope" (str "run") (field "key" (str key) end)))
            (field "payload" payload end)))))

-- A critical section that is fit at the path of a reservation.
pub fit_at :
    (m : Document platform) (fs : Files Blob) (t : Turn Blob) (p : FilePath)
    → idempotency_path platform m ≡ ok p
    → IsReserveFit platform fs t p
    → (path : FilePath) → idempotency_path platform m ≡ ok path
    → IsReserveFit platform fs t path
fit_at m fs t p spot fit path known =
    transport (ap (λ q. IsReserveFit platform fs t q) (ok_unique spot known)) fit
