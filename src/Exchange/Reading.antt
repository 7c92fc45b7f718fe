-- ===== src/Exchange/Reading.antt =====
-- Reading JSON records of the exchange, and the idempotency reservation of a message:
-- `_idempotency_path`, the payload of `_reserve_idempotency`, `_validate_idempotency`.
use closed_loop_bench.Base.{String, [], some, none}
use closed_loop_bench.Base.Outcome.{
  Outcome, ok, err, message_error, os_error, decode_error, guard, ◌>>=◌, ◌>>◌,
}
use closed_loop_bench.Json.{str, obj, end, field, at, equal}
use closed_loop_bench.Files.{FilePath, ◌▹◌, Files, is_file, read}
use closed_loop_bench.Exchange.Platform.{Platform, Document, str_of}
use closed_loop_bench.Exchange.Segment.{protocol_version, safe_segment, identity}

-- `except (OSError, json.JSONDecodeError) as exc: raise SharedMessageError(...)`
abbrev pub unreadable : {A : Type 0} → String → Outcome A → Outcome A
unreadable text (ok a) = ok a
unreadable text (err os_error) = err (message_error text)
unreadable text (err decode_error) = err (message_error text)
unreadable text (err e) = err e

module _ (P : Platform) where
  -- `json.loads(p.read_text(...))`
  abbrev pub parsed : P.Bytes → Outcome (Document P)
  parsed b = elim (P.loads b) [ none ↦ err decode_error | some v ↦ ok v ]

  unfoldable pub read_json : Files P.Bytes → FilePath → Outcome (Document P)
  read_json fs p = do b ← read fs p; parsed b

  unfoldable pub idempotency_path : Document P → Outcome FilePath
  idempotency_path m = do
    idempotency ← at "idempotency" m
    scope_value ← at "scope" idempotency
    scope ← safe_segment P scope_value "idempotency scope"
    key ← at "key" idempotency
    ok ([] ▹ "idempotency" ▹ scope ▹ P.sha256 (P.utf8 (str_of P key)))

  abbrev pub record_of : Document P → Document P → Document P → Document P → Document P
  record_of scope key type id = obj (
      field "protocol_version" (str protocol_version) (
        field "scope" scope
          (field "key" key (field "message_type" type (field "message_id" id end)))))

  -- The payload that `_reserve_idempotency` writes.
  unfoldable pub reservation : Document P → Outcome (Document P)
  reservation m = do
    names ← identity P m
    idempotency ← at "idempotency" m
    scope ← at "scope" idempotency
    key ← at "key" idempotency
    ok (record_of scope key (str names.0) (str names.1))

  -- The record that `_validate_idempotency` expects.
  unfoldable pub expected_reservation : Document P → Outcome (Document P)
  expected_reservation m = do
    idempotency ← at "idempotency" m
    scope ← at "scope" idempotency
    key ← at "key" idempotency
    type ← at "message_type" m
    id ← at "message_id" m
    ok (record_of scope key type id)

  unfoldable pub validate_idempotency : Files P.Bytes → Document P → Outcome (Unit {0})
  validate_idempotency fs m = do
    path ← idempotency_path m
    guard (is_file fs (path ▹ "record.json"))
        (message_error "message has no idempotency reservation")
    record' ← unreadable "invalid idempotency reservation" (read_json fs (path ▹ "record.json"))
    expected ← expected_reservation m
    guard (equal P.floats record' expected)
        (message_error "idempotency reservation does not match the message")
