-- ===== src/Exchange/Writes/Loads.antt =====
-- What was read once is read again while files are kept: `_read_json`, `_validate_idempotency` and
-- `load_message`.
use closed_loop_bench.Base.{
  String, Bool, true, ◌==◌, ◌&&◌, Option, [], ◌≡◌, refl, arith, Option-cases, and_parts, inl, inr,
}
use closed_loop_bench.Base.Outcome.{Outcome, ok, err, >>=-eq-ok, guard-bind}
use closed_loop_bench.Files.{FilePath, ◌▹◌, Files, file, is_file, read}
use closed_loop_bench.Files.Frame.{IsKept}
use closed_loop_bench.Exchange.Platform.{Platform, Document}
use closed_loop_bench.Exchange.Segment.{safe_segment, identity}
use closed_loop_bench.Exchange.Reading.{
  unreadable, read_json, idempotency_path, validate_idempotency,
}
use closed_loop_bench.Exchange.Artifact.{validate_document}
use closed_loop_bench.Exchange.Message.{message_name, ready_name, check_ready, load_message}
use closed_loop_bench.Exchange.Writes.Installed.{validate_document-IsKept}

pub is_file-IsKept :
    {B : Type 0} (fs gs : Files B) (p : FilePath)
    → IsKept fs gs
    → is_file fs p ≡ true
    → is_file gs p ≡ true
is_file-IsKept fs gs p kept h = elim (Option-cases (file fs p)) [
  | inl absent ↦ absurd (ground arith)
  | inr (b, there) ↦ ground (arith, kept p b there)
]

pub read-IsKept :
    {B : Type 0} (fs gs : Files B) (p : FilePath) {b : B}
    → IsKept fs gs
    → read fs p ≡ ok b
    → read gs p ≡ ok b
read-IsKept fs gs p kept h = elim (Option-cases (file fs p)) [
  | inl absent ↦ absurd (ground arith)
  | inr (b, there) ↦ ground (arith, kept p b there)
]

unreadable-eq-ok :
    {A : Type 0} (text : String) (r : Outcome A) {a : A} → unreadable text r ≡ ok a → r ≡ ok a
unreadable-eq-ok text (ok a) h = h
unreadable-eq-ok text (err e) h = absurd (ground arith)

module _ (P : Platform) where
  pub read_json-IsKept :
      (fs gs : Files P.Bytes) (p : FilePath) {v : Document P}
      → IsKept fs gs
      → read_json P fs p ≡ ok v
      → read_json P gs p ≡ ok v
  unfolding read_json
  read_json-IsKept fs gs p kept h =
      let (b, found, loaded) = >>=-eq-ok (read fs p) _ h in
      rw (read-IsKept fs gs p kept found) loaded

  unreadable-IsKept :
      (text : String) (fs gs : Files P.Bytes) (p : FilePath) {v : Document P}
      → IsKept fs gs
      → unreadable text (read_json P fs p) ≡ ok v
      → unreadable text (read_json P gs p) ≡ ok v
  unreadable-IsKept text fs gs p kept h =
      rw (read_json-IsKept fs gs p kept (unreadable-eq-ok text (read_json P fs p) h)) refl

  validate_idempotency-IsKept :
      (fs gs : Files P.Bytes) (m : Document P)
      → IsKept fs gs
      → validate_idempotency P fs m ≡ ok tt
      → validate_idempotency P gs m ≡ ok tt
  unfolding validate_idempotency
  validate_idempotency-IsKept fs gs m kept h =
      let (path, spot, h1) = >>=-eq-ok (idempotency_path P m) _ h in
      let (there, h2) = guard-bind (is_file fs (path ▹ "record.json")) _ _ h1 in
      let (record', found, h3) =
        >>=-eq-ok (unreadable _ (read_json P fs (path ▹ "record.json"))) _ h2 in
      rw
        (
          spot,
          is_file-IsKept fs gs (path ▹ "record.json") kept there,
          unreadable-IsKept _ fs gs (path ▹ "record.json") kept found,
        )
        h3

  -- A message that loads goes on to load, as the same document, while files are kept.
  pub load_message-IsKept :
      (fs gs : Files P.Bytes) (type id : Document P)
      (validate : Option (Document P → Outcome (Unit {0}))) (verify : Bool) (m : Document P)
      → IsKept fs gs
      → load_message P fs type id validate verify ≡ ok m
      → load_message P gs type id validate verify ≡ ok m
  unfolding load_message
  load_message-IsKept fs gs type id validate verify m kept h =
      let (t, safe_type, h1) = >>=-eq-ok (safe_segment P type "message type") _ h in
      let (i, safe_id, h2) = >>=-eq-ok (safe_segment P id "message id") _ h1 in
      let dir = [] ▹ "messages" ▹ t ▹ i in
      let (there, h3) =
        guard-bind (is_file fs (dir ▹ ready_name) && is_file fs (dir ▹ message_name)) _ _ h2 in
      let (both_ready, both_message) = and_parts _ _ there in
      let (ready, found, h4) = >>=-eq-ok (unreadable _ (read_json P fs (dir ▹ ready_name))) _ h3 in
      let (message, got, h5) =
        >>=-eq-ok (unreadable _ (read_json P fs (dir ▹ message_name))) _ h4 in
      let (content, stored, h6) = >>=-eq-ok (read fs (dir ▹ message_name)) _ h5 in
      let (u, fine, h7) = >>=-eq-ok (check_ready P ready t i content) _ h6 in
      let (names, named, h8) = >>=-eq-ok (identity P message) _ h7 in
      let (same, h9) = guard-bind (names.0 == t && names.1 == i) _ _ h8 in
      let (v, valid, h10) = >>=-eq-ok (validate_document P fs message validate verify) _ h9 in
      let (w, reserved, h11) = >>=-eq-ok (validate_idempotency P fs message) _ h10 in
      rw
        (
          safe_type,
          safe_id,
          is_file-IsKept fs gs (dir ▹ ready_name) kept both_ready,
          is_file-IsKept fs gs (dir ▹ message_name) kept both_message,
          unreadable-IsKept _ fs gs (dir ▹ ready_name) kept found,
          unreadable-IsKept _ fs gs (dir ▹ message_name) kept got,
          read-IsKept fs gs (dir ▹ message_name) kept stored,
          fine,
          named,
          same,
          validate_document-IsKept P fs gs message validate verify kept valid,
          validate_idempotency-IsKept fs gs message kept reserved,
        )
        h11
