-- ===== src/Exchange/Message.antt =====
-- Reading messages: `load_message` and `list_messages`.
use closed_loop_bench.Base.{
  String, Bool, true, false, ◌==◌, ◌&&◌, ◌||◌, not, List, [], ◌∷◌, Option, none,
}
use closed_loop_bench.Base.{if◌then◌else◌}
use Prim.Native.Nat.{Ordering}
use Prim.Native.String.{compare}
use text.Mathlib.Text.{starts_with}
use closed_loop_bench.Base.Outcome.{Outcome, ok, err, message_error, guard, ◌>>=◌, ◌>>◌}
use closed_loop_bench.Json.{str, get, is_text, equals_int, pos}
use closed_loop_bench.Files.{◌▹◌, Files, is_file, is_dir, read}
use closed_loop_bench.Exchange.Platform.{Platform, Document}
use closed_loop_bench.Exchange.Segment.{protocol_version, safe_segment, identity}
use closed_loop_bench.Exchange.Reading.{unreadable, read_json, validate_idempotency}
use closed_loop_bench.Exchange.Artifact.{validate_document}

abbrev pub message_name : String
message_name = "message.json"

abbrev pub ready_name : String
ready_name = "READY.json"

module _ (P : Platform) where
  -- `raise SharedMessageError(...)` unless READY describes the stored bytes
  unfoldable pub check_ready : Document P → String → String → P.Bytes → Outcome (Unit {0})
  check_ready ready message_type message_id content = do
    version ← get "protocol_version" ready
    guard (is_text version protocol_version) (message_error "READY protocol version mismatch")
    type ← get "message_type" ready
    id ← get "message_id" ready
    guard (is_text type message_type && is_text id message_id)
        (message_error "READY identity mismatch")
    digest ← get "message_sha256" ready
    guard (is_text digest (P.sha256 content)) (message_error "message changed after publication")
    size ← get "size_bytes" ready
    guard (equals_int P.floats size (pos (P.size_of content)))
        (message_error "message size changed after publication")

  unfoldable pub load_message :
      Files P.Bytes
      → Document P
      → Document P
      → Option (Document P → Outcome (Unit {0}))
      → Bool
      → Outcome (Document P)
  load_message fs type id validate verify = do
    message_type ← safe_segment P type "message type"
    message_id ← safe_segment P id "message id"
    let message_dir = [] ▹ "messages" ▹ message_type ▹ message_id
    let message_path = message_dir ▹ message_name
    guard (is_file fs (message_dir ▹ ready_name) && is_file fs message_path)
        (message_error "message is not ready")
    ready ← unreadable "invalid published message" (read_json P fs (message_dir ▹ ready_name))
    message ← unreadable "invalid published message" (read_json P fs message_path)
    content ← read fs message_path
    check_ready ready message_type message_id content
    names ← identity P message
    guard (names.0 == message_type && names.1 == message_id)
        (message_error "message identity does not match its directory")
    validate_document P fs message validate verify
    validate_idempotency P fs message
    ok message

-- `sorted` of texts, by code points.
abbrev le_text : String → String → Bool
le_text s t = elim (compare s t) [ Ordering.gt ↦ false | _ ↦ true ]

unfoldable pub insert_name : String → List String → List String
insert_name n [] = n ∷ []
insert_name n (m ∷ ms) = let rest = insert_name n ms in if le_text n m then n ∷ m ∷ ms else m ∷ rest

module _ (P : Platform) where
  -- One round of the loop of `list_messages`, before the rounds of the names that follow.
  abbrev pub list_step :
      Files P.Bytes → String → String → Outcome (List String) → Outcome (List String)
  list_step fs message_type n rest =
      if not (is_dir fs ([] ▹ "messages" ▹ message_type ▹ n)) || starts_with n "."
      then rest
      else elim (load_message P fs (str message_type) (str n) none true) [
        | ok m ↦ rest >>= λ ns. ok (insert_name n ns)
        | err e ↦ elim e [ message_error text ↦ rest | other ↦ err other ]
      ]

  unfoldable pub list_loop : Files P.Bytes → String → List String → Outcome (List String)
  list_loop fs message_type [] = ok []
  list_loop fs message_type (n ∷ ns) = list_step fs message_type n (list_loop fs message_type ns)

  -- `names` is what `iterdir` yields, in any order.
  unfoldable pub list_messages : Files P.Bytes → Document P → List String → Outcome (List String)
  list_messages fs type names = do
    message_type ← safe_segment P type "message type"
    if is_dir fs ([] ▹ "messages" ▹ message_type) then list_loop fs message_type names else ok []
