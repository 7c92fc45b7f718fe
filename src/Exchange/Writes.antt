-- ===== src/Exchange/Writes.antt =====
-- The operations that write to the exchange: `_reserve_record`, `_reserve_idempotency`,
-- `publish_artifact`, `publish_message`, `claim_job` and `complete_job`.
pub mod Kept
pub mod KeptJobs
pub mod Artifacts
pub mod Race
pub mod Reserved
pub mod Conflict
pub mod Installed
pub mod Loads
pub mod Claimed
pub mod Published
pub mod Succeeds
pub mod Texts
pub mod RoundTrip
pub mod Exclusive
use closed_loop_bench.Base.{
  String, ◌<>◌, Bool, true, false, not, List, [], ◌∷◌, Option, some, none, if◌then◌else◌,
}
use closed_loop_bench.Base.Outcome.{
  ◌>>=◌ as and_then, Outcome, ok, err, Error, message_error, exists_error, claimed_error,
  conflict_error, os_error,
}
use closed_loop_bench.Json.{Value, ℤ, pos, int, str, obj, field, end, at, get, equal}
use closed_loop_bench.Files.{
  FilePath, ◌▹◌, Files, Exec, pure, lift, look, continue, ◌>>=◌, ◌>>◌, finally, mkdirs, write,
  rename_file, unlink, path_exists, is_file, read,
}
use closed_loop_bench.Exchange.Platform.{Platform, Document, Turn}
use closed_loop_bench.Exchange.Segment.{
  protocol_version, safe_segment, identity, contained_artifact,
}
use closed_loop_bench.Exchange.Reading.{unreadable, read_json, idempotency_path, reservation}
use closed_loop_bench.Exchange.Artifact.{validate_document, reference_of}
use closed_loop_bench.Exchange.Message.{message_name, ready_name}
use closed_loop_bench.Exchange.Job.{
  job_type, claim_name, attempt_name, check_claim, check_result, terminal_directory,
}
use closed_loop_bench.Exchange.Stage.{stage, or_handle}

-- `raise ... if target.exists() else raise`
abbrev pub exists_or_os : {B : Type 0} → Files B → FilePath → Error → Outcome (Unit {0})
exists_or_os fs target e = if path_exists fs target then err e else err os_error

-- `if target.exists(): raise ...`
unfoldable pub refuse_existing : {B : Type 0} → FilePath → Error → Exec B (Unit {0})
refuse_existing target e fs = (if path_exists fs target then err e else ok tt, fs)

abbrev pub name_of : FilePath → String
name_of [] = ""
name_of (n ∷ d) = n

abbrev pub parent_of : FilePath → FilePath
parent_of [] = []
parent_of (n ∷ d) = d

-- `.{name}.reserving-{uuid}` beside the record
abbrev pub reserving : FilePath → String → FilePath
reserving path uuid = parent_of path ▹ ("." <> name_of path <> ".reserving-" <> uuid)

-- `.publishing-{id}-{uuid}` in the directory of the message type
abbrev pub type_root : String → FilePath
type_root type = [] ▹ "messages" ▹ type

abbrev pub publishing_message : String → String → String
publishing_message message_id uuid = ".publishing-" <> message_id <> "-" <> uuid

abbrev pub claim_root : String → FilePath
claim_root request_id = [] ▹ "claims" ▹ job_type ▹ request_id

abbrev pub claiming : ℤ → String → String
claiming attempt uuid = ".claiming-" <> attempt_name attempt <> "-" <> uuid

-- `target.parent / ".{name}.publishing-{uuid}"`
abbrev pub publishing : String → String → String
publishing name uuid = "." <> name <> ".publishing-" <> uuid

module _ (P : Platform) where
  abbrev compare_loaded : Document P → String → Outcome (Document P) → Outcome (Unit {0})
  compare_loaded payload conflict (err e) = err e
  compare_loaded payload conflict (ok existing) =
      if equal P.floats existing payload then ok tt else err (conflict_error conflict)

  -- The record that is there already: it must be the same.
  unfoldable pub compare_record :
      FilePath → Document P → String → Files P.Bytes → Outcome (Unit {0})
  compare_record path payload conflict fs =
      if path_exists fs path
      then compare_loaded payload conflict
          (unreadable "invalid reservation record" (read_json P fs (path ▹ "record.json")))
      else err os_error

  unfoldable pub reserve_record :
      Turn P.Bytes → FilePath → Document P → String → Exec P.Bytes (Unit {0})
  reserve_record turn path payload conflict = do
    mkdirs (parent_of path)
    stage P.posix (reserving path turn.uuid) path
        (write (reserving path turn.uuid ▹ "record.json") (P.dumps payload)) turn.others
        (compare_record path payload conflict)

  unfoldable pub reserve_idempotency : Turn P.Bytes → Document P → Exec P.Bytes (Unit {0})
  reserve_idempotency turn m = do
    payload ← lift (reservation P m)
    path ← lift (idempotency_path P m)
    reserve_record turn path payload "idempotency key already belongs to another message"

  -- READY.json of a message, over the bytes that were written
  abbrev pub ready_of : String → String → P.Bytes → Document P
  ready_of message_type message_id content = obj (
      field "protocol_version" (str protocol_version) (
        field "message_type" (str message_type) (
          field "message_id" (str message_id) (
            field "message" (str message_name) (
              field "message_sha256" (str (P.sha256 content))
                (field "size_bytes" (int (pos (P.size_of content))) end))))))

  unfoldable pub write_message : FilePath → Document P → String → String → Exec P.Bytes (Unit {0})
  write_message staging m message_type message_id = do
    write (staging ▹ message_name) (P.dumps m)
    content ← look (λ fs. read fs (staging ▹ message_name))
    write (staging ▹ ready_name) (P.dumps (ready_of message_type message_id content))

  -- The staged directory of a message becomes its target, unless there is one.
  unfoldable pub stage_message :
      Turn P.Bytes → Document P → String → String → Exec P.Bytes (Unit {0})
  stage_message turn m message_type message_id =
      let target = type_root message_type ▹ message_id in
      let staging = type_root message_type ▹ publishing_message message_id turn.uuid in
      stage P.posix staging target (write_message staging m message_type message_id) turn.others
        (λ fs. exists_or_os fs target (exists_error "message already exists"))

  unfoldable pub install_message :
      Turn P.Bytes → Document P → String → String → Exec P.Bytes FilePath
  install_message turn m message_type message_id = do
    mkdirs (type_root message_type)
    refuse_existing (type_root message_type ▹ message_id) (exists_error "message already exists")
    stage_message turn m message_type message_id
    pure (type_root message_type ▹ message_id)

  -- Two critical sections: the idempotency key is reserved, then the message is put in place.
  unfoldable pub publish_message :
      Turn P.Bytes
      → Turn P.Bytes
      → Document P
      → Option (Document P → Outcome (Unit {0}))
      → Bool
      → Exec P.Bytes FilePath
  publish_message first second m validate verify = do
    names ← lift (identity P m)
    look (λ fs. validate_document P fs m validate verify)
    reserve_idempotency first m
    install_message second m names.0 names.1

  -- READY.json of a claim
  abbrev pub claim_ready : Document P → P.Bytes → Document P
  claim_ready id content = obj (
      field "protocol_version" (str protocol_version)
        (field "message_id" id (field "message_sha256" (str (P.sha256 content)) end)))

  unfoldable pub write_claim : FilePath → Document P → Exec P.Bytes (Unit {0})
  write_claim staging claim = do
    write (staging ▹ claim_name) (P.dumps claim)
    id ← lift (at "message_id" claim)
    content ← look (λ fs. read fs (staging ▹ claim_name))
    write (staging ▹ ready_name) (P.dumps_ascii (claim_ready id content))

  unfoldable pub stage_claim : Turn P.Bytes → Document P → String → ℤ → Exec P.Bytes (Unit {0})
  stage_claim turn claim request_id attempt =
      let target = claim_root request_id ▹ attempt_name attempt in
      let staging = claim_root request_id ▹ claiming attempt turn.uuid in
      stage P.posix staging target (write_claim staging claim) turn.others
        (λ fs. exists_or_os fs target (claimed_error "job attempt is already claimed"))

  unfoldable pub install_claim : Turn P.Bytes → Document P → String → ℤ → Exec P.Bytes FilePath
  install_claim turn claim request_id attempt = do
    mkdirs (claim_root request_id)
    refuse_existing (claim_root request_id ▹ attempt_name attempt)
        (claimed_error "job attempt is already claimed")
    stage_claim turn claim request_id attempt
    pure (claim_root request_id ▹ attempt_name attempt)

  -- `except SharedIdempotencyConflictError as exc: raise SharedMessageClaimedError(...)`
  abbrev pub as_claimed : {A : Type 0} → Outcome A → Outcome A
  as_claimed (ok a) = ok a
  as_claimed (err (conflict_error text)) =
      err (claimed_error "job attempt already has a claim identity")
  as_claimed (err e) = err e

  abbrev pub reserve_claim : Turn P.Bytes → Document P → Exec P.Bytes (Unit {0})
  reserve_claim turn claim fs =
      let (r, fs') = reserve_idempotency turn claim fs in (as_claimed r, fs')

  -- `request_id` is a text.
  unfoldable pub claim_job :
      Turn P.Bytes → Turn P.Bytes → String → Document P → Exec P.Bytes FilePath
  claim_job first second request_id claim = do
    attempt ← look (λ fs. check_claim P fs (str request_id) claim)
    reserve_claim first claim
    install_claim second claim request_id attempt

  -- The record that makes one message the terminal result of an attempt.
  unfoldable pub terminal_record : String → Document P → ℤ → Outcome (Document P)
  terminal_record request_id result attempt = and_then (at "message_type" result) λ type.
      and_then (at "message_id" result) λ id. ok (
        obj (
          field "protocol_version" (str protocol_version) (
            field "request_message_id" (str request_id) (
              field "attempt" (int attempt)
                (field "message_type" type (field "message_id" id end))))))

  unfoldable pub complete_job :
      Turn P.Bytes → Turn P.Bytes → Turn P.Bytes → String → Document P → Exec P.Bytes FilePath
  complete_job first second third request_id result = do
    attempt ← look (λ fs. check_result P fs (str request_id) result)
    path ← lift (terminal_directory P (str request_id) attempt)
    record' ← lift (terminal_record request_id result attempt)
    reserve_record first path record' "job attempt already has a different terminal result"
    publish_message second third result none true

  -- `try: os.rename(staging, target) except OSError: ...`
  unfoldable pub rename_artifact : FilePath → String → String → Exec P.Bytes (Unit {0})
  rename_artifact d staging name fs =
      let (r, fs') = rename_file P.posix d staging name fs in
      (
        or_handle r (λ f. exists_or_os f (d ▹ name) (exists_error "artifact already exists")) fs',
        fs',
      )

  -- `finally` of `publish_artifact`, round the copy and the rename
  unfoldable pub install_artifact : Turn P.Bytes → FilePath → P.Bytes → Exec P.Bytes (Unit {0})
  install_artifact turn target content =
      let staging = publishing (name_of target) turn.uuid in
      finally
        (do
          write (parent_of target ▹ staging) content
          λ fs. (ok tt, turn.others fs)
          rename_artifact (parent_of target) staging (name_of target))
        (unlink (parent_of target ▹ staging))

  -- The reference to the artifact: the digest of what the target holds after the rename, and its size
  -- at a second look. `between` is what the other workers do from the one look to the other.
  unfoldable pub describe_artifact :
      (Files P.Bytes → Files P.Bytes)
      → FilePath
      → String
      → String
      → String
      → Option String
      → Exec P.Bytes (Document P)
  describe_artifact between target relative role media_type schema = do
    hashed ← look (λ fs. read fs target)
    λ fs. (ok tt, between fs)
    sized ← look (λ fs. read fs target)
    let reference =
        reference_of P relative role media_type schema (P.sha256 hashed) (P.size_of sized)
    lift (P.validate_artifact_reference reference)
    pure reference

  -- `source` is the content of the source, if it is a regular file.
  unfoldable pub publish_artifact :
      Turn P.Bytes
      → (Files P.Bytes → Files P.Bytes)
      → Option P.Bytes
      → String
      → String
      → String
      → Option String
      → Exec P.Bytes (Document P)
  publish_artifact turn between none relative role media_type schema =
      lift (err (message_error "artifact source must be a regular file"))
  publish_artifact turn between (some content) relative role media_type schema = do
    target ← lift (contained_artifact P relative)
    mkdirs (parent_of target)
    refuse_existing target (exists_error "artifact already exists")
    install_artifact turn target content
    describe_artifact between target relative role media_type schema
