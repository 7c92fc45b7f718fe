-- ===== src/Exchange/Artifact.antt =====
-- Content references to files under the exchange root: `validate_artifact_on_disk`,
-- `reference_existing_artifact`, `_artifact_references`, `_validate_document`.
use closed_loop_bench.Base.{
  ℕ, String, Bool, true, false, ◌==◌, List, [], ◌∷◌, ◌++◌, Option, some, none,
}
use closed_loop_bench.Base.{◌<>◌, if◌then◌else◌}
use closed_loop_bench.Base.Outcome.{
  Outcome, ok, err, message_error, validation_error, guard, ◌>>=◌, ◌>>◌,
}
use closed_loop_bench.Json.{
  Value, Items, Fields, null, bool, int, float, str, arr, obj, nil, item, end, field, find, at,
  is_text, equals_int, pos,
}
use closed_loop_bench.Files.{FilePath, Files, is_file, read}
use closed_loop_bench.Exchange.Platform.{Platform, Document, str_of}
use closed_loop_bench.Exchange.Segment.{contained_artifact}

abbrev pub reference_version : String
reference_version = "shared_artifact_ref.v1"

-- `except SharedProtocolValidationError as exc: raise SharedMessageError(str(exc))`
abbrev pub as_message_error : {A : Type 0} → Outcome A → Outcome A
as_message_error (ok a) = ok a
as_message_error (err (validation_error text)) = err (message_error text)
as_message_error (err e) = err e

-- `"/".join(parts)` of a path, whose last component stands first
abbrev pub posix_text : FilePath → String
posix_text [] = ""
posix_text (n ∷ []) = n
posix_text (n ∷ d) = posix_text d <> "/" <> n

-- `value.get("schema_version") == "shared_artifact_ref.v1"`
abbrev pub is_reference : {F : Type 0} → Fields F → Bool
is_reference fs = elim (find "schema_version" fs) [
  | none ↦ false
  | some v ↦ is_text v reference_version
]

-- `_artifact_references`: every reference in a document, at any depth.
unfoldable mutual
  pub references : {F : Type 0} → Value F → List (Value F)
  references null = []
  references (bool b) = []
  references (int n) = []
  references (float x) = []
  references (str s) = []
  references (arr xs) = references_in xs
  references (obj fs) =
      if is_reference fs then obj fs ∷ references_below fs else references_below fs

  pub references_in : {F : Type 0} → Items F → List (Value F)
  references_in nil = []
  references_in (item v vs) = references v ++ references_in vs

  pub references_below : {F : Type 0} → Fields F → List (Value F)
  references_below end = []
  references_below (field k v fs) = references v ++ references_below fs

module _ (P : Platform) where
  unfoldable pub validate_artifact_on_disk : Files P.Bytes → Document P → Outcome FilePath
  validate_artifact_on_disk fs ref = do
    P.validate_artifact_reference ref
    raw ← at "path" ref
    path ← contained_artifact P (str_of P raw)
    guard (is_file fs path) (message_error "referenced artifact does not exist")
    content ← read fs path
    size ← at "size_bytes" ref
    guard (equals_int P.floats size (pos (P.size_of content)))
        (message_error "artifact size mismatch")
    digest ← at "sha256" ref
    guard (is_text digest (P.sha256 content)) (message_error "artifact digest mismatch")
    ok path

  abbrev content_schema_field : Option String → Fields P.floats.Float
  content_schema_field none = end
  content_schema_field (some schema) =
      if schema == "" then end else field "content_schema" (str schema) end

  -- The reference that `publish_artifact` and `reference_existing_artifact` build.
  abbrev pub reference_of : String → String → String → Option String → String → ℕ → Document P
  reference_of path role media_type content_schema digest size = obj (
      field "schema_version" (str reference_version) (
        field "path" (str path) (
          field "role" (str role) (
            field "media_type" (str media_type) (
              field "sha256" (str digest) (
                field "size_bytes" (int (pos size))
                  (field "immutable" (bool true) (content_schema_field content_schema))))))))

  -- The reference to one content.
  abbrev pub reference_to : String → String → String → Option String → P.Bytes → Document P
  reference_to path role media_type content_schema content =
      reference_of path role media_type content_schema (P.sha256 content) (P.size_of content)

  -- The path is relative to the root: one that leads out of it is refused by `none`.
  unfoldable pub reference_existing_artifact :
      Files P.Bytes → Option FilePath → String → String → Option String → Outcome (Document P)
  reference_existing_artifact fs none role media_type schema =
      err (message_error "artifact is outside the exchange root")
  reference_existing_artifact fs (some path) role media_type schema = do
    guard (is_file fs path) (message_error "artifact must be a regular file")
    content ← read fs path
    let reference = reference_to (posix_text path) role media_type schema content
    P.validate_artifact_reference reference
    ok reference

  unfoldable pub validate_each : Files P.Bytes → List (Document P) → Outcome (Unit {0})
  validate_each fs [] = ok tt
  validate_each fs (ref ∷ refs) = do validate_artifact_on_disk fs ref; validate_each fs refs

  unfoldable pub validate_document :
      Files P.Bytes
      → Document P
      → Option (Document P → Outcome (Unit {0}))
      → Bool
      → Outcome (Unit {0})
  validate_document fs m validate verify = do
    as_message_error (elim validate [ none ↦ P.validate_shared_document m | some check ↦ check m ])
    if verify then validate_each fs (references m) else ok tt
