-- ===== src/Exchange/Writes/Installed.antt =====
-- What a message that was put in place looks like in the files, and that references hold on while
-- files are kept.
use closed_loop_bench.Base.{
  String, ◌<>◌, Bool, true, false, Option, some, List, [], ◌∷◌, ◌≡◌, ◌∙◌, sym, ap, arith,
  count-append, longer_differs, inl, inr,
}
use closed_loop_bench.Base.Outcome.{Outcome, ok, Error, exists_error, >>=-eq-ok, guard-bind}
use closed_loop_bench.Json.{at}
use closed_loop_bench.Files.{
  FilePath, ◌▹◌, Files, Exec, pure, ◌>>=◌, is_file, update, mkdirs, path_eq, read,
}
use closed_loop_bench.Files.Frame.{siblings_differ, IsKept}
use closed_loop_bench.Exchange.Platform.{Platform, Document, Turn, str_of}
use closed_loop_bench.Exchange.Segment.{contained_artifact}
use closed_loop_bench.Exchange.Artifact.{
  validate_artifact_on_disk, validate_each, validate_document, references,
}
use closed_loop_bench.Exchange.Stage.Laws.{IsFresh, Respects, stage-ok}
use closed_loop_bench.Exchange.Writes.{
  type_root, publishing_message, write_message, exists_or_os, stage_message, refuse_existing,
  install_message,
}
use closed_loop_bench.Exchange.Writes.Kept.{
  IsFit-IsFresh, IsMessageFit, message_folder, write_message_fills, >>=-done,
}

pub publishing_differs :
    (d : FilePath) (id u : String) → path_eq (d ▹ publishing_message id u) (d ▹ id) ≡ false
publishing_differs d id u = siblings_differ d _ id (
    longer_differs _ id
      (omega (arith, count-append ".publishing-" (id <> "-" <> u), count-append id ("-" <> u))))

module _ (P : Platform) where
  never_ok : (fs : Files P.Bytes) (p : FilePath) (e : Error) → exists_or_os fs p e ≡ ok tt → ⊥
  never_ok fs p e h = ground arith

  stage_message-installs :
      (turn : Turn P.Bytes) (m : Document P) (type id : String) (fs : Files P.Bytes)
      → IsFresh fs (type_root type) (publishing_message id turn.uuid)
      → Respects (type_root type) (publishing_message id turn.uuid) turn.others
      → (stage_message P turn m type id fs).0 ≡ ok tt
      → (stage_message P turn m type id fs).1 (type_root type ▹ id)
        ≡ some (message_folder P m type id)
  unfolding stage_message
  stage_message-installs turn m type id fs fresh respects h =
      elim (stage-ok P.posix (type_root type) (publishing_message id turn.uuid)
        (type_root type ▹ id)
        (write_message P (type_root type ▹ publishing_message id turn.uuid) m type id) turn.others
        (λ gs. exists_or_os gs (type_root type ▹ id) (exists_error "message already exists"))
        (message_folder P m type id) fs fresh
        (write_message_fills P (type_root type ▹ publishing_message id turn.uuid) m type id fs
          fresh.below)
        respects (publishing_differs (type_root type) id turn.uuid) h) [
          | inl (accepted, e) ↦ absurd (
              never_ok
                (turn.others (
                  update (type_root type ▹ publishing_message id turn.uuid)
                    (some (message_folder P m type id)) fs))
                (type_root type ▹ id) (exists_error "message already exists") accepted)
          | inr there ↦ there
        ]

  -- The rest of `install_message` once the directory of the type is there.
  install_rest-installs :
      (turn : Turn P.Bytes) (m : Document P) (type id : String) (fs : Files P.Bytes) (p : FilePath)
      → IsFresh fs (type_root type) (publishing_message id turn.uuid)
      → Respects (type_root type) (publishing_message id turn.uuid) turn.others
      → let rest : Exec P.Bytes FilePath =
          refuse_existing (type_root type ▹ id) (exists_error "message already exists") >>= λ _.
          stage_message P turn m type id >>= λ _. pure (type_root type ▹ id) in
        (rest fs).0 ≡ ok p → (rest fs).1 (type_root type ▹ id) ≡ some (message_folder P m type id)
  unfolding refuse_existing
  install_rest-installs turn m type id fs p fresh respects h =
      let (u, free, e) = >>=-done (refuse_existing (type_root type ▹ id) _) _ fs h in
      let (v, done, e') =
        >>=-done (stage_message P turn m type id) _ fs (sym (ap (λ r. r.0) e) ∙ h) in
      rw (e, e') (stage_message-installs turn m type id fs fresh respects done)

  pub install_message-installs :
      (turn : Turn P.Bytes) (m : Document P) (type id : String) (fs : Files P.Bytes) (p : FilePath)
      → IsMessageFit P fs turn type id
      → (install_message P turn m type id fs).0 ≡ ok p
      → (install_message P turn m type id fs).1 (type_root type ▹ id)
        ≡ some (message_folder P m type id)
  unfolding install_message
  install_message-installs turn m type id fs p fit h =
      let (u, made, e) = >>=-done (mkdirs (type_root type)) _ fs h in
      ap (λ r. r.1 (type_root type ▹ id)) e
      ∙ install_rest-installs turn m type id (mkdirs (type_root type) fs).1 p
          (IsFit-IsFresh fs _ _ turn.others fit made) fit.respects (sym (ap (λ r. r.0) e) ∙ h)

  -- A reference that holds goes on to hold while files are kept.
  pub validate_artifact-IsKept :
      (fs gs : Files P.Bytes) (ref : Document P) {p : FilePath}
      → IsKept fs gs
      → validate_artifact_on_disk P fs ref ≡ ok p
      → validate_artifact_on_disk P gs ref ≡ ok p
  unfolding validate_artifact_on_disk
  validate_artifact-IsKept fs gs ref kept h =
      let (u, fine, h1) = >>=-eq-ok (P.validate_artifact_reference ref) _ h in
      let (raw, got, h2) = >>=-eq-ok (at "path" ref) _ h1 in
      let (path, inside, h3) = >>=-eq-ok (contained_artifact P (str_of P raw)) _ h2 in
      let (there, h4) = guard-bind (is_file fs path) _ _ h3 in
      let (content, found, h5) = >>=-eq-ok (read fs path) _ h4 in
      rw (fine, got, inside) (ground (arith, kept path content, h4, h5))

  validate_each-IsKept :
      (fs gs : Files P.Bytes) (refs : List (Document P))
      → IsKept fs gs
      → validate_each P fs refs ≡ ok tt
      → validate_each P gs refs ≡ ok tt
  unfolding validate_each
  validate_each-IsKept fs gs [] kept h = h
  validate_each-IsKept fs gs (ref ∷ refs) kept h =
      let (p, one, rest) = >>=-eq-ok (validate_artifact_on_disk P fs ref) _ h in
      rw (validate_artifact-IsKept fs gs ref kept one) (validate_each-IsKept fs gs refs kept rest)

  pub validate_document-IsKept :
      (fs gs : Files P.Bytes) (m : Document P) (validate : Option (Document P → Outcome (Unit {0})))
      (verify : Bool)
      → IsKept fs gs
      → validate_document P fs m validate verify ≡ ok tt
      → validate_document P gs m validate verify ≡ ok tt
  unfolding validate_document
  validate_document-IsKept fs gs m validate false kept h = h
  validate_document-IsKept fs gs m validate true kept h =
      ground (arith, validate_each-IsKept fs gs (references m) kept)
