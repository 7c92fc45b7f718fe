-- ===== src/Exchange/Writes/RoundTrip.antt =====
-- A published message is loaded as it was.
use closed_loop_bench.Base.{
  String, Bool, Option, some, ◌≡◌, refl, ◌∙◌, sym, ap, arith, inl, inr, eq_refl,
}
use closed_loop_bench.Base.Outcome.{Outcome, ok, Outcome-cases, ok_unique}
use closed_loop_bench.Json.{str}
use closed_loop_bench.Files.{FilePath, ◌▹◌, Files, lift, look, ◌>>=◌}
use closed_loop_bench.Files.Frame.{IsKept, IsKept-trans}
use closed_loop_bench.Exchange.Platform.{Platform, IsLawful, Document, Turn}
use closed_loop_bench.Exchange.Segment.{safe_segment, identity}
use closed_loop_bench.Exchange.Segment.Laws.{identity-IsNamed}
use closed_loop_bench.Exchange.Reading.{
  read_json, idempotency_path, validate_idempotency, record_of,
}
use closed_loop_bench.Exchange.Artifact.{validate_document}
use closed_loop_bench.Exchange.Message.{check_ready, load_message}
use closed_loop_bench.Exchange.Writes.{
  type_root, install_message, reserve_idempotency, publish_message, ready_of,
}
use closed_loop_bench.Exchange.Writes.Kept.{
  IsReserveFit, IsMessageFit, reserve_idempotency-IsKept, message_folder, install_message-IsKept,
  >>=-done,
}
use closed_loop_bench.Exchange.Writes.Reserved.{IsReserved, IsReserved-IsKept}
use closed_loop_bench.Exchange.Writes.Installed.{install_message-installs, validate_document-IsKept}
use closed_loop_bench.Exchange.Writes.Texts.{
  HasTexts, names_text, validate_idempotency-IsReserved, reserved_payload,
  reserve_idempotency-IsReserved,
}

module _ (P : Platform) where
  check_ready_own :
      (type id : String) (content : P.Bytes)
      → check_ready P (ready_of P type id content) type id content ≡ ok tt
  unfolding check_ready
  check_ready_own type id content =
      ground (arith, eq_refl type, eq_refl id, eq_refl (P.sha256 content))

  -- A message directory as `install_message` fills it loads, if the message is valid and reserved.
  load_installed :
      (law : IsLawful P) (m : Document P) (type id : String) (fs : Files P.Bytes)
      (validate : Option (Document P → Outcome (Unit {0}))) (verify : Bool)
      → safe_segment P (str type) "message type" ≡ ok type
      → safe_segment P (str id) "message id" ≡ ok id
      → fs (type_root type ▹ id) ≡ some (message_folder P m type id)
      → identity P m ≡ ok (type, id)
      → validate_document P fs m validate verify ≡ ok tt
      → validate_idempotency P fs m ≡ ok tt
      → load_message P fs (str type) (str id) validate verify ≡ ok m
  unfolding load_message read_json
  load_installed law m type id fs validate verify s1 s2 there named valid reserved =
      rw (s1, s2)
        (ground (
          arith,
          law.loads-dumps m,
          law.loads-dumps (ready_of P type id (P.dumps m)),
          check_ready_own type id (P.dumps m),
          eq_refl type,
          eq_refl id,
          valid,
          reserved,
        ))

  -- The rest of `publish_message` after the reservation.
  published_from :
      (law : IsLawful P) (second : Turn P.Bytes) (m : Document P) (t : HasTexts P m)
      (validate : Option (Document P → Outcome (Unit {0}))) (verify : Bool) (fs gs : Files P.Bytes)
      (target path : FilePath)
      → identity P m ≡ ok (t.type, t.id)
      → idempotency_path P m ≡ ok path
      → IsMessageFit P gs second t.type t.id
      → IsKept fs gs
      → validate_document P fs m validate verify ≡ ok tt
      → IsReserved P gs path (record_of P (str t.scope) (str t.key) (str t.type) (str t.id))
      → (install_message P second m t.type t.id gs).0 ≡ ok target
      → load_message P
          (install_message P second m t.type t.id gs).1
          (str t.type)
          (str t.id)
          validate
          verify
        ≡ ok m
  published_from law second m t validate verify fs gs target path named spot fit kept valid r h =
      let hs = (install_message P second m t.type t.id gs).1 in
      let n = identity-IsNamed P m (t.type, t.id) named in
      let kept' = install_message-IsKept P second m t.type t.id gs fit in
      load_installed law m t.type t.id hs validate verify
        (rw (ok_unique n.type_at t.type_at) at n.type_safe)
        (rw (ok_unique n.id_at t.id_at) at n.id_safe)
        (install_message-installs P second m t.type t.id gs target fit h) named
        (validate_document-IsKept P fs hs m validate verify (IsKept-trans fs gs hs kept kept')
          valid)
        (validate_idempotency-IsReserved P m t path hs spot
          (IsReserved-IsKept P gs hs path _ kept' r))

  reserved_spot :
      (turn : Turn P.Bytes) (m : Document P) (fs : Files P.Bytes)
      → (reserve_idempotency P turn m fs).0 ≡ ok tt
      → (path : FilePath) × (idempotency_path P m ≡ ok path)
  unfolding reserve_idempotency ◌>>=◌
  reserved_spot turn m fs h =
      let (payload, made) = reserved_payload P turn m fs h in
      elim (Outcome-cases (idempotency_path P m)) [
        | inl (e, failed) ↦ absurd (ground (arith, failed, made))
        | inr spot ↦ spot
      ]

  pub publish_named :
      (first second : Turn P.Bytes) (m : Document P) (t : HasTexts P m)
      (validate : Option (Document P → Outcome (Unit {0}))) (verify : Bool) (fs : Files P.Bytes)
      {target : FilePath}
      → (publish_message P first second m validate verify fs).0 ≡ ok target
      → identity P m ≡ ok (t.type, t.id)
  unfolding publish_message
  publish_named first second m t validate verify fs h =
      let (names, named, e) = >>=-done (lift (identity P m)) _ fs h in
      let (p, q) = names_text P m t names named in named ∙ λ i. ok (p i, q i)

  pub publish_known :
      (first second : Turn P.Bytes) (m : Document P)
      (validate : Option (Document P → Outcome (Unit {0}))) (verify : Bool) (fs : Files P.Bytes)
      (names : String × String)
      → identity P m ≡ ok names
      → publish_message P first second m validate verify fs
        ≡ (look (λ f. validate_document P f m validate verify) >>= λ u.
              reserve_idempotency P first m >>= λ v. install_message P second m names.0 names.1)
            fs
  unfolding publish_message ◌>>=◌
  publish_known first second m validate verify fs names named = rw named refl

  -- A message that was published is loaded as it was, under its type and id and with the checks that
  -- it passed, if the codec gives back what it wrote, the message has the texts of its schema, and
  -- each of the two staging names is new when its critical section starts.
  pub publish_message-load :
      IsLawful P
      → (first second : Turn P.Bytes) (m : Document P) (t : HasTexts P m)
        (validate : Option (Document P → Outcome (Unit {0}))) (verify : Bool) (fs : Files P.Bytes)
        (target : FilePath)
      → ((path : FilePath) → idempotency_path P m ≡ ok path → IsReserveFit P fs first path)
      → IsMessageFit P (reserve_idempotency P first m fs).1 second t.type t.id
      → (publish_message P first second m validate verify fs).0 ≡ ok target
      → load_message P
          (publish_message P first second m validate verify fs).1
          (str t.type)
          (str t.id)
          validate
          verify
        ≡ ok m
  publish_message-load law first second m t validate verify fs target fit_first fit_second h =
      let named = publish_named first second m t validate verify fs h in
      let same = publish_known first second m validate verify fs (t.type, t.id) named in
      let h1 = sym (ap (λ r. r.0) same) ∙ h in
      let (u, valid, e1) = >>=-done (look (λ f. validate_document P f m validate verify)) _ fs h1 in
      let h2 = sym (ap (λ r. r.0) e1) ∙ h1 in
      let (v, reserved, e2) = >>=-done (reserve_idempotency P first m) _ fs h2 in
      let h3 = sym (ap (λ r. r.0) e2) ∙ h2 in
      let (path, spot) = reserved_spot first m fs reserved in
      rw (same, e1, e2)
        (published_from law second m t validate verify fs (reserve_idempotency P first m fs).1
          target path named spot fit_second (reserve_idempotency-IsKept P first m fs fit_first)
          valid
          (reserve_idempotency-IsReserved P law first m t fs path spot (fit_first path spot)
            reserved)
          h3)
