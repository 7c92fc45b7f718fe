-- ===== src/Exchange/Writes/Texts.antt =====
-- A message with the texts of its schema: the record that its reservation leaves is the one that
-- `_validate_idempotency` expects.
use closed_loop_bench.Base.{String, true, [], ◌≡◌, refl, arith, inl, inr, eq_refl, eq_iff}
use closed_loop_bench.Base.Outcome.{ok, >>=-eq-ok, Outcome-cases}
use closed_loop_bench.Json.{str, at, equal}
use closed_loop_bench.Files.{FilePath, ◌▹◌, Files, ◌>>=◌}
use closed_loop_bench.Exchange.Platform.{Platform, IsLawful, Document, Turn, str_of}
use closed_loop_bench.Exchange.Segment.{safe_segment, identity}
use closed_loop_bench.Exchange.Segment.Laws.{identity-IsNamed}
use closed_loop_bench.Exchange.Reading.{
  read_json, idempotency_path, reservation, expected_reservation, validate_idempotency, record_of,
}
use closed_loop_bench.Exchange.Writes.{reserve_idempotency}
use closed_loop_bench.Exchange.Writes.Kept.{IsReserveFit}
use closed_loop_bench.Exchange.Writes.Reserved.{IsReserved, reserve_record-IsReserved}

module _ (P : Platform) where
  -- The texts that the schema asks of a message.
  pub record HasTexts (m : Document P) : Type 0 where
    pub type : String
    pub id : String
    pub scope : String
    pub key : String
    pub idempotency : Document P
    pub type_at : at "message_type" m ≡ ok (str type)
    pub id_at : at "message_id" m ≡ ok (str id)
    pub idempotency_at : at "idempotency" m ≡ ok idempotency
    pub scope_at : at "scope" idempotency ≡ ok (str scope)
    pub key_at : at "key" idempotency ≡ ok (str key)

  -- A text that is accepted as a segment is that segment.
  pub safe_text : (s label : String) {t : String} → safe_segment P (str s) label ≡ ok t → t ≡ s
  unfolding safe_segment
  safe_text s label h = ground (arith, eq_iff s "")

  safe_value :
      (v : Document P) (s label : String) {t : String}
      → v ≡ str s
      → safe_segment P v label ≡ ok t
      → t ≡ s
  safe_value v s label e h = safe_text s label (rw e at h)

  pub names_text :
      (m : Document P) (t : HasTexts m) (names : String × String)
      → identity P m ≡ ok names
      → (names.0 ≡ t.type) × (names.1 ≡ t.id)
  names_text m t names named =
      let n = identity-IsNamed P m names named in
      (
        safe_value n.type_value t.type _ (cc (n.type_at, t.type_at)) n.type_safe,
        safe_value n.id_value t.id _ (cc (n.id_at, t.id_at)) n.id_safe,
      )

  -- For such a message the record that is written is the one that is expected.
  pub reservation_text :
      (m : Document P) (t : HasTexts m) (payload : Document P)
      → reservation P m ≡ ok payload
      → payload ≡ record_of P (str t.scope) (str t.key) (str t.type) (str t.id)
  unfolding reservation
  reservation_text m t payload h =
      let (names, named, rest) = >>=-eq-ok (identity P m) _ h in
      let (e, e') = names_text m t names named in
      ground (arith, rest, t.idempotency_at, t.scope_at, t.key_at)

  expected_text :
      (m : Document P) (t : HasTexts m)
      → expected_reservation P m
        ≡ ok (record_of P (str t.scope) (str t.key) (str t.type) (str t.id))
  unfolding expected_reservation
  expected_text m t = rw (t.idempotency_at, t.scope_at, t.key_at, t.type_at, t.id_at) refl

  -- A record of texts equals itself.
  record_equal :
      (scope key type id : String)
      → let r = record_of P (str scope) (str key) (str type) (str id) in equal P.floats r r ≡ true
  unfolding equal
  record_equal scope key type id =
      ground (arith, eq_refl scope, eq_refl key, eq_refl type, eq_refl id)

  pub validate_idempotency-IsReserved :
      (m : Document P) (t : HasTexts m) (path : FilePath) (fs : Files P.Bytes)
      → idempotency_path P m ≡ ok path
      → IsReserved P fs path (record_of P (str t.scope) (str t.key) (str t.type) (str t.id))
      → validate_idempotency P fs m ≡ ok tt
  unfolding validate_idempotency read_json
  validate_idempotency-IsReserved m t path fs spot r = rw spot (ground (arith, expected_text m t))

  idempotency_path-shape :
      (m : Document P) (path : FilePath)
      → idempotency_path P m ≡ ok path
      → (scope : String) × (hash : String) × (path ≡ [] ▹ "idempotency" ▹ scope ▹ hash)
  unfolding idempotency_path
  idempotency_path-shape m path h =
      let (idempotency, e, h1) = >>=-eq-ok (at "idempotency" m) _ h in
      let (value, e1, h2) = >>=-eq-ok (at "scope" idempotency) _ h1 in
      let (scope, e2, h3) = >>=-eq-ok (safe_segment P value "idempotency scope") _ h2 in
      let (key, e3, h4) = >>=-eq-ok (at "key" idempotency) _ h3 in
      (scope, P.sha256 (P.utf8 (str_of P key)), ground (arith, h4))

  pub reserved_payload :
      (turn : Turn P.Bytes) (m : Document P) (fs : Files P.Bytes)
      → (reserve_idempotency P turn m fs).0 ≡ ok tt
      → (payload : Document P) × (reservation P m ≡ ok payload)
  unfolding reserve_idempotency ◌>>=◌
  reserved_payload turn m fs h = elim (Outcome-cases (reservation P m)) [
    | inl (e, failed) ↦ absurd (ground (arith, failed))
    | inr made ↦ made
  ]

  IsReserved-shape :
      (law : IsLawful P) (turn : Turn P.Bytes) (m : Document P) (t : HasTexts m)
      (fs : Files P.Bytes) (d : FilePath) (n : String)
      → idempotency_path P m ≡ ok (d ▹ n)
      → reservation P m ≡ ok (record_of P (str t.scope) (str t.key) (str t.type) (str t.id))
      → IsReserveFit P fs turn (d ▹ n)
      → (reserve_idempotency P turn m fs).0 ≡ ok tt
      → IsReserved P
          (reserve_idempotency P turn m fs).1
          (d ▹ n)
          (record_of P (str t.scope) (str t.key) (str t.type) (str t.id))
  unfolding reserve_idempotency ◌>>=◌
  IsReserved-shape law turn m t fs d n spot made fit h =
      let run =
        reserve_record-IsReserved P turn d n
          (record_of P (str t.scope) (str t.key) (str t.type) (str t.id)) _ law
          (record_equal t.scope t.key t.type t.id) fs fit in
      rw (made, spot) (run (rw (made, spot) at h))

  -- A reservation that returned holds the record of the message.
  pub reserve_idempotency-IsReserved :
      (law : IsLawful P) (turn : Turn P.Bytes) (m : Document P) (t : HasTexts m)
      (fs : Files P.Bytes) (path : FilePath)
      → idempotency_path P m ≡ ok path
      → IsReserveFit P fs turn path
      → (reserve_idempotency P turn m fs).0 ≡ ok tt
      → IsReserved P
          (reserve_idempotency P turn m fs).1
          path
          (record_of P (str t.scope) (str t.key) (str t.type) (str t.id))
  reserve_idempotency-IsReserved law turn m t fs path spot fit h =
      let (scope, hash, shape) = idempotency_path-shape m path spot in
      let (payload, made) = reserved_payload turn m fs h in
      rw shape (
        IsReserved-shape law turn m t fs _ hash (rw shape at spot)
          (rw (reservation_text m t payload made) at made) (rw shape at fit) h)
