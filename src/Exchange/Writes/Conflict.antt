-- ===== src/Exchange/Writes/Conflict.antt =====
-- A reservation that another record holds.
use closed_loop_bench.Base.{
  String, Bool, true, false, Option, none, some, [], ◌∷◌, ◌≡◌, refl, ◌∙◌, ap, arith, inl, inr,
}
use closed_loop_bench.Base.Outcome.{Outcome, ok, err, conflict_error, claimed_error}
use closed_loop_bench.Json.{ℤ, str, equal}
use closed_loop_bench.Files.{
  FilePath, ◌▹◌, Folder, Files, ◌>>=◌, file, in_folder, is_blocked, update, mkdirs,
}
use closed_loop_bench.Files.Frame.{mkdirs-IsMade}
use closed_loop_bench.Exchange.Platform.{Platform, Document, Turn}
use closed_loop_bench.Exchange.Reading.{read_json, reservation, idempotency_path}
use closed_loop_bench.Exchange.Segment.{identity}
use closed_loop_bench.Exchange.Artifact.{validate_document}
use closed_loop_bench.Exchange.Job.{check_claim}
use closed_loop_bench.Exchange.Stage.Laws.{staged-IsKept, stage-cases}
use closed_loop_bench.Exchange.Writes.{
  compare_record, reserve_record, reserve_idempotency, publish_message, claim_job,
}
use closed_loop_bench.Exchange.Writes.Kept.{IsFit-IsFresh, IsReserveFit, write_staged}
use closed_loop_bench.Exchange.Writes.Reserved.{reserve_name, record_folder, fill_record}

module _ (P : Platform) (turn : Turn P.Bytes) (d : FilePath) (n : String) (payload : Document P)
    (text : String) where
  -- Another record is there.
  compare_taken :
      (gs : Files P.Bytes) (b : P.Bytes) (v : Document P)
      → file gs (d ▹ n ▹ "record.json") ≡ some b
      → P.loads b ≡ some v
      → equal P.floats v payload ≡ false
      → compare_record P (d ▹ n) payload text gs ≡ err (conflict_error text)
  unfolding compare_record read_json
  compare_taken gs b v there loaded other = ground arith

  blocked_of_file :
      (o : Option (Folder P.Bytes)) (k : String) (b : P.Bytes)
      → in_folder k o ≡ some b
      → is_blocked P.posix o ≡ true
  blocked_of_file none k b h = cc
  blocked_of_file (some []) k b h = cc
  blocked_of_file (some (e ∷ es)) k b h = refl

  -- A key whose record is another one is refused.
  pub reserve_record_taken :
      (fs : Files P.Bytes) (b : P.Bytes) (v : Document P)
      → IsReserveFit P fs turn (d ▹ n)
      → (mkdirs d fs).0 ≡ ok tt
      → file fs (d ▹ n ▹ "record.json") ≡ some b
      → P.loads b ≡ some v
      → equal P.floats v payload ≡ false
      → (reserve_record P turn (d ▹ n) payload text fs).0 ≡ err (conflict_error text)
  unfolding reserve_record ◌>>=◌
  reserve_record_taken fs b v fit made there loaded other =
      let gs = (mkdirs d fs).1 in
      let busy =
        turn.others (update (d ▹ reserve_name P n turn) (some (record_folder P payload)) gs) in
      let fresh = IsFit-IsFresh fs d (reserve_name P n turn) turn.others fit made in
      let filled =
        write_staged _ "record.json" (P.dumps payload) [] gs (fresh.below "record.json") in
      let still =
        staged-IsKept P.posix d (reserve_name P n turn) (d ▹ n) (fill_record P turn d n payload)
          turn.others (compare_record P (d ▹ n) payload text) (record_folder P payload) gs fresh
          filled fit.respects (d ▹ n ▹ "record.json") b
          ((mkdirs-IsMade d fs).same (d ▹ n ▹ "record.json") ∙ there) in
      elim (stage-cases P.posix d (reserve_name P n turn) (d ▹ n) (fill_record P turn d n payload)
        turn.others (compare_record P (d ▹ n) payload text) (record_folder P payload) gs fresh
        filled fit.respects) [
          | inl (blocked, e) ↦
              rw (made, ap (λ r. r.0) e) (compare_taken busy b v still loaded other)
          | inr (free, e) ↦
              absurd (ground (arith, blocked_of_file (busy (d ▹ n)) "record.json" b still, free))
        ]

abbrev pub taken_text : String
taken_text = "idempotency key already belongs to another message"

module _ (P : Platform) (m payload : Document P) (d : FilePath) (n : String) (b : P.Bytes)
    (v : Document P) (fs : Files P.Bytes) (reserved : reservation P m ≡ ok payload)
    (spot : idempotency_path P m ≡ ok (d ▹ n)) (there : file fs (d ▹ n ▹ "record.json") ≡ some b)
    (loaded : P.loads b ≡ some v) (other : equal P.floats v payload ≡ false)
    (made : (mkdirs d fs).0 ≡ ok tt) where
  reserve_idempotency_taken :
      (turn : Turn P.Bytes)
      → IsReserveFit P fs turn (d ▹ n)
      → (reserve_idempotency P turn m fs).0 ≡ err (conflict_error taken_text)
  unfolding reserve_idempotency ◌>>=◌
  reserve_idempotency_taken turn fit =
      rw (reserved, spot)
        (reserve_record_taken P turn d n payload taken_text fs b v fit made there loaded other)

  -- The idempotency key of a valid message belongs to another record: publishing raises the conflict,
  -- and the message store is left as the refused reservation left it.
  pub publish_message_conflict :
      (first second : Turn P.Bytes) (validate : Option (Document P → Outcome (Unit {0})))
      (verify : Bool) (names : String × String)
      → IsReserveFit P fs first (d ▹ n)
      → identity P m ≡ ok names
      → validate_document P fs m validate verify ≡ ok tt
      → publish_message P first second m validate verify fs
        ≡ (err (conflict_error taken_text), (reserve_idempotency P first m fs).1)
  unfolding publish_message ◌>>=◌
  publish_message_conflict first second validate verify names fit named valid =
      rw (named, valid, reserve_idempotency_taken first fit) refl

  -- A claim whose idempotency key belongs to another record passes its checks and is refused as
  -- claimed; no claim directory is made.
  pub claim_job_conflict :
      (first second : Turn P.Bytes) (request_id : String) (attempt : ℤ)
      → IsReserveFit P fs first (d ▹ n)
      → check_claim P fs (str request_id) m ≡ ok attempt
      → claim_job P first second request_id m fs ≡ (
        err (claimed_error "job attempt already has a claim identity"),
        (reserve_idempotency P first m fs).1,
      )
  unfolding claim_job ◌>>=◌
  claim_job_conflict first second request_id attempt fit checked =
      rw (checked, reserve_idempotency_taken first fit) refl
