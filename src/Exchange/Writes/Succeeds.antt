-- ===== src/Exchange/Writes/Succeeds.antt =====
-- A worker that nobody disturbs gets its message published.
use closed_loop_bench.Base.{
  String, Bool, false, Option, none, some, [], ◌≡◌, refl, ◌∙◌, ap, arith, length, ◌<◌,
}
use closed_loop_bench.Base.Outcome.{Outcome, ok, >>=-eq-ok}
use closed_loop_bench.Json.{str, at}
use closed_loop_bench.Files.{
  FilePath, ◌▹◌, Files, ◌>>=◌, file, in_folder, mkdirs, path_eq, path_exists, update,
}
use closed_loop_bench.Files.Frame.{mkdirs-IsMade, differs, deeper_differs}
use closed_loop_bench.Exchange.Platform.{Platform, Document, Turn}
use closed_loop_bench.Exchange.Segment.{identity, safe_segment}
use closed_loop_bench.Exchange.Reading.{idempotency_path, reservation, record_of}
use closed_loop_bench.Exchange.Artifact.{validate_document}
use closed_loop_bench.Exchange.Stage.Alone.{
  IsFree, IsOpen, mkdirs_open, mkdirs-IsFree, stage_alone, staged_elsewhere,
}
use closed_loop_bench.Exchange.Writes.{
  type_root, publishing_message, reserve_record, compare_record, reserve_idempotency,
  refuse_existing, stage_message, write_message, install_message, publish_message,
}
use closed_loop_bench.Exchange.Writes.Kept.{
  IsFit-IsFresh, IsReserveFit, IsMessageFit, write_staged, message_folder, write_message_fills,
}
use closed_loop_bench.Exchange.Writes.Reserved.{
  reserve_name, record_folder, fill_record, reserving_differs,
}
use closed_loop_bench.Exchange.Writes.Installed.{publishing_differs}
use closed_loop_bench.Exchange.Writes.RoundTrip.{publish_known}

-- Nobody else works inside the critical section.
abbrev pub IsAlone : {B : Type 0} → Turn B → Type 0
IsAlone {B} turn = (fs : Files B) → turn.others fs ≡ fs

module _ (P : Platform) where
  -- The files after a record was put in place.
  abbrev recorded : Turn P.Bytes → FilePath → String → Document P → Files P.Bytes → Files P.Bytes
  recorded turn d n payload gs = update (d ▹ reserve_name P n turn) none (
      update (d ▹ n) (some (record_folder P payload))
        (update (d ▹ reserve_name P n turn) (some (record_folder P payload)) gs))

  reserve_record_alone :
      (turn : Turn P.Bytes) (d : FilePath) (n : String) (payload : Document P) (text : String)
      (fs : Files P.Bytes)
      → IsReserveFit P fs turn (d ▹ n)
      → IsAlone turn
      → IsFree fs (d ▹ n)
      → IsOpen fs d
      → reserve_record P turn (d ▹ n) payload text fs
        ≡ (ok tt, recorded turn d n payload (mkdirs d fs).1)
  unfolding reserve_record ◌>>=◌
  reserve_record_alone turn d n payload text fs fit alone free clear =
      let made = mkdirs_open d fs clear in
      let fresh = IsFit-IsFresh fs d (reserve_name P n turn) turn.others fit made in
      rw made (
        stage_alone P.posix d (reserve_name P n turn) n (fill_record P turn d n payload) turn.others
          (compare_record P (d ▹ n) payload text) (record_folder P payload) (mkdirs d fs).1 fresh
          (write_staged _ "record.json" (P.dumps payload) [] (mkdirs d fs).1
            (fresh.below "record.json"))
          alone (mkdirs-IsFree d n fs free) (reserving_differs d n turn.uuid))

  -- The directories beside the record: longer ones stay, and the files of the others do.
  recorded_dir :
      (turn : Turn P.Bytes) (d : FilePath) (n : String) (payload : Document P) (fs : Files P.Bytes)
      (q : FilePath)
      → path_eq (d ▹ reserve_name P n turn) q ≡ false
      → path_eq (d ▹ n) q ≡ false
      → length d < length q
      → recorded turn d n payload (mkdirs d fs).1 q ≡ fs q
  recorded_dir turn d n payload fs q a b deep =
      staged_elsewhere P.posix d (reserve_name P n turn) n (fill_record P turn d n payload)
        turn.others (λ gs. ok tt) (record_folder P payload) (mkdirs d fs).1 q a b
      ∙ (mkdirs-IsMade d fs).longer q deep

  recorded_file :
      (turn : Turn P.Bytes) (d : FilePath) (n : String) (payload : Document P) (fs : Files P.Bytes)
      (q : FilePath) (k : String)
      → path_eq (d ▹ reserve_name P n turn) q ≡ false
      → path_eq (d ▹ n) q ≡ false
      → file (recorded turn d n payload (mkdirs d fs).1) (q ▹ k) ≡ file fs (q ▹ k)
  recorded_file turn d n payload fs q k a b =
      ap (in_folder k) (
        staged_elsewhere P.posix d (reserve_name P n turn) n (fill_record P turn d n payload)
          turn.others (λ gs. ok tt) (record_folder P payload) (mkdirs d fs).1 q a b)
      ∙ (mkdirs-IsMade d fs).same (q ▹ k)

  absent_refused : (fs : Files P.Bytes) (p : FilePath) → IsFree fs p → path_exists fs p ≡ false
  absent_refused fs p free = ground (arith, free.no_dir, free.no_file)

  install_message_alone :
      (turn : Turn P.Bytes) (m : Document P) (type id : String) (fs : Files P.Bytes)
      → IsMessageFit P fs turn type id
      → IsAlone turn
      → IsFree fs (type_root type ▹ id)
      → IsOpen fs (type_root type)
      → (install_message P turn m type id fs).0 ≡ ok (type_root type ▹ id)
  unfolding install_message refuse_existing stage_message ◌>>=◌
  install_message_alone turn m type id fs fit alone free clear =
      let made = mkdirs_open (type_root type) fs clear in
      let fresh =
        IsFit-IsFresh fs (type_root type) (publishing_message id turn.uuid) turn.others fit made in
      let gs = (mkdirs (type_root type) fs).1 in
      let free' = mkdirs-IsFree (type_root type) id fs free in
      rw
        (
          made,
          absent_refused gs (type_root type ▹ id) free',
          stage_alone P.posix (type_root type) (publishing_message id turn.uuid) id
              (write_message P (type_root type ▹ publishing_message id turn.uuid) m type id)
              turn.others _ (message_folder P m type id) gs fresh
              (write_message_fills P _ m type id gs fresh.below) alone free'
              (publishing_differs (type_root type) id turn.uuid),
        )
        refl

  -- A message with an identity and a place for its key has a record to reserve.
  reservation_made :
      (m : Document P) (names : String × String) (path : FilePath)
      → identity P m ≡ ok names
      → idempotency_path P m ≡ ok path
      → (payload : Document P) × (reservation P m ≡ ok payload)
  unfolding reservation idempotency_path
  reservation_made m names path named spot =
      let (idempotency, e1, h1) = >>=-eq-ok (at "idempotency" m) _ spot in
      let (scope_value, e2, h2) = >>=-eq-ok (at "scope" idempotency) _ h1 in
      let (scope, e3, h3) = >>=-eq-ok (safe_segment P scope_value "idempotency scope") _ h2 in
      let (key, e4, h4) = >>=-eq-ok (at "key" idempotency) _ h3 in
      (record_of P scope_value key (str names.0) (str names.1), ground (arith, named, e1, e2, e4))

  -- The directory of the keys of a scope
  abbrev pub key_root : String → FilePath
  key_root scope = [] ▹ "idempotency" ▹ scope

  module _ (first second : Turn P.Bytes) (m payload : Document P) (type id scope n : String)
      (fs : Files P.Bytes) where
    -- The files after the key was reserved.
    abbrev reserved_files : Files P.Bytes
    reserved_files = recorded first (key_root scope) n payload (mkdirs (key_root scope) fs).1

    message_dir : (k : String) → reserved_files (type_root type ▹ k) ≡ fs (type_root type ▹ k)
    message_dir k =
        recorded_dir first (key_root scope) n payload fs (type_root type ▹ k)
          (unfold path_eq in refl) (unfold path_eq in refl) (omega arith)

    message_below :
        (k l : String) → reserved_files (type_root type ▹ k ▹ l) ≡ fs (type_root type ▹ k ▹ l)
    message_below k l =
        recorded_dir first (key_root scope) n payload fs (type_root type ▹ k ▹ l)
          (differs _ _ (omega arith)) (differs _ _ (omega arith)) (omega arith)

    shallow_file :
        (q : FilePath) (k : String) → length q < 3 → file reserved_files (q ▹ k) ≡ file fs (q ▹ k)
    shallow_file q k short =
        recorded_file first (key_root scope) n payload fs q k
          (deeper_differs _ q (omega (arith, short))) (deeper_differs _ q (omega (arith, short)))

    fit_after : IsMessageFit P fs second type id → IsMessageFit P reserved_files second type id
    fit_after fit = record {
      no_dir = message_dir (publishing_message id second.uuid) ∙ fit.no_dir;
      no_file = shallow_file (type_root type) _ (omega arith) ∙ fit.no_file;
      below = λ k. message_below (publishing_message id second.uuid) k ∙ fit.below k;
      respects = fit.respects;
    }

    IsFree-after : IsFree fs (type_root type ▹ id) → IsFree reserved_files (type_root type ▹ id)
    IsFree-after free = record {
      no_dir = message_dir id ∙ free.no_dir;
      no_file = shallow_file (type_root type) id (omega arith) ∙ free.no_file;
    }

    IsOpen-after : IsOpen fs (type_root type) → IsOpen reserved_files (type_root type)
    IsOpen-after clear = (
      shallow_file ([] ▹ "messages") type (omega arith) ∙ clear.0,
      (shallow_file [] "messages" (omega arith) ∙ clear.1.0, tt),
    )

  -- Where a message may be published: its key and its place are free, no plain file stands where a
  -- directory is wanted, and its staging names are new.
  pub record IsPublishable (fs : Files P.Bytes) (first second : Turn P.Bytes)
      (type id scope n : String) : Type 0 where
    pub key_fit : IsReserveFit P fs first (key_root scope ▹ n)
    pub key_free : IsFree fs (key_root scope ▹ n)
    pub key_open : IsOpen fs (key_root scope)
    pub message_fit : IsMessageFit P fs second type id
    pub message_free : IsFree fs (type_root type ▹ id)
    pub message_open : IsOpen fs (type_root type)

  -- A valid message whose key and whose place are free is published by a worker that nobody disturbs:
  -- the call returns its directory. No plain file stands where a directory is wanted, and the
  -- staging names are new.
  pub publish_message-returns :
      (first second : Turn P.Bytes) (m : Document P)
      (validate : Option (Document P → Outcome (Unit {0}))) (verify : Bool) (fs : Files P.Bytes)
      (type id scope n : String)
      → IsAlone first
      → IsAlone second
      → identity P m ≡ ok (type, id)
      → idempotency_path P m ≡ ok (key_root scope ▹ n)
      → validate_document P fs m validate verify ≡ ok tt
      → IsPublishable fs first second type id scope n
      → (publish_message P first second m validate verify fs).0 ≡ ok (type_root type ▹ id)
  unfolding reserve_idempotency ◌>>=◌
  publish_message-returns first second m validate verify fs type id scope n alone1 alone2 named spot
        valid p =
      let (payload, made) = reservation_made m (type, id) _ named spot in
      rw
        (
          publish_known P first second m validate verify fs (type, id) named,
          valid,
          made,
          spot,
          reserve_record_alone first (key_root scope) n payload _ fs p.key_fit alone1 p.key_free
              p.key_open,
        )
        (install_message_alone second m type id
          (reserved_files first second m payload type id scope n fs)
          (fit_after first second m payload type id scope n fs p.message_fit) alone2
          (IsFree-after first second m payload type id scope n fs p.message_free)
          (IsOpen-after first second m payload type id scope n fs p.message_open))
