-- ===== src/Exchange/Writes/Kept.antt =====
-- No operation of the exchange changes or removes a file, whether it returns or raises.
use closed_loop_bench.Base.{
  String, ◌<>◌, Bool, Option, none, some, [], ◌∷◌, ◌≡◌, refl, ◌∙◌, ap, arith,
}
use closed_loop_bench.Base.Outcome.{Outcome, ok, err, Error, os_error}
use closed_loop_bench.Files.{
  FilePath, ◌▹◌, Folder, Files, Exec, lift, look, continue, ◌>>=◌, file, update, mkdirs, write,
  put_file, find_file, in_folder, read,
}
use closed_loop_bench.Files.Frame.{
  update_self, update_ne, update-update, path_eq-parent, IsKept, IsKept-refl, IsKept-trans,
  mkdirs-IsMade,
}
use closed_loop_bench.Exchange.Platform.{Platform, Document, Turn}
use closed_loop_bench.Exchange.Segment.{identity}
use closed_loop_bench.Exchange.Reading.{idempotency_path, reservation}
use closed_loop_bench.Exchange.Artifact.{validate_document}
use closed_loop_bench.Exchange.Stage.Laws.{IsFresh, Respects, stage-IsKept}
use closed_loop_bench.Exchange.Writes.{
  parent_of, name_of, reserve_record, reserve_idempotency, write_message, install_message,
  publish_message, ready_of, refuse_existing, type_root, publishing_message, stage_message,
}
use closed_loop_bench.Exchange.Message.{message_name, ready_name}

-- A critical section as its worker finds it: nobody has used its staging name, and others respect it.
pub record IsFit {B : Type 0} (fs : Files B) (d : FilePath) (n : String)
    (others : Files B → Files B) : Type 0 where
  pub no_dir : fs (d ▹ n) ≡ none
  pub no_file : file fs (d ▹ n) ≡ none
  pub below : (m : String) → fs (d ▹ n ▹ m) ≡ none
  pub respects : Respects d n others

module _ {B : Type 0} where
  pub IsFit-IsFresh :
      (fs : Files B) (d : FilePath) (n : String) (others : Files B → Files B)
      → IsFit fs d n others
      → (mkdirs d fs).0 ≡ ok tt
      → IsFresh (mkdirs d fs).1 d n
  IsFit-IsFresh fs d n others fit made =
      let m = mkdirs-IsMade d fs in
      record {
        no_dir = m.longer (d ▹ n) (omega arith) ∙ fit.no_dir;
        no_file = m.same (d ▹ n) ∙ fit.no_file;
        below = λ k. m.longer (d ▹ n ▹ k) (omega arith) ∙ fit.below k;
        parent = m.made made;
      }

  pub mkdirs-IsKept : (d : FilePath) (fs : Files B) → IsKept fs (mkdirs d fs).1
  mkdirs-IsKept d fs p b h = (mkdirs-IsMade d fs).same p ∙ h

  pub continue-IsKept :
      {A C : Type 0} (r : Outcome A) (f : A → Exec B C) (fs gs : Files B)
      → IsKept fs gs
      → ((a : A) → r ≡ ok a → IsKept gs (f a gs).1)
      → IsKept fs (continue r f gs).1
  continue-IsKept (ok a) f fs gs h k = IsKept-trans fs gs _ h (k a refl)
  continue-IsKept (err e) f fs gs h k = h

  pub >>=-IsKept :
      {A C : Type 0} (m : Exec B A) (f : A → Exec B C) (fs : Files B)
      → IsKept fs (m fs).1
      → ((a : A) → (m fs).0 ≡ ok a → IsKept (m fs).1 (f a (m fs).1).1)
      → IsKept fs ((m >>= f) fs).1
  unfolding ◌>>=◌
  >>=-IsKept m f fs h k = continue-IsKept (m fs).0 f fs (m fs).1 h k

  write_free :
      (d : FilePath) (n : String) (b : B) (es : Folder B) (fs : Files B)
      → fs (d ▹ n) ≡ none
      → fs d ≡ some es
      → write (d ▹ n) b fs ≡ (ok tt, update d (some (put_file n b es)) fs)
  unfolding write
  write_free d n b es fs free there = ground arith

  -- A file is written into a staging directory.
  pub write_staged :
      (st : FilePath) (n : String) (b : B) (es : Folder B) (fs : Files B)
      → fs (st ▹ n) ≡ none
      → write (st ▹ n) b (update st (some es) fs) ≡ (ok tt, update st (some (put_file n b es)) fs)
  write_staged st n b es fs free =
      write_free st n b es (update st (some es) fs)
        (update_ne st (st ▹ n) (some es) fs (path_eq-parent n st) ∙ free)
        (update_self st (some es) fs)
      ∙ ap (λ f. (ok tt, f)) (update-update st (some (put_file n b es)) (some es) fs)

module _ (P : Platform) where
  -- The place of a record's staging directory.
  abbrev pub IsReserveFit : Files P.Bytes → Turn P.Bytes → FilePath → Type 0
  IsReserveFit fs turn path =
      IsFit fs (parent_of path) ("." <> name_of path <> ".reserving-" <> turn.uuid) turn.others

  pub reserve_record-IsKept :
      (turn : Turn P.Bytes) (path : FilePath) (payload : Document P) (text : String)
      (fs : Files P.Bytes)
      → IsReserveFit fs turn path
      → IsKept fs (reserve_record P turn path payload text fs).1
  unfolding reserve_record
  reserve_record-IsKept turn path payload text fs fit =
      >>=-IsKept (mkdirs (parent_of path)) _ fs (mkdirs-IsKept (parent_of path) fs) λ u made.
        let fresh = IsFit-IsFresh fs _ _ turn.others fit made in
        stage-IsKept P.posix (parent_of path) _ path _ turn.others _ _ _ fresh
          (write_staged _ "record.json" (P.dumps payload) [] _ (fresh.below "record.json"))
          fit.respects

  pub reserve_idempotency-IsKept :
      (turn : Turn P.Bytes) (m : Document P) (fs : Files P.Bytes)
      → ((path : FilePath) → idempotency_path P m ≡ ok path → IsReserveFit fs turn path)
      → IsKept fs (reserve_idempotency P turn m fs).1
  unfolding reserve_idempotency
  reserve_idempotency-IsKept turn m fs fit =
      >>=-IsKept (lift (reservation P m)) _ fs (IsKept-refl fs) λ payload p.
        >>=-IsKept (lift (idempotency_path P m)) _ fs (IsKept-refl fs)
          λ path q. reserve_record-IsKept turn path payload _ fs (fit path q)

  pub read_staged :
      (st : FilePath) (n : String) (b : P.Bytes) (es : Folder P.Bytes) (fs : Files P.Bytes)
      → find_file n es ≡ some b
      → read (update st (some es) fs) (st ▹ n) ≡ ok b
  read_staged st n b es fs h =
      ap (λ o. elim (in_folder n o) [ none ↦ err os_error | some c ↦ ok c ])
        (update_self st (some es) fs)
      ∙ rw h refl

  -- The two files of a message directory.
  abbrev pub message_folder : Document P → String → String → Folder P.Bytes
  message_folder m type id =
      (ready_name, P.dumps (ready_of P type id (P.dumps m))) ∷ (message_name, P.dumps m) ∷ []

  pub write_message_fills :
      (st : FilePath) (m : Document P) (type id : String) (fs : Files P.Bytes)
      → ((n : String) → fs (st ▹ n) ≡ none)
      → write_message P st m type id (update st (some []) fs)
        ≡ (ok tt, update st (some (message_folder m type id)) fs)
  unfolding write_message ◌>>=◌
  write_message_fills st m type id fs free =
      rw
        (
          write_staged st message_name (P.dumps m) [] fs (free message_name),
          read_staged st message_name (P.dumps m) ((message_name, P.dumps m) ∷ []) fs refl,
        )
        (write_staged st ready_name _ ((message_name, P.dumps m) ∷ []) fs (free ready_name))

  -- The place of a message's staging directory.
  abbrev pub IsMessageFit : Files P.Bytes → Turn P.Bytes → String → String → Type 0
  IsMessageFit fs turn type id =
      IsFit fs (type_root type) (publishing_message id turn.uuid) turn.others

  pub refuse_bind-IsKept :
      {A : Type 0} (target : FilePath) (e : Error) (f : Unit {0} → Exec P.Bytes A)
      (fs : Files P.Bytes)
      → IsKept fs (f tt fs).1
      → IsKept fs ((refuse_existing target e >>= f) fs).1
  unfolding refuse_existing
  refuse_bind-IsKept target e f fs h =
      >>=-IsKept (refuse_existing target e) f fs (IsKept-refl fs) λ u free. h

  stage_message-IsKept :
      (turn : Turn P.Bytes) (m : Document P) (type id : String) (fs : Files P.Bytes)
      → IsFresh fs (type_root type) (publishing_message id turn.uuid)
      → Respects (type_root type) (publishing_message id turn.uuid) turn.others
      → IsKept fs (stage_message P turn m type id fs).1
  unfolding stage_message
  stage_message-IsKept turn m type id fs fresh respects =
      stage-IsKept P.posix (type_root type) _ (type_root type ▹ id) _ turn.others _ _ fs fresh
        (write_message_fills _ m type id fs fresh.below) respects

  pub install_message-IsKept :
      (turn : Turn P.Bytes) (m : Document P) (type id : String) (fs : Files P.Bytes)
      → IsMessageFit fs turn type id
      → IsKept fs (install_message P turn m type id fs).1
  unfolding install_message
  install_message-IsKept turn m type id fs fit =
      >>=-IsKept (mkdirs (type_root type)) _ fs (mkdirs-IsKept (type_root type) fs) λ u made.
        refuse_bind-IsKept (type_root type ▹ id) _ _ _ (
          >>=-IsKept (stage_message P turn m type id) _ _
            (stage_message-IsKept turn m type id _ (IsFit-IsFresh fs _ _ turn.others fit made)
              fit.respects)
            λ w done. IsKept-refl _)

  -- Publishing a message changes and removes no file, on any branch, whatever other workers publish
  -- between its looks and its renames.
  -- Each staging name is new when its critical section starts, and other workers keep files and
  -- leave the staging names alone.
  pub publish_message-IsKept :
      (first second : Turn P.Bytes) (m : Document P)
      (validate : Option (Document P → Outcome (Unit {0}))) (verify : Bool) (fs : Files P.Bytes)
      → ((path : FilePath) → idempotency_path P m ≡ ok path → IsReserveFit fs first path)
      → ((names : String × String)
          → identity P m ≡ ok names
          → IsMessageFit (reserve_idempotency P first m fs).1 second names.0 names.1)
      → IsKept fs (publish_message P first second m validate verify fs).1
  unfolding publish_message
  publish_message-IsKept first second m validate verify fs fit_first fit_second =
      >>=-IsKept (lift (identity P m)) _ fs (IsKept-refl fs) λ names p.
        >>=-IsKept (look (λ f. validate_document P f m validate verify)) _ fs (IsKept-refl fs)
          λ u valid.
            >>=-IsKept (reserve_idempotency P first m) _ fs
              (reserve_idempotency-IsKept first m fs fit_first)
              λ v reserved. install_message-IsKept second m names.0 names.1 _ (fit_second names p)

continue_done :
    {B A C : Type 0} (r : Outcome A × Files B) (f : A → Exec B C) {c : C}
    → (continue r.0 f r.1).0 ≡ ok c
    → (a : A) × (r.0 ≡ ok a) × (continue r.0 f r.1 ≡ f a r.1)
continue_done (ok a, gs) f h = (a, refl, refl)
continue_done (err e, gs) f h = absurd (ground arith)

-- A sequence that returned: its first step returned, and the rest ran on from there.
pub >>=-done :
    {B A C : Type 0} (m : Exec B A) (f : A → Exec B C) (fs : Files B) {c : C}
    → ((m >>= f) fs).0 ≡ ok c
    → (a : A) × ((m fs).0 ≡ ok a) × ((m >>= f) fs ≡ f a (m fs).1)
unfolding ◌>>=◌
>>=-done m f fs h = continue_done (m fs) f h
