-- ===== src/Exchange/Writes/Published.antt =====
-- A message that was put in place, by `publish_message` or by `complete_job`: before it there was
-- none, and afterwards the files hold it.
use closed_loop_bench.Base.{String, Bool, true, Option, none, some, ◌≡◌, ◌∙◌, sym, ap}
use closed_loop_bench.Base.Outcome.{Outcome, ok}
use closed_loop_bench.Json.{str}
use closed_loop_bench.Files.{FilePath, ◌▹◌, Files, lift, look, file, in_folder, mkdirs}
use closed_loop_bench.Files.Frame.{mkdirs-IsMade}
use closed_loop_bench.Exchange.Platform.{Platform, Document, Turn}
use closed_loop_bench.Exchange.Segment.{identity}
use closed_loop_bench.Exchange.Reading.{idempotency_path}
use closed_loop_bench.Exchange.Artifact.{validate_document}
use closed_loop_bench.Exchange.Message.{message_name}
use closed_loop_bench.Exchange.Job.{check_result, terminal_directory}
use closed_loop_bench.Exchange.Writes.{
  type_root, install_message, reserve_idempotency, reserve_record, publish_message, complete_job,
  terminal_record,
}
use closed_loop_bench.Exchange.Writes.Kept.{
  IsReserveFit, IsMessageFit, reserve_idempotency-IsKept, >>=-done,
}
use closed_loop_bench.Exchange.Writes.KeptJobs.{IsRecorded, after_terminal}
use closed_loop_bench.Exchange.Writes.Texts.{HasTexts}
use closed_loop_bench.Exchange.Writes.Installed.{install_message-installs}
use closed_loop_bench.Exchange.Writes.Claimed.{absent-IsKept, free_of_ok}
use closed_loop_bench.Exchange.Writes.RoundTrip.{publish_named, publish_known}

module _ (P : Platform) where
  -- The file that marks a message as published.
  abbrev pub message_file : String → String → FilePath
  message_file type id = type_root type ▹ id ▹ message_name

  install_message_free :
      (turn : Turn P.Bytes) (m : Document P) (type id : String) (fs : Files P.Bytes) (p : FilePath)
      → (install_message P turn m type id fs).0 ≡ ok p
      → file fs (message_file type id) ≡ none
  unfolding install_message
  install_message_free turn m type id fs p h =
      let (u, made, e) = >>=-done (mkdirs (type_root type)) _ fs h in
      sym ((mkdirs-IsMade (type_root type) fs).same (message_file type id))
      ∙ free_of_ok (mkdirs (type_root type) fs).1 (type_root type ▹ id) message_name _ _
          (sym (ap (λ r. r.0) e) ∙ h)

  -- A message that was published was not there before, and its file holds it afterwards.
  pub publish_message-publishes :
      (first second : Turn P.Bytes) (m : Document P) (t : HasTexts P m)
      (validate : Option (Document P → Outcome (Unit {0}))) (verify : Bool) (fs : Files P.Bytes)
      (target : FilePath)
      → ((path : FilePath) → idempotency_path P m ≡ ok path → IsReserveFit P fs first path)
      → IsMessageFit P (reserve_idempotency P first m fs).1 second t.type t.id
      → (publish_message P first second m validate verify fs).0 ≡ ok target
      → (file fs (message_file t.type t.id) ≡ none)
        × (file (publish_message P first second m validate verify fs).1 (message_file t.type t.id)
            ≡ some (P.dumps m))
  publish_message-publishes first second m t validate verify fs target fit_first fit_second h =
      let named = publish_named P first second m t validate verify fs h in
      let same = publish_known P first second m validate verify fs (t.type, t.id) named in
      let h1 = sym (ap (λ r. r.0) same) ∙ h in
      let (u, valid, e1) = >>=-done (look (λ f. validate_document P f m validate verify)) _ fs h1 in
      let h2 = sym (ap (λ r. r.0) e1) ∙ h1 in
      let (v, reserved, e2) = >>=-done (reserve_idempotency P first m) _ fs h2 in
      let h3 = sym (ap (λ r. r.0) e2) ∙ h2 in
      let gs = (reserve_idempotency P first m fs).1 in
      (
        absent-IsKept fs gs (message_file t.type t.id)
            (reserve_idempotency-IsKept P first m fs fit_first)
            (install_message_free second m t.type t.id gs target h3),
        ap (λ r. file r.1 (message_file t.type t.id)) (same ∙ e1 ∙ e2)
            ∙ ap (λ o. in_folder message_name o)
                (install_message-installs P second m t.type t.id gs target fit_second h3),
      )

  -- The places of the three critical sections of `complete_job`.
  pub record IsCompleteFit (first second third : Turn P.Bytes) (request_id : String)
      (result : Document P) (fs : Files P.Bytes) : Type 0 where
    pub terminal_fit :
        (path : FilePath) (payload : Document P)
        → IsRecorded P fs request_id result path payload
        → IsReserveFit P fs first path
    pub key_fit :
        (path spot : FilePath) (payload : Document P)
        → IsRecorded P fs request_id result path payload
        → idempotency_path P result ≡ ok spot
        → IsReserveFit P (after_terminal P first path payload fs) second spot
    pub message_fit :
        (path : FilePath) (payload : Document P) (names : String × String)
        → IsRecorded P fs request_id result path payload
        → identity P result ≡ ok names
        → IsMessageFit P
            (reserve_idempotency P second result (after_terminal P first path payload fs)).1
            third
            names.0
            names.1

  -- A job that was completed: its terminal record was reserved, and then its result was published.
  pub record Completion (first second third : Turn P.Bytes) (request_id : String)
      (result : Document P) (fs : Files P.Bytes) (target : FilePath) : Type 0 where
    pub path : FilePath
    pub payload : Document P
    pub recorded : IsRecorded P fs request_id result path payload
    pub same :
        complete_job P first second third request_id result fs
        ≡ publish_message P second third result none true (after_terminal P first path payload fs)
    pub returned :
        (publish_message P second third result none true (after_terminal P first path payload fs)).0
        ≡ ok target

  pub complete_job-completes :
      (first second third : Turn P.Bytes) (request_id : String) (result : Document P)
      (fs : Files P.Bytes) (target : FilePath)
      → (complete_job P first second third request_id result fs).0 ≡ ok target
      → Completion first second third request_id result fs target
  unfolding complete_job
  complete_job-completes first second third request_id result fs target h =
      let (attempt, checked, e1) =
        >>=-done (look (λ f. check_result P f (str request_id) result)) _ fs h in
      let h1 = sym (ap (λ r. r.0) e1) ∙ h in
      let (path, spot, e2) =
        >>=-done (lift (terminal_directory P (str request_id) attempt)) _ fs h1 in
      let h2 = sym (ap (λ r. r.0) e2) ∙ h1 in
      let (payload, recorded, e3) =
        >>=-done (lift (terminal_record P request_id result attempt)) _ fs h2 in
      let h3 = sym (ap (λ r. r.0) e3) ∙ h2 in
      let (u, reserved, e4) = >>=-done (reserve_record P first path payload _) _ fs h3 in
      record {
        path = path;
        payload = payload;
        recorded = record {
          attempt = attempt;
          checked = checked;
          path_at = spot;
          payload_at = recorded;
        };
        same = e1 ∙ e2 ∙ e3 ∙ e4;
        returned = sym (ap (λ r. r.0) e4) ∙ h3;
      }
