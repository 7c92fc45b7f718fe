-- ===== src/Exchange/Writes/KeptJobs.antt =====
-- Claiming and completing a job changes and removes no file.
use closed_loop_bench.Base.{String, true, none, some, [], ◌∷◌, ◌≡◌, refl, inl, inr, arith}
use closed_loop_bench.Base.Outcome.{ok, >>=-eq-ok, Outcome-cases}
use closed_loop_bench.Json.{ℤ, str, at}
use closed_loop_bench.Files.{FilePath, ◌▹◌, Folder, Files, lift, look, ◌>>=◌, update, mkdirs}
use closed_loop_bench.Files.Frame.{IsKept, IsKept-refl}
use closed_loop_bench.Exchange.Platform.{Platform, Document, Turn}
use closed_loop_bench.Exchange.Segment.{identity}
use closed_loop_bench.Exchange.Segment.Laws.{identity-IsNamed}
use closed_loop_bench.Exchange.Reading.{idempotency_path, reservation}
use closed_loop_bench.Exchange.Message.{ready_name}
use closed_loop_bench.Exchange.Job.{
  claim_name, attempt_name, check_claim, check_result, terminal_directory,
}
use closed_loop_bench.Exchange.Stage.Laws.{IsFresh, Respects, stage-IsKept}
use closed_loop_bench.Exchange.Writes.{
  claim_root, claiming, claim_ready, write_claim, stage_claim, install_claim, reserve_claim,
  claim_job, reserve_idempotency, reserve_record, terminal_record, complete_job,
}
use closed_loop_bench.Exchange.Writes.Kept.{
  IsFit, IsFit-IsFresh, mkdirs-IsKept, >>=-IsKept, write_staged, read_staged, refuse_bind-IsKept,
  IsReserveFit, IsMessageFit, reserve_record-IsKept, reserve_idempotency-IsKept,
  publish_message-IsKept,
}

module _ (P : Platform) where
  abbrev pub IsClaimFit : Files P.Bytes → Turn P.Bytes → String → ℤ → Type 0
  IsClaimFit fs turn id attempt = IsFit fs (claim_root id) (claiming attempt turn.uuid) turn.others

  -- The two files of a claim directory.
  abbrev pub claim_folder : Document P → Document P → Folder P.Bytes
  claim_folder claim id =
      (ready_name, P.dumps_ascii (claim_ready P id (P.dumps claim)))
      ∷ (claim_name, P.dumps claim)
      ∷ []

  pub write_claim_fills :
      (st : FilePath) (claim id : Document P) (fs : Files P.Bytes)
      → at "message_id" claim ≡ ok id
      → ((n : String) → fs (st ▹ n) ≡ none)
      → write_claim P st claim (update st (some []) fs)
        ≡ (ok tt, update st (some (claim_folder claim id)) fs)
  unfolding write_claim ◌>>=◌
  write_claim_fills st claim id fs named free =
      rw
        (
          write_staged st claim_name (P.dumps claim) [] fs (free claim_name),
          named,
          read_staged P st claim_name (P.dumps claim) ((claim_name, P.dumps claim) ∷ []) fs refl,
        )
        (write_staged st ready_name _ ((claim_name, P.dumps claim) ∷ []) fs (free ready_name))

  stage_claim-IsKept :
      (turn : Turn P.Bytes) (claim id : Document P) (request_id : String) (attempt : ℤ)
      (fs : Files P.Bytes)
      → at "message_id" claim ≡ ok id
      → IsFresh fs (claim_root request_id) (claiming attempt turn.uuid)
      → Respects (claim_root request_id) (claiming attempt turn.uuid) turn.others
      → IsKept fs (stage_claim P turn claim request_id attempt fs).1
  unfolding stage_claim
  stage_claim-IsKept turn claim id request_id attempt fs named fresh respects =
      stage-IsKept P.posix (claim_root request_id) _ (claim_root request_id ▹ attempt_name attempt)
        _ turn.others _ _ fs fresh (write_claim_fills _ claim id fs named fresh.below) respects

  install_claim-IsKept :
      (turn : Turn P.Bytes) (claim id : Document P) (request_id : String) (attempt : ℤ)
      (fs : Files P.Bytes)
      → at "message_id" claim ≡ ok id
      → IsClaimFit fs turn request_id attempt
      → IsKept fs (install_claim P turn claim request_id attempt fs).1
  unfolding install_claim
  install_claim-IsKept turn claim id request_id attempt fs named fit =
      >>=-IsKept (mkdirs (claim_root request_id)) _ fs (mkdirs-IsKept (claim_root request_id) fs)
        λ u made. refuse_bind-IsKept P (claim_root request_id ▹ attempt_name attempt) _ _ _ (
          >>=-IsKept (stage_claim P turn claim request_id attempt) _ _
            (stage_claim-IsKept turn claim id request_id attempt _ named
              (IsFit-IsFresh fs _ _ turn.others fit made) fit.respects)
            λ w done. IsKept-refl _)

  reservation-identity :
      (m payload : Document P)
      → reservation P m ≡ ok payload
      → (names : String × String) × (identity P m ≡ ok names)
  unfolding reservation
  reservation-identity m payload h =
      let (names, same, rest) = >>=-eq-ok (identity P m) _ h in (names, same)

  -- A reserved claim has a message id.
  pub reserved_named :
      (turn : Turn P.Bytes) (claim : Document P) (fs : Files P.Bytes)
      → (reserve_claim P turn claim fs).0 ≡ ok tt
      → (id : Document P) × (at "message_id" claim ≡ ok id)
  unfolding reserve_idempotency ◌>>=◌
  reserved_named turn claim fs h = elim (Outcome-cases (reservation P claim)) [
    | inl (e, failed) ↦ absurd (ground (arith, failed))
    | inr (payload, made) ↦
        let names = reservation-identity claim payload made in
        let n = identity-IsNamed P claim names.0 names.1 in (n.id_value, n.id_at)
  ]

  -- Claiming a job changes and removes no file, on any branch, whatever other workers do meanwhile.
  -- Each staging name is new when its critical section starts, and other workers keep files and
  -- leave the staging names alone.
  pub claim_job-IsKept :
      (first second : Turn P.Bytes) (request_id : String) (claim : Document P) (fs : Files P.Bytes)
      → ((path : FilePath) → idempotency_path P claim ≡ ok path → IsReserveFit P fs first path)
      → ((attempt : ℤ)
          → IsClaimFit (reserve_idempotency P first claim fs).1 second request_id attempt)
      → IsKept fs (claim_job P first second request_id claim fs).1
  unfolding claim_job
  claim_job-IsKept first second request_id claim fs fit_first fit_second =
      >>=-IsKept (look (λ f. check_claim P f (str request_id) claim)) _ fs (IsKept-refl fs)
        λ attempt p.
          >>=-IsKept (reserve_claim P first claim) _ fs
            (reserve_idempotency-IsKept P first claim fs fit_first)
            λ u reserved.
              let (id, named) = reserved_named first claim fs reserved in
              install_claim-IsKept second claim id request_id attempt _ named (fit_second attempt)

  -- The files after the terminal record was reserved.
  abbrev pub after_terminal : Turn P.Bytes → FilePath → Document P → Files P.Bytes → Files P.Bytes
  after_terminal first path payload fs =
      (reserve_record P first path payload "job attempt already has a different terminal result"
        fs).1

  -- The terminal record that the call reserves, and where.
  pub record IsRecorded (fs : Files P.Bytes) (request_id : String) (result : Document P)
      (path : FilePath) (payload : Document P) : Type 0 where
    pub attempt : ℤ
    pub checked : check_result P fs (str request_id) result ≡ ok attempt
    pub path_at : terminal_directory P (str request_id) attempt ≡ ok path
    pub payload_at : terminal_record P request_id result attempt ≡ ok payload

  -- Completing a job changes and removes no file, on any branch, whatever other workers do meanwhile.
  -- Each staging name is new when its critical section starts, and other workers keep files and
  -- leave the staging names alone.
  pub complete_job-IsKept :
      (first second third : Turn P.Bytes) (request_id : String) (result : Document P)
      (fs : Files P.Bytes)
      → ((path : FilePath) (payload : Document P)
          → IsRecorded fs request_id result path payload
          → IsReserveFit P fs first path)
      → ((path spot : FilePath) (payload : Document P)
          → IsRecorded fs request_id result path payload
          → idempotency_path P result ≡ ok spot
          → IsReserveFit P (after_terminal first path payload fs) second spot)
      → ((path : FilePath) (payload : Document P) (names : String × String)
          → IsRecorded fs request_id result path payload
          → identity P result ≡ ok names
          → IsMessageFit P
              (reserve_idempotency P second result (after_terminal first path payload fs)).1
              third
              names.0
              names.1)
      → IsKept fs (complete_job P first second third request_id result fs).1
  unfolding complete_job
  complete_job-IsKept first second third request_id result fs fit_first fit_second fit_third =
      >>=-IsKept (look (λ f. check_result P f (str request_id) result)) _ fs (IsKept-refl fs)
        λ attempt p.
          >>=-IsKept (lift (terminal_directory P (str request_id) attempt)) _ fs (IsKept-refl fs)
            λ path q.
              >>=-IsKept (lift (terminal_record P request_id result attempt)) _ fs (IsKept-refl fs)
                λ payload r.
                  let done : IsRecorded fs request_id result path payload = record {
                    attempt = attempt;
                    checked = p;
                    path_at = q;
                    payload_at = r;
                  } in
                  >>=-IsKept (reserve_record P first path payload _) _ fs
                    (reserve_record-IsKept P first path payload _ fs (fit_first path payload done))
                    λ u reserved.
                      publish_message-IsKept P second third result none true _
                        (λ spot s. fit_second path spot payload done s)
                        (λ names s. fit_third path payload names done s)
