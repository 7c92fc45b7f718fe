-- ===== src/Exchange/Writes/Claimed.antt =====
-- A claim that was put in place: before it there was none, and afterwards the files hold it.
use closed_loop_bench.Base.{
  String, ◌<>◌, false, none, some, refl, ◌≡◌, ◌∙◌, sym, ap, arith, count-append, longer_differs,
  inl, inr, Option-cases,
}
use closed_loop_bench.Base.Outcome.{ok, Error, claimed_error}
use closed_loop_bench.Json.{ℤ, str, at}
use closed_loop_bench.Files.{
  FilePath, ◌▹◌, Files, Exec, pure, ◌>>=◌, file, in_folder, mkdirs, path_eq,
}
use closed_loop_bench.Files.Frame.{IsKept, siblings_differ, mkdirs-IsMade}
use closed_loop_bench.Exchange.Platform.{Platform, Document, Turn}
use closed_loop_bench.Exchange.Reading.{idempotency_path}
use closed_loop_bench.Exchange.Job.{claim_name, attempt_name, check_claim}
use closed_loop_bench.Exchange.Stage.Laws.{IsFresh, Respects, stage-ok}
use closed_loop_bench.Exchange.Writes.{
  claim_root, claiming, write_claim, stage_claim, install_claim, reserve_claim, claim_job,
  reserve_idempotency, refuse_existing,
}
use closed_loop_bench.Exchange.Writes.Kept.{
  IsFit-IsFresh, IsReserveFit, reserve_idempotency-IsKept, >>=-done,
}
use closed_loop_bench.Exchange.Writes.KeptJobs.{
  IsClaimFit, claim_folder, write_claim_fills, reserved_named,
}
use closed_loop_bench.Exchange.Writes.Exclusive.{refused_of_file}

claiming_differs :
    (d : FilePath) (attempt : ℤ) (u : String)
    → path_eq (d ▹ claiming attempt u) (d ▹ attempt_name attempt) ≡ false
claiming_differs d attempt u = siblings_differ d _ (attempt_name attempt) (
    longer_differs _ (attempt_name attempt) (
      omega (
        arith,
        count-append ".claiming-" (attempt_name attempt <> "-" <> u),
        count-append (attempt_name attempt) ("-" <> u),
      )))

-- A target that held a file is refused, so where the rest returned there was none.
pub free_of_ok :
    {B A : Type 0} (fs : Files B) (p : FilePath) (n : String) (e : Error) (k : Unit {0} → Exec B A)
    {a : A}
    → ((refuse_existing p e >>= k) fs).0 ≡ ok a
    → file fs (p ▹ n) ≡ none
free_of_ok fs p n e k h = elim (Option-cases (file fs (p ▹ n))) [
  | inl absent ↦ absent
  | inr (b, there) ↦ absurd (ground (arith, ap (λ r. r.0) (refused_of_file fs p n b e k there)))
]

module _ {B : Type 0} where
  -- A file that is absent after files were kept was absent before.
  pub absent-IsKept :
      (fs gs : Files B) (p : FilePath) → IsKept fs gs → file gs p ≡ none → file fs p ≡ none
  absent-IsKept fs gs p kept h = elim (Option-cases (file fs p)) [
    | inl absent ↦ absent
    | inr (b, there) ↦ absurd (ground (arith, kept p b there))
  ]

module _ (P : Platform) where
  -- The file that marks an attempt as claimed.
  abbrev pub claim_file : String → ℤ → FilePath
  claim_file request_id attempt = claim_root request_id ▹ attempt_name attempt ▹ claim_name

  stage_claim-installs :
      (turn : Turn P.Bytes) (claim id : Document P) (request_id : String) (attempt : ℤ)
      (fs : Files P.Bytes)
      → at "message_id" claim ≡ ok id
      → IsFresh fs (claim_root request_id) (claiming attempt turn.uuid)
      → Respects (claim_root request_id) (claiming attempt turn.uuid) turn.others
      → (stage_claim P turn claim request_id attempt fs).0 ≡ ok tt
      → (stage_claim P turn claim request_id attempt fs).1
          (claim_root request_id ▹ attempt_name attempt)
        ≡ some (claim_folder P claim id)
  unfolding stage_claim
  stage_claim-installs turn claim id request_id attempt fs named fresh respects h =
      elim (stage-ok P.posix (claim_root request_id) (claiming attempt turn.uuid)
        (claim_root request_id ▹ attempt_name attempt)
        (write_claim P (claim_root request_id ▹ claiming attempt turn.uuid) claim) turn.others _
        (claim_folder P claim id) fs fresh (write_claim_fills P _ claim id fs named fresh.below)
        respects (claiming_differs (claim_root request_id) attempt turn.uuid) h) [
          | inl (accepted, e) ↦ absurd (ground (arith, accepted))
          | inr there ↦ there
        ]

  -- The rest of `install_claim` once the directory of the request is there.
  install_rest-installs :
      (turn : Turn P.Bytes) (claim id : Document P) (request_id : String) (attempt : ℤ)
      (fs : Files P.Bytes) (p : FilePath)
      → at "message_id" claim ≡ ok id
      → IsFresh fs (claim_root request_id) (claiming attempt turn.uuid)
      → Respects (claim_root request_id) (claiming attempt turn.uuid) turn.others
      → let target = claim_root request_id ▹ attempt_name attempt in
        let rest : Exec P.Bytes FilePath =
          refuse_existing target (claimed_error "job attempt is already claimed") >>= λ _.
          stage_claim P turn claim request_id attempt >>= λ _. pure target in
        (rest fs).0 ≡ ok p
        → (file fs (target ▹ claim_name) ≡ none)
          × ((rest fs).1 target ≡ some (claim_folder P claim id))
  unfolding refuse_existing
  install_rest-installs turn claim id request_id attempt fs p named fresh respects h =
      let (u, free, e) =
        >>=-done (refuse_existing (claim_root request_id ▹ attempt_name attempt) _) _ fs h in
      let (v, done, e') =
        >>=-done (stage_claim P turn claim request_id attempt) _ fs (sym (ap (λ r. r.0) e) ∙ h) in
      (
        free_of_ok fs (claim_root request_id ▹ attempt_name attempt) claim_name _ _ h,
        rw (e, e')
            (stage_claim-installs turn claim id request_id attempt fs named fresh respects done),
      )

  install_claim-installs :
      (turn : Turn P.Bytes) (claim id : Document P) (request_id : String) (attempt : ℤ)
      (fs : Files P.Bytes) (p : FilePath)
      → at "message_id" claim ≡ ok id
      → IsClaimFit P fs turn request_id attempt
      → (install_claim P turn claim request_id attempt fs).0 ≡ ok p
      → (file fs (claim_file request_id attempt) ≡ none)
        × (file (install_claim P turn claim request_id attempt fs).1 (claim_file request_id attempt)
            ≡ some (P.dumps claim))
  unfolding install_claim
  install_claim-installs turn claim id request_id attempt fs p named fit h =
      let (u, made, e) = >>=-done (mkdirs (claim_root request_id)) _ fs h in
      let (absent, there) =
        install_rest-installs turn claim id request_id attempt (mkdirs (claim_root request_id) fs).1
          p named (IsFit-IsFresh fs _ _ turn.others fit made) fit.respects
          (sym (ap (λ r. r.0) e) ∙ h) in
      (
        sym ((mkdirs-IsMade (claim_root request_id) fs).same (claim_file request_id attempt))
            ∙ absent,
        ap (λ r. file r.1 (claim_file request_id attempt)) e
            ∙ ap (λ o. in_folder claim_name o) there,
      )

  claim_known :
      (first second : Turn P.Bytes) (request_id : String) (claim : Document P) (fs : Files P.Bytes)
      (attempt : ℤ)
      → check_claim P fs (str request_id) claim ≡ ok attempt
      → claim_job P first second request_id claim fs
        ≡ (reserve_claim P first claim >>= λ u. install_claim P second claim request_id attempt) fs
  unfolding claim_job ◌>>=◌
  claim_known first second request_id claim fs attempt checked = rw checked refl

  -- A job that was claimed had no claim of its attempt before, and holds this claim afterwards.
  pub claim_job-claims :
      (first second : Turn P.Bytes) (request_id : String) (claim : Document P) (fs : Files P.Bytes)
      (attempt : ℤ) (target : FilePath)
      → ((path : FilePath) → idempotency_path P claim ≡ ok path → IsReserveFit P fs first path)
      → IsClaimFit P (reserve_idempotency P first claim fs).1 second request_id attempt
      → check_claim P fs (str request_id) claim ≡ ok attempt
      → (claim_job P first second request_id claim fs).0 ≡ ok target
      → (file fs (claim_file request_id attempt) ≡ none)
        × (file (claim_job P first second request_id claim fs).1 (claim_file request_id attempt)
            ≡ some (P.dumps claim))
  claim_job-claims first second request_id claim fs attempt target fit_first fit_second checked h =
      let known = claim_known first second request_id claim fs attempt checked in
      let h1 = sym (ap (λ r. r.0) known) ∙ h in
      let (u, reserved, e) = >>=-done (reserve_claim P first claim) _ fs h1 in
      let gs = (reserve_idempotency P first claim fs).1 in
      let (id, named) = reserved_named P first claim fs reserved in
      let (absent, there) =
        install_claim-installs second claim id request_id attempt gs target named fit_second
          (sym (ap (λ r. r.0) e) ∙ h1) in
      (
        absent-IsKept fs gs (claim_file request_id attempt)
            (reserve_idempotency-IsKept P first claim fs fit_first) absent,
        ap (λ r. file r.1 (claim_file request_id attempt)) (known ∙ e) ∙ there,
      )
