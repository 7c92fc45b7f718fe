-- ===== src/Exchange/Writes/Race.antt =====
-- Two workers publish an artifact at one path: what the second one's rename comes to.
use closed_loop_bench.Base.{
  String, ◌<>◌, ◌==◌, false, none, some, [], ◌∷◌, ◌≡◌, ◌∙◌, ap, arith, count-append, longer_differs,
  eq_refl, eq_iff, if◌then◌else◌, Bool-cases, inl, inr,
}
use closed_loop_bench.Base.Outcome.{ok, err, exists_error}
use closed_loop_bench.Files.{
  FilePath, ◌▹◌, Folder, Files, ◌>>=◌, file, is_dir, in_folder, find_file, drop_file, put_file,
  update, write, rename_file, unlink,
}
use closed_loop_bench.Files.Frame.{update_self}
use closed_loop_bench.Exchange.Platform.{Platform, Turn}
use closed_loop_bench.Exchange.Writes.{publishing, rename_artifact, install_artifact}

module _ {B : Type 0} where
  find-drop :
      (k n : String) (es : Folder B)
      → find_file k (drop_file n es) ≡ (if n == k then none else find_file k es)
  find-drop k n [] = ground arith
  find-drop k n ((m, b) ∷ es) = ground (arith, find-drop k n es, eq_iff m n, eq_iff m k, eq_iff n k)

  find-put :
      (k n : String) (b : B) (es : Folder B)
      → find_file k (put_file n b es) ≡ (if n == k then some b else find_file k es)
  find-put k n b es = ground (arith, find-drop k n es)

  unlink_there :
      (d : FilePath) (n : String) (es : Folder B) (fs : Files B)
      → fs d ≡ some es
      → unlink (d ▹ n) fs ≡ update d (some (drop_file n es)) fs
  unfolding unlink
  unlink_there d n es fs h = ground arith

  unlinked :
      (d : FilePath) (k n : String) (es : Folder B) (fs : Files B)
      → fs d ≡ some es
      → file (unlink (d ▹ n) fs) (d ▹ k) ≡ find_file k (drop_file n es)
  unfolding unlink
  unlinked d k n es fs h =
      ap (λ f. file f (d ▹ k)) (unlink_there d n es fs h)
      ∙ ap (in_folder k) (update_self d (some (drop_file n es)) fs)

publishing_apart : (n u : String) → (publishing n u == n) ≡ false
publishing_apart n u = longer_differs _ n (
    omega (
      arith,
      count-append "." (n <> ".publishing-" <> u),
      count-append n (".publishing-" <> u),
      count-append ".publishing-" u,
    ))

module _ (P : Platform) (d : FilePath) (n : String) (st : String) (b c : P.Bytes)
    (es : Folder P.Bytes) (ks : Files P.Bytes) (apart : (st == n) ≡ false) (folder : ks d ≡ some es)
    (mine : find_file st es ≡ some b) (theirs : find_file n es ≡ some c)
    (plain : is_dir ks (d ▹ n) ≡ false) where
  renamed : rename_artifact P d st n ks ≡ (
      if P.posix
      then (ok tt, update d (some (put_file n b (drop_file st es))) ks)
      else (err (exists_error "artifact already exists"), ks))
  unfolding rename_artifact rename_file
  renamed = ground arith

  -- After the cleanup the path holds the later content on POSIX and the earlier one elsewhere.
  cleaned :
      file (unlink (d ▹ st) (rename_artifact P d st n ks).1) (d ▹ n)
      ≡ some (if P.posix then b else c)
  cleaned = elim (Bool-cases P.posix) [
    | inl posix ↦
        rw (renamed, posix)
          (unlinked d n st _ _ (update_self d (some (put_file n b (drop_file st es))) ks)
            ∙ ground (arith, find-drop n st (put_file n b (drop_file st es)), eq_refl n))
    | inr windows ↦
        rw (renamed, windows) (unlinked d n st es ks folder ∙ ground (arith, find-drop n st es))
  ]

module _ (P : Platform) (turn : Turn P.Bytes) (d : FilePath) (n : String) (b c : P.Bytes)
    (es : Folder P.Bytes) (fs : Files P.Bytes) where
  -- The hidden copy was written, and another worker's artifact came to the same path before the
  -- rename: on POSIX the call returns and the other artifact is lost; elsewhere the call raises
  -- that the artifact exists, and the other artifact stays.
  pub install_artifact_race :
      (gs : Files P.Bytes)
      → write (d ▹ publishing n turn.uuid) b fs ≡ (ok tt, gs)
      → turn.others gs d ≡ some es
      → find_file (publishing n turn.uuid) es ≡ some b
      → find_file n es ≡ some c
      → is_dir (turn.others gs) (d ▹ n) ≡ false
      → ((install_artifact P turn (d ▹ n) b fs).0
          ≡ (if P.posix then ok tt else err (exists_error "artifact already exists")))
        × (file (install_artifact P turn (d ▹ n) b fs).1 (d ▹ n) ≡ some (if P.posix then b else c))
  unfolding install_artifact ◌>>=◌
  install_artifact_race gs written folder mine theirs plain =
      let st = publishing n turn.uuid in
      let apart = publishing_apart n turn.uuid in
      let ks = turn.others gs in
      (
        rw written (
            ap (λ r. r.0) (renamed P d n st b c es ks apart folder mine theirs plain)
            ∙ ground arith),
        rw written (cleaned P d n st b c es ks apart folder mine theirs plain),
      )
