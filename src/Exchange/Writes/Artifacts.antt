-- ===== src/Exchange/Writes/Artifacts.antt =====
-- Artifacts: the reference that a publication returns holds on the disk, and what a race for one
-- target comes to.
use closed_loop_bench.Base.{String, Option, none, some, ◌≡◌, refl, ◌∙◌, sym, ap, arith, eq_refl}
use closed_loop_bench.Base.Outcome.{ok, exists_error, ok_unique}
use closed_loop_bench.Files.{FilePath, Files, lift, look, file, read, mkdirs}
use closed_loop_bench.Exchange.Platform.{Platform, Document, Turn}
use closed_loop_bench.Exchange.Segment.{contained_artifact}
use closed_loop_bench.Exchange.Artifact.{reference_of, reference_to, validate_artifact_on_disk}
use closed_loop_bench.Exchange.Writes.{
  parent_of, refuse_existing, install_artifact, publish_artifact, describe_artifact,
}
use closed_loop_bench.Exchange.Writes.Kept.{>>=-done}

some_unique : {A : Type 0} {a b : A} → some a ≡ some b → a ≡ b
some_unique h = ground arith

read_ok : {B : Type 0} (fs : Files B) (p : FilePath) (b : B) → read fs p ≡ ok b → file fs p ≡ some b
read_ok fs p b h = ground arith

module _ (P : Platform) where
  -- A reference to the content of its path holds.
  reference_holds :
      (relative role media_type : String) (schema : Option String) (fs : Files P.Bytes)
      (target : FilePath) (b : P.Bytes)
      → contained_artifact P relative ≡ ok target
      → file fs target ≡ some b
      → P.validate_artifact_reference (reference_to P relative role media_type schema b) ≡ ok tt
      → validate_artifact_on_disk P fs (reference_to P relative role media_type schema b)
        ≡ ok target
  unfolding validate_artifact_on_disk
  reference_holds relative role media_type schema fs target b inside there fine =
      rw (fine, inside) (ground (arith, eq_refl (P.sha256 b)))

  module _ (between : Files P.Bytes → Files P.Bytes) where
    describe_holds :
        (relative role media_type : String) (schema : Option String) (fs : Files P.Bytes)
        (target : FilePath) (reference : Document P)
        → ((gs : Files P.Bytes) → file (between gs) target ≡ file gs target)
        → contained_artifact P relative ≡ ok target
        → (describe_artifact P between target relative role media_type schema fs).0 ≡ ok reference
        → validate_artifact_on_disk P
            (describe_artifact P between target relative role media_type schema fs).1
            reference
          ≡ ok target
    unfolding describe_artifact
    describe_holds relative role media_type schema fs target reference stays inside h =
        let (b, got, e) = >>=-done (look (λ gs. read gs target)) _ fs h in
        let h1 = sym (ap (λ r. r.0) e) ∙ h in
        let (w, went, e') = >>=-done (λ gs. (ok tt, between gs)) _ fs h1 in
        let h1' = sym (ap (λ r. r.0) e') ∙ h1 in
        let (c, sized, e'') = >>=-done (look (λ gs. read gs target)) _ (between fs) h1' in
        let h1'' = sym (ap (λ r. r.0) e'') ∙ h1' in
        let same : b ≡ c =
          some_unique (
            sym (read_ok fs target b got) ∙ sym (stays fs) ∙ read_ok (between fs) target c sized) in
        let (u, fine, e1) =
          >>=-done
            (lift (
              P.validate_artifact_reference
                (reference_of P relative role media_type schema (P.sha256 b) (P.size_of c))))
            _ (between fs) h1'' in
        let h2 = sym (ap (λ r. r.0) e1) ∙ h1'' in
        let there = read_ok (between fs) target c sized in
        let whole =
          ap (λ x. reference_of P relative role media_type schema (P.sha256 x) (P.size_of c))
            same in
        rw (e, e', e'', e1)
          (rw (sym (ok_unique refl h2) ∙ whole) (
            reference_holds relative role media_type schema (between fs) target c inside there
              (ap (λ x. P.validate_artifact_reference x) (sym whole) ∙ fine)))

    -- The reference that `publish_artifact` returns is valid, and the file that it names lies under
    -- the root with the size and the digest that it states, whatever other workers did up to the
    -- rename, if none of them replaces the file between the hashing of
    -- it and the look at its size.
    pub publish_artifact-validates :
        (turn : Turn P.Bytes) (source : Option P.Bytes) (relative role media_type : String)
        (schema : Option String) (fs : Files P.Bytes) (reference : Document P)
        → ((target : FilePath)
            → contained_artifact P relative ≡ ok target
            → (gs : Files P.Bytes) → file (between gs) target ≡ file gs target)
        → (publish_artifact P turn between source relative role media_type schema fs).0
          ≡ ok reference
        → (target : FilePath) × (contained_artifact P relative ≡ ok target)
          × (validate_artifact_on_disk P
                (publish_artifact P turn between source relative role media_type schema fs).1
                reference
              ≡ ok target)
    unfolding publish_artifact
    publish_artifact-validates turn none relative role media_type schema fs reference stays h = cc
    publish_artifact-validates turn (some b) relative role media_type schema fs reference stays h =
        let (target, inside, e) = >>=-done (lift (contained_artifact P relative)) _ fs h in
        let h1 = sym (ap (λ r. r.0) e) ∙ h in
        let (u, made, e1) = >>=-done (mkdirs (parent_of target)) _ fs h1 in
        let h2 = sym (ap (λ r. r.0) e1) ∙ h1 in
        let (v, free, e2) =
          >>=-done (refuse_existing target (exists_error "artifact already exists")) _ _ h2 in
        let h3 = sym (ap (λ r. r.0) e2) ∙ h2 in
        let (w, done, e3) = >>=-done (install_artifact P turn target b) _ _ h3 in
        let h4 = sym (ap (λ r. r.0) e3) ∙ h3 in
        (
          target,
          inside,
          rw (e, e1, e2, e3)
              (describe_holds relative role media_type schema _ target reference
                (stays target inside) inside h4),
        )
