-- ===== src/Plugin/Identity/Bound.antt =====
-- A plugin's identity is bound to the digest of its checkpoint.
use closed_loop_bench.Base.{
  String, true, false, ◌==◌, count, Option, some, ◌≡◌, refl, ap, arith, eq_iff, Bool-cases, inl,
  inr,
}
use mathlib.Core.Path.{transport}
use closed_loop_bench.Base.Outcome.{ok, >>=-eq-ok, guard-bind, refuse, refuse-eq-ok, ok_unique}
use closed_loop_bench.Json.{
  Floats, Fields, null, bool, int, float, str, arr, obj, at, is_text, truthy,
}
use closed_loop_bench.Plugin.Checks.{Data, Capability, get_or}
use closed_loop_bench.Plugin.Identity.{
  Host, is_sha256, actual_checkpoint, declared_or, disagrees, checkpoint_hash, revision_of,
  build_plugin_identity,
}

module _ (fl : Floats) (H : Host fl) where
  -- A digest, and that of the checkpoint file where there is one.
  pub record IsDigest (config : Fields fl.Float) (digest : Data fl) : Type 0 where
    pub is_hex : is_sha256 digest ≡ true
    pub agrees :
        (s : String)
        → actual_checkpoint fl H config ≡ some s
        → (s == "") ≡ false
        → is_text digest s ≡ true

  digest_truthy : (v : Data fl) → is_sha256 v ≡ true → truthy fl v ≡ true
  unfolding is_sha256
  digest_truthy (str s) h = elim (Bool-cases (s == "")) [
    | inl blank ↦ absurd (ground (arith, ap count ((eq_iff s "").0 blank)))
    | inr filled ↦ rw filled refl
  ]
  digest_truthy null h = cc
  digest_truthy (bool b) h = cc
  digest_truthy (int n) h = cc
  digest_truthy (float x) h = cc
  digest_truthy (arr vs) h = cc
  digest_truthy (obj fs) h = cc

  agreed :
      (o : Option String) (declared : Data fl) (s : String)
      → disagrees fl H o declared ≡ false
      → o ≡ some s
      → (s == "") ≡ false
      → is_text declared s ≡ true
  agreed o declared s h e filled = ground arith

  checkpoint_hash-IsDigest :
      (config : Fields fl.Float) (capability : Capability fl) (digest : Data fl)
      → is_text capability.checkpoint_identity "not_applicable" ≡ false
      → checkpoint_hash fl H config capability ≡ ok digest
      → IsDigest config digest
  unfolding checkpoint_hash
  checkpoint_hash-IsDigest config capability digest wanted h =
      let actual = actual_checkpoint fl H config in
      let declared = declared_or fl H (get_or "checkpoint_sha256" null config) actual in
      let h0 = rw wanted at h in
      let (repo, h1) = guard-bind (is_sha256 (get_or "repo_sha256" null config)) _ _ h0 in
      let (hex, h2) = guard-bind (is_sha256 declared) _ _ h1 in
      let (u, fits, h3) = >>=-eq-ok (refuse (disagrees fl H actual declared) _) _ h2 in
      transport (ap (IsDigest config) (ok_unique refl h3)) (record {
        is_hex = hex;
        agrees = λ s e filled. agreed actual declared s (refuse-eq-ok _ _ fits) e filled;
      })

  -- A plugin with a checkpoint is identified only by a digest of 64 hexadecimal digits, and where its
  -- config names a checkpoint file, by the digest of that file.
  pub build_plugin_identity-IsDigest :
      (config : Fields fl.Float) (capability : Capability fl) (identity : Data fl)
      → is_text capability.checkpoint_identity "not_applicable" ≡ false
      → build_plugin_identity fl H config capability ≡ ok identity
      → (digest : Data fl) × (at "checkpoint_sha256" identity ≡ ok digest) × IsDigest config digest
  unfolding build_plugin_identity
  build_plugin_identity-IsDigest config capability identity wanted h =
      let (digest, bound, h1) = >>=-eq-ok (checkpoint_hash fl H config capability) _ h in
      let (revision, read, h2) = >>=-eq-ok (revision_of fl H config _) _ h1 in
      let is = checkpoint_hash-IsDigest config capability digest wanted bound in
      (
        digest,
        transport (ap (λ i. at "checkpoint_sha256" i ≡ ok digest) (ok_unique refl h2))
            (rw (digest_truthy digest is.is_hex) refl),
        is,
      )
