-- ===== src/Plugin/Identity.antt =====
-- `build_plugin_identity` and `_read_git_revision` of agents/plugin_contract.py. The file system, the
-- digests and the path operations of the standard library are a parameter.
pub mod Bound
use closed_loop_bench.Base.{
  ℕ, zero, suc, String, Bool, true, false, ◌&&◌, ◌||◌, not, ◌==◌, eqb, leb, count, Option, none,
  some, if◌then◌else◌,
}
use text.Mathlib.Text.{starts_with}
use closed_loop_bench.Base.Outcome.{
  Outcome, ok, err, os_error, contract_error, guard, refuse, ◌>>=◌, ◌>>◌,
}
use closed_loop_bench.Json.{
  Floats, Value, Fields, end, field, null, bool, str, obj, find, is_text, truthy, text_of,
}
use closed_loop_bench.Exchange.Segment.{all_codes}
use closed_loop_bench.Plugin.Checks.{Data, Capability, get_or}

module _ (fl : Floats) where
  pub record Host : Type 0 where
    pub is_dir : String → Bool
    pub is_file : String → Bool
    -- `p.read_text(encoding="utf-8")`
    pub read_text : String → Outcome String
    -- the digest of a file, of a text, and of the canonical JSON of a value
    pub file_sha256 : String → String
    pub sha256 : String → String
    pub canonical_sha256 : Data fl → String
    -- `p / q`, `p.expanduser()`, `p.resolve()` and `s.strip()`
    pub join : String → String → String
    pub expanduser : String → String
    pub resolve : String → String
    pub strip : String → String
    -- `str(v)` of a float, a list or a dict
    pub repr : Data fl → String

-- `[0-9a-fA-F]`
abbrev is_hex_code : ℕ → Bool
is_hex_code c = (leb 48 c && leb c 57) || (leb 97 c && leb c 102) || (leb 65 c && leb c 70)

unfoldable pub is_sha256 : {F : Type 0} → Value F → Bool
is_sha256 (str s) = eqb (count s) 64 && all_codes is_hex_code s
is_sha256 _ = false

-- `s[n:]`
unfoldable pub drop : ℕ → String → String
drop zero s = s
drop (suc n) String.[] = ""
drop (suc n) (String.◌∷◌ c s) = drop n s

-- `except OSError: return None`
abbrev pub or_none : Outcome (Option String) → Outcome (Option String)
or_none (ok r) = ok r
or_none (err os_error) = ok none
or_none (err e) = err e

-- `{k: v for k, v in config.items() if k not in {...}}`
abbrev is_own_digest : String → Bool
is_own_digest k = k == "checkpoint_sha256" || k == "repo_sha256" || k == "config_sha256"

unfoldable pub identity_config : {F : Type 0} → Fields F → Fields F
identity_config end = end
identity_config (field k v fs) =
    let rest = identity_config fs in if is_own_digest k then rest else field k v rest

module _ (fl : Floats) (H : Host fl) where
  unfoldable pub read_git_revision : String → Outcome (Option String)
  read_git_revision repo_path =
      let git_path = H.join repo_path ".git" in
      if not (H.is_dir git_path)
      then ok none
      else or_none (do
        raw ← H.read_text (H.join git_path "HEAD")
        let head = H.strip raw
        let ref = H.join git_path (drop 5 head)
        if starts_with head "ref: "
            then (if H.is_file ref
                then (do text ← H.read_text ref; ok (some (H.strip text)))
                else ok none)
            else ok (some head))

  -- The digest of the checkpoint file, if the config names a file.
  abbrev pub actual_checkpoint : Fields fl.Float → Option String
  actual_checkpoint config =
      let path = get_or "checkpoint_path" null config in
      if truthy fl path && H.is_file (text_of H.repr path)
      then some (H.file_sha256 (text_of H.repr path))
      else none

  -- The digest that is declared, or that of the file.
  abbrev declared_or : Data fl → Option String → Data fl
  declared_or null (some s) = str s
  declared_or v _ = v

  -- `actual and declared != actual`
  abbrev disagrees : Option String → Data fl → Bool
  disagrees none declared = false
  disagrees (some s) declared = not (s == "") && not (is_text declared s)

  unfoldable pub checkpoint_hash : Fields fl.Float → Capability fl → Outcome (Data fl)
  checkpoint_hash config capability =
      if is_text capability.checkpoint_identity "not_applicable"
      then ok (str "not_applicable")
      else (do
        let actual = actual_checkpoint config
        let declared = declared_or (get_or "checkpoint_sha256" null config) actual
        guard (is_sha256 (get_or "repo_sha256" null config))
            (contract_error "external plugin requires a 64-hex repo_sha256")
        guard (is_sha256 declared)
            (contract_error "external plugin requires a 64-hex checkpoint_sha256")
        refuse (disagrees actual declared)
            (contract_error "external plugin checkpoint_sha256 does not match the file")
        ok declared)

  -- `str(a or b or "unknown")`
  abbrev revision_or : Data fl → Option String → String
  revision_or v none = if truthy fl v then text_of H.repr v else "unknown"
  revision_or v (some s) =
      if truthy fl v then text_of H.repr v else if s == "" then "unknown" else s

  -- `_read_git_revision` is asked only where the config names no revision.
  abbrev revision_of : Fields fl.Float → String → Outcome String
  revision_of config repo_path =
      let named = get_or "repo_revision" null config in
      if truthy fl named
      then ok (text_of H.repr named)
      else read_git_revision repo_path >>= λ r. ok (revision_or named r)

  abbrev repo_hash : Fields fl.Float → String → String → String
  repo_hash config repo_path revision =
      let declared = get_or "repo_sha256" null config in
      if truthy fl declared
      then text_of H.repr declared
      else H.sha256 (if revision == "unknown" then H.resolve repo_path else revision)

  unfoldable pub build_plugin_identity : Fields fl.Float → Capability fl → Outcome (Data fl)
  build_plugin_identity config capability = do
    let repo_path = H.expanduser (text_of H.repr (get_or "repo_path" (str ".") config))
    checkpoint ← checkpoint_hash config capability
    revision ← revision_of config repo_path
    ok (
        obj (
          field "algorithm_id" (str capability.algorithm_id) (
            field "plugin_schema" (str "ego_algorithm_plugin.v1") (
              field "config_sha256" (str (H.canonical_sha256 (obj (identity_config config)))) (
                field "repo_revision" (str revision) (
                  field "repo_sha256" (str (repo_hash config repo_path revision)) (
                    field "checkpoint_sha256"
                      (if truthy fl checkpoint then checkpoint else str "unavailable")
                      (field "real_checkpoint_loaded"
                        (bool (truthy fl (get_or "real_checkpoint_loaded" (bool false) config)))
                        end))))))))
