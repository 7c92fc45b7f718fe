-- ===== src/Exchange/Segment/Inside.antt =====
-- Accepted segments and artifact paths stay below the exchange root, and apart from the hidden
-- staging names.
use Prim.Native.Char.{Char, code}
use closed_loop_bench.Base.{
  ℕ, ◌≤◌, String, Bool, true, false, ◌≡◌, refl, not, count, List, [], ◌∷◌, arith, eqb, any, All,
  longer_differs, Bool-cases, inl, inr,
}
use closed_loop_bench.Base.Outcome.{ok}
use closed_loop_bench.Exchange.Platform.{Platform, Document}
use closed_loop_bench.Exchange.Segment.{
  is_alphanumeric, is_segment_code, all_codes, has_code, is_dotted, is_safe, matches_segment,
  safe_segment, starts_part, split_slash, join, contained_artifact,
}
use closed_loop_bench.Files.{FilePath}

-- The text is hidden: its first character is a dot.
abbrev pub is_hidden : String → Bool
is_hidden String.[] = false
is_hidden (String.◌∷◌ c s) = eqb (code c) 46

-- One component of a path that neither leaves its directory nor has parts of its own.
pub record IsComponent (s : String) : Type 0 where
  pub plain : is_dotted s ≡ false
  pub whole : has_code 47 s ≡ false

segment_code_plain : (c : ℕ) → is_segment_code c ≡ true → eqb c 47 ≡ false
segment_code_plain c h = ground arith

alphanumeric_plain : (c : ℕ) → is_alphanumeric c ≡ true → (eqb c 47 ≡ false) × (eqb c 46 ≡ false)
alphanumeric_plain c h = (ground arith, ground arith)

codes_plain :
    (s : String) → all_codes is_segment_code s ≡ true → all_codes (λ c. not (eqb c 47)) s ≡ true
codes_plain String.[] h = refl
codes_plain (String.◌∷◌ c s) h = ground (arith, segment_code_plain (code c), codes_plain s)

safe_text :
    (t : String) → is_safe t ≡ true → IsComponent t × (count t ≤ 128) × (is_hidden t ≡ false)
unfolding is_safe matches_segment
safe_text String.[] h = cc
safe_text (String.◌∷◌ c s) h = (
  record {
    plain = ground (arith, longer_differs (String.◌∷◌ c s) "" (omega arith));
    whole = ground (arith, codes_plain s, alphanumeric_plain (code c));
  },
  ground arith,
  ground (arith, alphanumeric_plain (code c)),
)

safe_value :
    (P : Platform) (v : Document P) (label : String) {s : String}
    → safe_segment P v label ≡ ok s
    → is_safe s ≡ true
unfolding safe_segment
safe_value P v label h = ground arith

-- A segment that `_safe_segment` accepts is one component of a path, of at most 128 characters, and
-- is not hidden: it has no slash, is not empty and does not start with a dot.
pub safe_segment-IsComponent :
    (P : Platform) (v : Document P) (label : String) {s : String}
    → safe_segment P v label ≡ ok s
    → IsComponent s × (count s ≤ 128) × (is_hidden s ≡ false)
safe_segment-IsComponent P v label {s} h = safe_text s (safe_value P v label h)

abbrev Whole : String → Type 0
Whole s = has_code 47 s ≡ false

starts_part-Whole :
    (c : Char) (ps : List String)
    → eqb (code c) 47 ≡ false
    → All Whole ps
    → All Whole (starts_part c ps)
starts_part-Whole c [] h w = (ground arith, tt)
starts_part-Whole c (p ∷ ps) h w = (ground arith, w.1)

split_slash-Whole : (s : String) → All Whole (split_slash s)
unfolding split_slash
split_slash-Whole String.[] = (refl, tt)
split_slash-Whole (String.◌∷◌ c s) = elim (Bool-cases (eqb (code c) 47)) [
  | inl slash ↦ rw slash (refl, split_slash-Whole s)
  | inr other ↦ rw other (starts_part-Whole c (split_slash s) other (split_slash-Whole s))
]

components : (ps : List String) → any is_dotted ps ≡ false → All Whole ps → All IsComponent ps
components [] h w = tt
components (p ∷ ps) h w =
    (record { plain = ground arith; whole = w.0 }, components ps (ground arith) w.1)

join-components :
    (d : FilePath) (ps : List String)
    → All IsComponent d
    → All IsComponent ps
    → All IsComponent (join d ps)
join-components d [] h w = h
join-components d (p ∷ ps) h w = join-components (p ∷ d) ps (w.0, h) w.1

contained_parts :
    (P : Platform) (raw : String) {p : FilePath}
    → contained_artifact P raw ≡ ok p
    → (p ≡ join [] (split_slash raw)) × (any is_dotted (split_slash raw) ≡ false)
unfolding contained_artifact
contained_parts P raw h = (ground arith, ground arith)

-- A relative path that `_contained_artifact` accepts has no empty, `.` or `..` component and no
-- component with a slash, so it names a file below the exchange root.
pub contained_artifact-IsComponent :
    (P : Platform) (raw : String) (p : FilePath)
    → contained_artifact P raw ≡ ok p
    → All IsComponent p
contained_artifact-IsComponent P raw p h =
    let (e, plain) = contained_parts P raw h in
    rw e (
      join-components [] (split_slash raw) tt
        (components (split_slash raw) plain (split_slash-Whole raw)))
