-- ===== src/Exchange/Segment.antt =====
-- Path segments of the exchange: `_safe_segment`, `_identity`, `_contained_artifact`.
pub mod Laws
pub mod Inside
use Prim.Native.Char.{Char, code}
use closed_loop_bench.Base.{
  ℕ, String, Bool, true, false, ◌==◌, ◌&&◌, ◌||◌, not, eqb, leb, count, ◌<>◌, List, [], ◌∷◌, any,
  if◌then◌else◌,
}
use closed_loop_bench.Base.Outcome.{Outcome, ok, err, message_error, guard, refuse, ◌>>=◌, ◌>>◌}
use closed_loop_bench.Json.{Value, get, is_text, truthy}
use closed_loop_bench.Exchange.Platform.{Platform, Document, str_of}
use closed_loop_bench.Files.{FilePath}

abbrev pub protocol_version : String
protocol_version = "shared_exchange_protocol.v1"

abbrev pub is_alphanumeric : ℕ → Bool
is_alphanumeric c = (leb 65 c && leb c 90) || (leb 97 c && leb c 122) || (leb 48 c && leb c 57)

-- `[A-Za-z0-9._-]`
abbrev pub is_segment_code : ℕ → Bool
is_segment_code c = is_alphanumeric c || eqb c 46 || eqb c 95 || eqb c 45

abbrev pub all_codes : (ℕ → Bool) → String → Bool
all_codes p String.[] = true
all_codes p (String.◌∷◌ c s) = p (code c) && all_codes p s

-- `_SAFE_SEGMENT.fullmatch`
unfoldable pub matches_segment : String → Bool
matches_segment String.[] = false
matches_segment (String.◌∷◌ c s) =
    is_alphanumeric (code c) && all_codes is_segment_code s && leb (count s) 127

unfoldable pub is_safe : String → Bool
unfolding matches_segment
is_safe s = matches_segment s && not (s == "." || s == "..")

-- `raw.split("/")`
abbrev pub starts_part : Char → List String → List String
starts_part c [] = String.◌∷◌ c "" ∷ []
starts_part c (p ∷ ps) = String.◌∷◌ c p ∷ ps

unfoldable pub split_slash : String → List String
split_slash String.[] = "" ∷ []
split_slash (String.◌∷◌ c s) =
    let rest = split_slash s in if eqb (code c) 47 then "" ∷ rest else starts_part c rest

abbrev pub has_code : ℕ → String → Bool
has_code n s = not (all_codes (λ c. not (eqb c n)) s)

abbrev pub is_dotted : String → Bool
is_dotted part = part == "" || part == "." || part == ".."

-- `root.joinpath(*parts)`
abbrev pub join : FilePath → List String → FilePath
join d [] = d
join d (n ∷ ns) = join (n ∷ d) ns

module _ (P : Platform) where
  unfoldable pub safe_segment : Document P → String → Outcome String
  safe_segment v label =
      let s = if truthy P.floats v then str_of P v else "" in
      if is_safe s then ok s else err (message_error label)

  -- The message type and the message id.
  unfoldable pub identity : Document P → Outcome (String × String)
  identity m = do
    version ← get "protocol_version" m
    guard (is_text version protocol_version) (message_error "unsupported protocol version")
    type ← get "message_type" m
    message_type ← safe_segment type "message type"
    id ← get "message_id" m
    message_id ← safe_segment id "message id"
    ok (message_type, message_id)

  -- `candidate.parts` of such a path are its parts between slashes.
  unfoldable pub contained_artifact : String → Outcome FilePath
  contained_artifact raw =
      if raw == "" || has_code 92 raw || P.has_drive raw || any is_dotted (split_slash raw)
      then err (message_error "artifact path must be relative")
      else ok (join [] (split_slash raw))
