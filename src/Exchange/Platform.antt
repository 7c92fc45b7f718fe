-- ===== src/Exchange/Platform.antt =====
-- What adapters/shared_message_store.py takes from elsewhere: the SceneExchangeContracts validator
-- (a package that is not in the repository), and the codecs, digests and clock formats of the
-- standard library.
use closed_loop_bench.Base.{String, Bool, ◌≡◌, Option, some, ℕ}
use closed_loop_bench.Base.Outcome.{Outcome}
use closed_loop_bench.Json.{text_of, Floats, Value, ℤ}
use closed_loop_bench.Files.{Files}

pub record Platform : Type 1 where
  pub floats : Floats
  pub Bytes : Type 0
  -- `json.dumps(document, ensure_ascii=False, indent=2) + "\n"` in UTF-8
  pub dumps : Value floats.Float → Bytes
  -- `json.dumps(document, indent=2) + "\n"`
  pub dumps_ascii : Value floats.Float → Bytes
  -- `json.loads`; `none` is a JSONDecodeError
  pub loads : Bytes → Option (Value floats.Float)
  -- `hashlib.sha256(...).hexdigest()`
  pub sha256 : Bytes → String
  pub size_of : Bytes → ℕ
  pub utf8 : String → Bytes
  -- `str(v)` of a float, a list or a dict
  pub repr : Value floats.Float → String
  -- `datetime.fromisoformat` of a text with `Z` replaced, as an instant; `none` is a ValueError
  pub instant : String → Option ℤ
  -- whether `os.rename` follows POSIX, by which a file replaces a file
  pub posix : Bool
  -- `Path(raw).drive` is not empty
  pub has_drive : String → Bool
  pub validate_shared_document : Value floats.Float → Outcome (Unit {0})
  pub validate_artifact_reference : Value floats.Float → Outcome (Unit {0})

abbrev pub Document : Platform → Type 0
Document P = Value P.floats.Float

-- One critical section of a worker: the `uuid.uuid4().hex` of its staging directory, and what other
-- workers do to the files between the worker's last look at the target and its rename.
pub record Turn (B : Type 0) : Type 0 where
  pub uuid : String
  pub others : Files B → Files B

module _ (P : Platform) where
  -- `str(v)`
  abbrev pub str_of : Document P → String
  str_of v = text_of P.repr v

  -- What the code relies on: a document that was dumped loads as it was.
  pub record IsLawful : Type 0 where
    pub loads-dumps : (v : Document P) → P.loads (P.dumps v) ≡ some v
