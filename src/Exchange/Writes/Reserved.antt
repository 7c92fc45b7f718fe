-- ===== src/Exchange/Writes/Reserved.antt =====
-- What a reservation that returned has left in the files, and what a taken one answers.
use closed_loop_bench.Base.{
  String, ◌<>◌, true, false, none, some, [], ◌∷◌, ◌≡◌, refl, ◌∙◌, sym, ap, arith, count-append,
  longer_differs, inl, inr, Option-cases,
}
use closed_loop_bench.Base.Outcome.{Outcome, ok, err}
use closed_loop_bench.Json.{equal}
use closed_loop_bench.Files.{
  FilePath, ◌▹◌, Folder, Files, Exec, in_folder, file, update, mkdirs, write, path_eq,
}
use closed_loop_bench.Files.Frame.{update_ne, siblings_differ, IsKept}
use closed_loop_bench.Exchange.Platform.{Platform, IsLawful, Document, Turn}
use closed_loop_bench.Exchange.Reading.{unreadable, read_json}
use closed_loop_bench.Exchange.Stage.Laws.{IsFresh, Respects, stage-ok}
use closed_loop_bench.Exchange.Writes.{compare_record, compare_loaded, reserve_record}
use closed_loop_bench.Exchange.Writes.Kept.{IsFit-IsFresh, IsReserveFit, write_staged, >>=-done}
use closed_loop_bench.Exchange.Stage.{stage}

pub reserving_differs :
    (d : FilePath) (n u : String) → path_eq (d ▹ ("." <> n <> ".reserving-" <> u)) (d ▹ n) ≡ false
reserving_differs d n u = siblings_differ d _ n (
    longer_differs _ n (
      omega (
        arith,
        count-append "." (n <> ".reserving-" <> u),
        count-append n (".reserving-" <> u),
        count-append ".reserving-" u,
      )))

module _ (P : Platform) where
  -- A record directory holds a record that equals the payload.
  pub record IsReserved (fs : Files P.Bytes) (path : FilePath) (payload : Document P) : Type 0 where
    pub content : P.Bytes
    pub value : Document P
    pub stored : file fs (path ▹ "record.json") ≡ some content
    pub loads : P.loads content ≡ some value
    pub agrees : equal P.floats value payload ≡ true

  pub IsReserved-IsKept :
      (fs gs : Files P.Bytes) (path : FilePath) (payload : Document P)
      → IsKept fs gs
      → IsReserved fs path payload
      → IsReserved gs path payload
  IsReserved-IsKept fs gs path payload kept r = record {
    content = r.content;
    value = r.value;
    stored = kept (path ▹ "record.json") r.content r.stored;
    loads = r.loads;
    agrees = r.agrees;
  }

  compared_value :
      (payload : Document P) (text : String) (r : Outcome (Document P))
      → compare_loaded P payload text (unreadable "invalid reservation record" r) ≡ ok tt
      → (v : Document P) × (r ≡ ok v) × (equal P.floats v payload ≡ true)
  compared_value payload text (ok v) h = (v, refl, ground arith)
  compared_value payload text (err e) h = absurd (ground arith)

  read_parts :
      (fs : Files P.Bytes) (p : FilePath) (v : Document P)
      → read_json P fs p ≡ ok v
      → (b : P.Bytes) × (file fs p ≡ some b) × (P.loads b ≡ some v)
  unfolding read_json
  read_parts fs p v h = elim (Option-cases (file fs p)) [
    | inl absent ↦ absurd (ground arith)
    | inr (b, there) ↦ (b, there, ground arith)
  ]

  compared :
      (path : FilePath) (payload : Document P) (text : String) (fs : Files P.Bytes)
      → compare_record P path payload text fs ≡ ok tt
      → IsReserved fs path payload
  unfolding compare_record
  compared path payload text fs h =
      let (v, got, same) =
        compared_value payload text (read_json P fs (path ▹ "record.json")) (ground arith) in
      let (b, there, loaded) = read_parts fs (path ▹ "record.json") v got in
      record { content = b; value = v; stored = there; loads = loaded; agrees = same }

  -- The folder that a fresh reservation installs.
  abbrev pub record_folder : Document P → Folder P.Bytes
  record_folder payload = ("record.json", P.dumps payload) ∷ []

  abbrev pub reserve_name : String → Turn P.Bytes → String
  reserve_name n turn = "." <> n <> ".reserving-" <> turn.uuid

  abbrev pub fill_record : Turn P.Bytes → FilePath → String → Document P → Exec P.Bytes (Unit {0})
  fill_record turn d n payload = write (d ▹ reserve_name n turn ▹ "record.json") (P.dumps payload)

  module _ (turn : Turn P.Bytes) (d : FilePath) (n : String) (payload : Document P) (text : String)
      (law : IsLawful P) (same : equal P.floats payload payload ≡ true) where
    abbrev stage_record : Exec P.Bytes (Unit {0})
    stage_record =
        stage P.posix (d ▹ reserve_name n turn) (d ▹ n)
          (write (d ▹ reserve_name n turn ▹ "record.json") (P.dumps payload)) turn.others
          (compare_record P (d ▹ n) payload text)

    installed :
        (gs : Files P.Bytes)
        → gs (d ▹ n) ≡ some (record_folder payload)
        → IsReserved gs (d ▹ n) payload
    installed gs there = record {
      content = P.dumps payload;
      value = payload;
      stored = ap (in_folder "record.json") there;
      loads = law.loads-dumps payload;
      agrees = same;
    }

    -- The staging directory is dropped, and the record stays.
    dropped :
        (gs : Files P.Bytes)
        → IsReserved gs (d ▹ n) payload
        → IsReserved (update (d ▹ reserve_name n turn) none gs) (d ▹ n) payload
    dropped gs r = record {
      content = r.content;
      value = r.value;
      stored =
          ap (in_folder "record.json")
            (update_ne (d ▹ reserve_name n turn) (d ▹ n) none gs (reserving_differs d n turn.uuid))
          ∙ r.stored;
      loads = r.loads;
      agrees = r.agrees;
    }

    staged_record :
        (gs : Files P.Bytes)
        → IsFresh gs d (reserve_name n turn)
        → Respects d (reserve_name n turn) turn.others
        → (stage_record gs).0 ≡ ok tt
        → IsReserved (stage_record gs).1 (d ▹ n) payload
    staged_record gs fresh respects h =
        let filled =
          write_staged _ "record.json" (P.dumps payload) [] gs (fresh.below "record.json") in
        elim (stage-ok P.posix d (reserve_name n turn) (d ▹ n) _ turn.others
          (compare_record P (d ▹ n) payload text) (record_folder payload) gs fresh filled respects
          (reserving_differs d n turn.uuid) h) [
            | inl (accepted, e) ↦ rw e (dropped _ (compared (d ▹ n) payload text _ accepted))
            | inr there ↦ installed _ there
          ]

    pub reserve_record-IsReserved :
        (fs : Files P.Bytes)
        → IsReserveFit P fs turn (d ▹ n)
        → (reserve_record P turn (d ▹ n) payload text fs).0 ≡ ok tt
        → IsReserved (reserve_record P turn (d ▹ n) payload text fs).1 (d ▹ n) payload
    unfolding reserve_record
    reserve_record-IsReserved fs fit h =
        let (u, made, e) = >>=-done (mkdirs d) (λ _. stage_record) fs h in
        rw e (
          staged_record _ (IsFit-IsFresh fs d _ turn.others fit made) fit.respects
            (sym (ap (λ r. r.0) e) ∙ h))
