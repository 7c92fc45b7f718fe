-- ===== src/Exchange/History/Register.antt =====
-- The exchange as its readers see it: a register of messages that only grows. The abstract register
-- knows nothing of files, claims, reservations and staging names.
use closed_loop_bench.Base.{
  String, true, Option, none, some, List, [], ◌∷◌, ◌++◌, ◌≡◌, refl, ◌∙◌, ap, arith, inl, inr, ◌&&◌,
  and_parts,
}
use closed_loop_bench.Base.Outcome.{Outcome, ok, err, >>=-eq-ok, guard-bind, Outcome-cases}
use closed_loop_bench.Json.{ℤ, str}
use closed_loop_bench.Files.{FilePath, ◌▹◌, Files, file, is_file}
use closed_loop_bench.Files.Frame.{IsKept}
use closed_loop_bench.Exchange.Platform.{Platform, IsLawful, Document, Turn}
use closed_loop_bench.Exchange.Segment.{safe_segment}
use closed_loop_bench.Exchange.Message.{message_name, ready_name, load_message}
use closed_loop_bench.Exchange.Job.{check_claim}
use closed_loop_bench.Exchange.Writes.{complete_job}
use closed_loop_bench.Exchange.Writes.Texts.{HasTexts, safe_text}
use closed_loop_bench.Exchange.Writes.Loads.{load_message-IsKept}
use closed_loop_bench.Exchange.Writes.Published.{
  message_file, publish_message-publishes, complete_job-completes, Completion, IsCompleteFit,
}
use closed_loop_bench.Exchange.Writes.KeptJobs.{after_terminal}
use closed_loop_bench.Exchange.Writes.RoundTrip.{publish_named, publish_message-load}
use closed_loop_bench.Exchange.History.{Event, on_return, on_claim, Step, History}
use closed_loop_bench.Exchange.History.Marks.{Step-IsKept, Completion-marks}

-- What a reader is given for a type and an id.
abbrev pub View : Type 0 → Type 0
View D = String → String → Option D

module _ {D : Type 0} where
  -- The register goes on to give what it gave.
  abbrev pub Grows : View D → View D → Type 0
  Grows v w = (type id : String) (m : D) → v type id ≡ some m → w type id ≡ some m

  -- The abstract register: a message is added under a type and an id that are free, or nothing is
  -- added; nothing that is there changes or goes.
  pub data Register (v : View D) : List (String × String × D) → View D → Type 0 where
    start : Register v [] v
    wait :
        {es : List (String × String × D)} {u w : View D}
        → Register v es u
        → Grows u w
        → Register v es w
    append :
        {es : List (String × String × D)} {u w : View D} {type id : String} {m : D}
        → Register v es u
        → u type id ≡ none
        → w type id ≡ some m
        → Grows u w
        → Register v ((type, id, m) ∷ es) w

module _ (P : Platform) where
  abbrev returned : Outcome (Document P) → Option (Document P)
  returned (ok m) = some m
  returned (err e) = none

  -- The messages that `load_message` gives to a reader, with its default arguments.
  abbrev pub view : Files P.Bytes → View (Document P)
  view fs type id = returned (load_message P fs (str type) (str id) none true)

  -- The messages among the events.
  abbrev pub messages : List (Event P) → List (String × String × Document P)
  messages [] = []
  messages (Event.publication type id m ∷ es) = (type, id, m) ∷ messages es
  messages (Event.claim_made request_id attempt m ∷ es) = messages es

  returned-some : (r : Outcome (Document P)) {m : Document P} → returned r ≡ some m → r ≡ ok m
  returned-some (ok m) h = ground arith
  returned-some (err e) h = cc

  view-Grows : (fs gs : Files P.Bytes) → IsKept fs gs → Grows (view fs) (view gs)
  view-Grows fs gs kept type id m h = ap returned (
      load_message-IsKept P fs gs (str type) (str id) none true m kept
        (returned-some (load_message P fs (str type) (str id) none true) h))

  load_message-file :
      (fs : Files P.Bytes) (type id : String) (m : Document P)
      → load_message P fs (str type) (str id) none true ≡ ok m
      → is_file fs (message_file P type id) ≡ true
  unfolding load_message
  load_message-file fs type id m h =
      let (t, safe_type, h1) = >>=-eq-ok (safe_segment P (str type) "message type") _ h in
      let (i, safe_id, h2) = >>=-eq-ok (safe_segment P (str id) "message id") _ h1 in
      let dir = [] ▹ "messages" ▹ t ▹ i in
      let (there, h3) =
        guard-bind (is_file fs (dir ▹ ready_name) && is_file fs (dir ▹ message_name)) _ _ h2 in
      let (ready, message) =
        and_parts (is_file fs (dir ▹ ready_name)) (is_file fs (dir ▹ message_name)) there in
      rw (safe_text P type _ safe_type, safe_text P id _ safe_id) at message

  -- A reader is given nothing where there is no message file.
  view-none :
      (fs : Files P.Bytes) (type id : String)
      → file fs (message_file P type id) ≡ none
      → view fs type id ≡ none
  view-none fs type id absent =
      elim (Outcome-cases (load_message P fs (str type) (str id) none true)) [
        | inl (e, failed) ↦ rw failed refl
        | inr (m, loaded) ↦ absurd (ground (arith, load_message-file fs type id m loaded))
      ]

  published_next :
      {v : View (Document P)} {A : Type 0} (r : Outcome A) (type id : String) (m : Document P)
      (fs gs : Files P.Bytes) (es : List (Event P))
      → Register v (messages es) (view fs)
      → IsKept fs gs
      → ((a : A) → r ≡ ok a → (view fs type id ≡ none) × (view gs type id ≡ some m))
      → Register v (messages (on_return P r (Event.publication type id m) ++ es)) (view gs)
  published_next (ok a) type id m fs gs es past kept h =
      let (absent, there) = h a refl in Register.append past absent there (view-Grows fs gs kept)
  published_next (err e) type id m fs gs es past kept h = Register.wait past (view-Grows fs gs kept)

  claimed_next :
      {v : View (Document P)} {A : Type 0} (checked : Outcome ℤ) (r : Outcome A)
      (request_id : String) (m : Document P) (fs gs : Files P.Bytes) (es : List (Event P))
      → Register v (messages es) (view fs)
      → IsKept fs gs
      → Register v (messages (on_claim P checked r request_id m ++ es)) (view gs)
  claimed_next (ok attempt) (ok a) request_id m fs gs es past kept =
      Register.wait past (view-Grows fs gs kept)
  claimed_next (ok attempt) (err e) request_id m fs gs es past kept =
      Register.wait past (view-Grows fs gs kept)
  claimed_next (err e) r request_id m fs gs es past kept =
      Register.wait past (view-Grows fs gs kept)

  Completion-view :
      (law : IsLawful P) (first second third : Turn P.Bytes) (request_id : String) (m : Document P)
      (t : HasTexts P m) (fs : Files P.Bytes) (target : FilePath)
      → IsCompleteFit P first second third request_id m fs
      → (c : Completion P first second third request_id m fs target)
      → view (complete_job P first second third request_id m fs).1 t.type t.id ≡ some m
  Completion-view law first second third request_id m t fs target fit c =
      let gs = after_terminal P first c.path c.payload fs in
      let named = publish_named P second third m t none true gs c.returned in
      ap (λ r. view r.1 t.type t.id) c.same
      ∙ ap returned (
          publish_message-load P law second third m t none true gs target
            (λ spot s. fit.key_fit c.path spot c.payload c.recorded s)
            (fit.message_fit c.path c.payload (t.type, t.id) c.recorded named) c.returned)

  Step-Register :
      IsLawful P
      → {v : View (Document P)} {fs gs : Files P.Bytes} {new : List (Event P)} (es : List (Event P))
      → Register v (messages es) (view fs)
      → Step P fs new gs
      → Register v (messages (new ++ es)) (view gs)
  Step-Register law es past (Step.publish first second m t fs fit_first fit_second) =
      published_next _ t.type t.id m fs _ es past
        (Step-IsKept P (Step.publish first second m t fs fit_first fit_second))
        λ target h. (
          view-none fs t.type t.id
              (publish_message-publishes P first second m t none true fs target fit_first fit_second
                h).0,
          ap returned (
              publish_message-load P law first second m t none true fs target fit_first fit_second
                h),
        )
  Step-Register law es past (Step.claim first second request_id m fs fit_first fit_second) =
      claimed_next (check_claim P fs (str request_id) m) _ request_id m fs _ es past
        (Step-IsKept P (Step.claim first second request_id m fs fit_first fit_second))
  Step-Register law es past (Step.complete first second third request_id m t fs fit) =
      published_next _ t.type t.id m fs _ es past
        (Step-IsKept P (Step.complete first second third request_id m t fs fit))
        λ target h.
          let c = complete_job-completes P first second third request_id m fs target h in
          (
            view-none fs t.type t.id
                (Completion-marks P first second third request_id m t fs target fit c).0,
            Completion-view law first second third request_id m t fs target fit c,
          )

  -- The exchange refines an abstract register that only grows: in every history of publications,
  -- claims and completions, what readers are given passes through the states of the register. Each
  -- message of a call that returned is added under a type and an id that were free, and nothing that
  -- a reader was given ever changes or goes. The codec gives back what it wrote, each call's staging
  -- names are new, and what the others do inside its critical sections keeps files and leaves those
  -- names alone.
  pub History-Register :
      IsLawful P
      → {fs gs : Files P.Bytes} {es : List (Event P)} → History P fs es gs
      → Register (view fs) (messages es) (view gs)
  History-Register law History.here = Register.start
  History-Register law (History.next {es = es} past step) =
      Step-Register law es (History-Register law past) step
