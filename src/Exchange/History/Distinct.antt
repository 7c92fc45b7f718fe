-- ===== src/Exchange/History/Distinct.antt =====
-- No history publishes a message twice or claims an attempt twice.
use closed_loop_bench.Base.{All, none, some, List, [], ◌∷◌, ◌++◌, ◌≡◌, ◌≢◌, ◌∙◌, ap, sym, arith}
use closed_loop_bench.Files.{Files, file}
use closed_loop_bench.Files.Frame.{IsKept, IsKept-refl, IsKept-trans}
use closed_loop_bench.Exchange.Platform.{Platform}
use closed_loop_bench.Exchange.History.{Event, mark, content, History}
use closed_loop_bench.Exchange.History.Marks.{Shows, Step-IsKept, Step-Shows}

module _ (P : Platform) where
  -- Every file that an exchange ever held is held, as it was, to the end of the history.
  pub History-IsKept :
      {fs gs : Files P.Bytes} {es : List (Event P)} → History P fs es gs → IsKept fs gs
  History-IsKept {fs = fs} History.here = IsKept-refl fs
  History-IsKept {fs = fs} (History.next {gs = gs} {hs = hs} past step) =
      IsKept-trans fs gs hs (History-IsKept past) (Step-IsKept P step)

  -- The files show what an event brought about.
  abbrev pub IsShown : Files P.Bytes → Event P → Type 0
  IsShown fs e = file fs (mark P e) ≡ some (content P e)

  abbrev pub IsApart : Event P → Event P → Type 0
  IsApart e e' = mark P e ≢ mark P e'

  -- No two events of the list are of one message or of one attempt.
  abbrev pub IsDistinct : List (Event P) → Type 0
  IsDistinct [] = Unit
  IsDistinct (e ∷ es) = All (IsApart e) es × IsDistinct es

  all-IsShown :
      (fs gs : Files P.Bytes) (es : List (Event P))
      → IsKept fs gs
      → All (IsShown fs) es
      → All (IsShown gs) es
  all-IsShown fs gs [] kept h = tt
  all-IsShown fs gs (e ∷ es) kept h =
      (kept (mark P e) (content P e) h.0, all-IsShown fs gs es kept h.1)

  apart :
      (fs : Files P.Bytes) (e : Event P) (es : List (Event P))
      → file fs (mark P e) ≡ none
      → All (IsShown fs) es
      → All (IsApart e) es
  apart fs e [] absent h = tt
  apart fs e (e' ∷ es) absent h = (
    λ same. absurd (ground (arith, sym absent ∙ ap (file fs) same ∙ h.0)),
    apart fs e es absent h.1,
  )

  IsShown-next :
      (fs gs : Files P.Bytes) (new es : List (Event P))
      → IsKept fs gs
      → Shows P fs new gs
      → All (IsShown fs) es
      → All (IsShown gs) (new ++ es)
  IsShown-next fs gs _ es kept Shows.nothing h = all-IsShown fs gs es kept h
  IsShown-next fs gs _ es kept (Shows.one absent there) h = (there, all-IsShown fs gs es kept h)

  IsDistinct-next :
      (fs gs : Files P.Bytes) (new es : List (Event P))
      → Shows P fs new gs
      → All (IsShown fs) es
      → IsDistinct es
      → IsDistinct (new ++ es)
  IsDistinct-next fs gs _ es Shows.nothing h d = d
  IsDistinct-next fs gs _ es (Shows.one {e = e} absent there) h d = (apart fs e es absent h, d)

  -- Everything that a call ever published or claimed is in the files at the end of the history.
  pub History-IsShown :
      {fs gs : Files P.Bytes} {es : List (Event P)} → History P fs es gs → All (IsShown gs) es
  History-IsShown History.here = tt
  History-IsShown (History.next {es = es} {new = new} {gs = gs} {hs = hs} past step) =
      IsShown-next gs hs new es (Step-IsKept P step) (Step-Shows P step) (History-IsShown past)

  -- Whatever the workers do, no two calls of a history that returned published one message or
  -- claimed one attempt of one request. Each call's staging names are new, and what the others do
  -- inside its critical sections keeps files and leaves those names alone.
  pub History-IsDistinct :
      {fs gs : Files P.Bytes} {es : List (Event P)} → History P fs es gs → IsDistinct es
  History-IsDistinct History.here = tt
  History-IsDistinct (History.next {es = es} {new = new} {gs = gs} {hs = hs} past step) =
      IsDistinct-next gs hs new es (Step-Shows P step) (History-IsShown past)
        (History-IsDistinct past)
