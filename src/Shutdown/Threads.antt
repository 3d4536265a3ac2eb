-- ===== src/Shutdown/Threads.antt =====
-- The goroutines of a shutdown while the slice of errors is empty.
use ephemos.Base.{◌≡◌, refl, ap, ◌≢◌, Option, none, List, [], ◌∷◌, ◌++◌, map, All}
use ephemos.GoText.{Text}
use ephemos.Shutdown.{Resource}
use ephemos.Shutdown.Run.{
  ShutdownError, Thread, closing, noting, closed, failed, HasEnded, start_all, returns, reads,
  writes, Moves, here, there,
}

abbrev pub resource_of : Thread → Resource
resource_of (closing r) = r
resource_of (noting r es e) = r
resource_of (closed r) = r
resource_of (failed r) = r

pub append-not-nil : (es : List ShutdownError) (e : ShutdownError) → (es ++ (e ∷ [])) ≢ []
append-not-nil [] e h = cc
append-not-nil (d ∷ es) e h = cc

pub start_all-names : (rs : List Resource) → map resource_of (start_all rs) ≡ rs
start_all-names [] = refl
start_all-names (r ∷ rs) = ap (◌∷◌ r) (start_all-names rs)

-- A list of goroutines, one for each resource, that have all ended.
abbrev pub AllEnded : List Resource → List Thread → Type 0
AllEnded rs ts = (map resource_of ts ≡ rs) × All HasEnded ts

module _ (answer : Resource → Option Text) where
  abbrev pub Silent : Resource → Type 0
  Silent r = answer r ≡ none

  -- What holds of a goroutine while the slice is empty.
  abbrev pub Fine : Thread → Type 0
  Fine (closing r) = Unit
  Fine (noting r es e) = Unit
  Fine (closed r) = Silent r
  Fine (failed r) = ⊥

  pub start_all-Fine : (rs : List Resource) → All Fine (start_all rs)
  start_all-Fine [] = tt
  start_all-Fine (r ∷ rs) = (tt, start_all-Fine rs)

  -- A move of one goroutine that leaves the slice empty.
  pub record Kept (es : List ShutdownError) (ts ts' : List Thread) : Type 0 where
    pub empty_before : es ≡ []
    pub fine : All Fine ts → All Fine ts'

  pub Moves-not_ended :
      {wrapped : Text → ShutdownError} {es es' : List ShutdownError} {ts ts' : List Thread}
      → Moves answer wrapped es ts es' ts'
      → ¬ All HasEnded ts
  Moves-not_ended (here (returns q)) h = h.0
  Moves-not_ended (here (reads q)) h = h.0
  Moves-not_ended (here writes) h = h.0
  Moves-not_ended (there m) h = Moves-not_ended m h.1

  pub Moves-names :
      {wrapped : Text → ShutdownError} {es es' : List ShutdownError} {ts ts' : List Thread}
      → Moves answer wrapped es ts es' ts'
      → map resource_of ts' ≡ map resource_of ts
  Moves-names (here (returns q)) = refl
  Moves-names (here (reads q)) = refl
  Moves-names (here writes) = refl
  Moves-names (there {t} m) = ap (◌∷◌ (resource_of t)) (Moves-names m)

  pub Moves-Kept :
      {wrapped : Text → ShutdownError} {es es' : List ShutdownError} {ts ts' : List Thread}
      → Moves answer wrapped es ts es' ts'
      → es' ≡ []
      → Kept es ts ts'
  Moves-Kept (here (returns q)) h = record { empty_before = h; fine = λ (f, fs). (q, fs) }
  Moves-Kept (here (reads q)) h = record { empty_before = h; fine = λ (f, fs). (tt, fs) }
  Moves-Kept (here (writes {read} {e})) h = absurd (append-not-nil read e h)
  Moves-Kept (there m) h =
      let k = Moves-Kept m h in
      record { empty_before = k.empty_before; fine = λ (f, fs). (f, k.fine fs) }
