-- ===== src/Shutdown/Once.antt =====
-- Shutdown as a whole, and the life of one coordinator of internal/shutdown/coordinator.go.
use ephemos.Base.{
  ◌≡◌, refl, sym, ◌∙◌, ◌≢◌, inl, inr, true, false, Option, none, some, List, [], ◌∷◌, arith,
  Bool-cases,
}
use ephemos.GoText.{Text}
use ephemos.Shutdown.{
  Resource, Config, Coordinator, new_coordinator, register_server, register_client,
  register_listener, register_cleanup_func,
}
use ephemos.Shutdown.Run.{ShutdownError, Run, finished, Reach}

abbrev shutting_down : Coordinator → Coordinator
shutting_down c = record c { is_shutting_down = true }

module _ (answer : Resource → Option Text) where
  -- `Shutdown`, with its result: the first call runs the phases, a later one returns nil at once.
  pub data Shutdown (c : Coordinator) : Coordinator → Option ShutdownError → Type 0 where
    first :
        {s : Run} {r : Option ShutdownError}
        → c.shutdown_once ≡ false
        → Reach answer (shutting_down c) s
        → s.main ≡ finished r
        → Shutdown c (record c { is_shutting_down = true; shutdown_once = true }) r
    again : c.shutdown_once ≡ true → Shutdown c c none

  -- What happens to a coordinator, and the results of the calls of Shutdown, the last one first.
  pub data Life (config : Option Config) : Coordinator → List (Option ShutdownError) → Type 0 where
    born : Life config (new_coordinator config) []
    registers_server :
        {c : Coordinator} {rs : List (Option ShutdownError)} (r : Option Resource)
        → Life config c rs
        → Life config (register_server r c) rs
    registers_client :
        {c : Coordinator} {rs : List (Option ShutdownError)} (r : Option Resource)
        → Life config c rs
        → Life config (register_client r c) rs
    registers_listener :
        {c : Coordinator} {rs : List (Option ShutdownError)} (r : Option Resource)
        → Life config c rs
        → Life config (register_listener r c) rs
    registers_cleanup_func :
        {c : Coordinator} {rs : List (Option ShutdownError)} (r : Option Resource)
        → Life config c rs
        → Life config (register_cleanup_func r c) rs
    shuts :
        {c c' : Coordinator} {rs : List (Option ShutdownError)} {r : Option ShutdownError}
        → Life config c rs
        → Shutdown c c' r
        → Life config c' (r ∷ rs)

  -- All results but the first call's are nil.
  abbrev pub OnlyFirst : List (Option ShutdownError) → Type 0
  OnlyFirst [] = Unit
  OnlyFirst (r ∷ []) = Unit
  OnlyFirst (r ∷ q ∷ rs) = (r ≡ none) × OnlyFirst (q ∷ rs)

  record Inv (c : Coordinator) (rs : List (Option ShutdownError)) : Type 0 where
    only_first : OnlyFirst rs
    not_yet : c.shutdown_once ≡ false → rs ≡ []
    both : c.shutdown_once ≡ c.is_shutting_down

  OnlyFirst-again : (rs : List (Option ShutdownError)) → OnlyFirst rs → OnlyFirst (none ∷ rs)
  OnlyFirst-again [] h = tt
  OnlyFirst-again (r ∷ rs) h = (refl, h)

  OnlyFirst-one :
      (rs : List (Option ShutdownError)) (r : Option ShutdownError) → rs ≡ [] → OnlyFirst (r ∷ rs)
  OnlyFirst-one [] r h = tt
  OnlyFirst-one (q ∷ rs) r h = cc

  Shutdown-Inv :
      {c c' : Coordinator} {rs : List (Option ShutdownError)} {r : Option ShutdownError}
      → Shutdown c c' r
      → Inv c rs
      → Inv c' (r ∷ rs)
  Shutdown-Inv {rs} {r} (first e h f) i = record {
    only_first = OnlyFirst-one rs r (i.not_yet e);
    not_yet = λ q. cc;
    both = refl;
  }
  Shutdown-Inv {rs} (again e) i = record {
    only_first = OnlyFirst-again rs i.only_first;
    not_yet = λ q. cc;
    both = i.both;
  }

  Life-Inv :
      {config : Option Config} {c : Coordinator} {rs : List (Option ShutdownError)}
      → Life config c rs
      → Inv c rs
  unfolding new_coordinator register_server register_client register_listener register_cleanup_func
  Life-Inv born = record { only_first = tt; not_yet = λ h. refl; both = refl }
  Life-Inv (registers_server r l) =
      let i = Life-Inv l in record { only_first = i.only_first; not_yet = i.not_yet; both = i.both }
  Life-Inv (registers_client r l) =
      let i = Life-Inv l in record { only_first = i.only_first; not_yet = i.not_yet; both = i.both }
  Life-Inv (registers_listener r l) =
      let i = Life-Inv l in record { only_first = i.only_first; not_yet = i.not_yet; both = i.both }
  Life-Inv (registers_cleanup_func r l) =
      let i = Life-Inv l in record { only_first = i.only_first; not_yet = i.not_yet; both = i.both }
  Life-Inv (shuts l h) = Shutdown-Inv h (Life-Inv l)

  register-fixed :
      (c : Coordinator) (r : Option Resource)
      → c.is_shutting_down ≡ true
      → (register_server r c ≡ c)
        × (register_client r c ≡ c)
        × (register_listener r c ≡ c)
        × (register_cleanup_func r c ≡ c)
  unfolding register_server register_client register_listener register_cleanup_func
  register-fixed c none h = (refl, refl, refl, refl)
  register-fixed c (some r) h = ground arith

  -- In the life of a coordinator, with any registrations in between, every call of Shutdown but the
  -- first returns nil.
  pub Life-OnlyFirst :
      {config : Option Config} {c : Coordinator} {rs : List (Option ShutdownError)}
      → Life config c rs
      → OnlyFirst rs
        × (rs ≢ []
            → (r : Option Resource)
            → (register_server r c ≡ c)
              × (register_client r c ≡ c)
              × (register_listener r c ≡ c)
              × (register_cleanup_func r c ≡ c))
  Life-OnlyFirst {c} {rs} l =
      let i = Life-Inv l in
      (
        i.only_first,
        λ n r. elim (Bool-cases c.shutdown_once) [
          | inl e ↦ register-fixed c r (sym i.both ∙ e)
          | inr e ↦ absurd (n (i.not_yet e))
        ],
      )
