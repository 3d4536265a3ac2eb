-- ===== src/Shutdown/Bound.antt =====
-- How many steps a shutdown of internal/shutdown/coordinator.go takes.
use ephemos.Base.{
  ℕ, suc, ◌+◌, ◌≤◌, ◌<◌, ◌≡◌, refl, ap, ◌⊎◌, inl, inr, Option, List, [], ◌∷◌, ◌++◌, arith,
  Option-cases, length, All,
}
use ephemos.Base.{◌*◌}
use ephemos.GoText.{Text}
use ephemos.Shutdown.{Resource, Coordinator}
use ephemos.Shutdown.Run.{
  ShutdownError, client_close, Thread, closing, noting, closed, failed, Main, stop_servers,
  stop_listeners, stop_clients, servers_late, listeners_late, cleaning, cleanup_failed, finished,
  Run, HasEnded, start_all, returns, reads, writes, Moves, here, there, Step, server_moves,
  listener_moves, client_moves, servers_stopped, servers_time_out, servers_noted, listeners_stopped,
  listeners_time_out, listeners_noted, clients_stopped, cleaned, cleanup_fails, cleanup_noted,
  finishes, Reach, start, later,
}

-- The steps that are left to a goroutine.
abbrev thread_left : Thread → ℕ
thread_left (closing r) = 2
thread_left (noting r es e) = 1
thread_left (closed r) = 0
thread_left (failed r) = 0

abbrev all_left : List Thread → ℕ
all_left [] = 0
all_left (t ∷ ts) = thread_left t + all_left ts

start_all-left : (rs : List Resource) → all_left (start_all rs) ≡ 2 * length rs
start_all-left [] = refl
start_all-left (r ∷ rs) = omega (arith, start_all-left rs)

module _ (c : Coordinator) where
  -- The steps that are left to the caller and to the goroutines that it is still to start.
  abbrev main_left : Main → ℕ
  main_left stop_servers =
      2 * length c.listeners + 2 * length c.clients + 2 * length c.cleanup_funcs + 6
  main_left (servers_late read) =
      2 * length c.listeners + 2 * length c.clients + 2 * length c.cleanup_funcs + 5
  main_left stop_listeners = 2 * length c.clients + 2 * length c.cleanup_funcs + 4
  main_left (listeners_late read) = 2 * length c.clients + 2 * length c.cleanup_funcs + 3
  main_left stop_clients = 2 * length c.cleanup_funcs + 2
  main_left (cleaning rs) = 2 * length rs + 1
  main_left (cleanup_failed read e rs) = 2 * length rs + 2
  main_left (finished r) = 0

  abbrev left : Run → ℕ
  left s =
      all_left s.server_threads
      + all_left s.listener_threads
      + all_left s.client_threads
      + main_left s.main

module _ (answer : Resource → Option Text) where
  Moves-left :
      {wrapped : Text → ShutdownError} {es es' : List ShutdownError} {ts ts' : List Thread}
      → Moves answer wrapped es ts es' ts'
      → all_left ts' < all_left ts
  Moves-left (here (returns q)) = omega arith
  Moves-left (here (reads q)) = omega arith
  Moves-left (here writes) = omega arith
  Moves-left (there m) = omega (arith, Moves-left m)

  -- Some goroutine can move unless all have ended.
  ended-or-Moves :
      (wrapped : Text → ShutdownError) (es : List ShutdownError) (ts : List Thread)
      → All HasEnded ts
        ⊎ ((es' : List ShutdownError) × (ts' : List Thread) × Moves answer wrapped es ts es' ts')
  ended-or-Moves wrapped es [] = inl tt
  ended-or-Moves wrapped es (closing r ∷ ts) = elim (Option-cases (answer r)) [
    | inl q ↦ inr (es, closed r ∷ ts, here (returns q))
    | inr (m, q) ↦ inr (es, noting r es (wrapped m) ∷ ts, here (reads q))
  ]
  ended-or-Moves wrapped es (noting r read e ∷ ts) =
      inr (read ++ (e ∷ []), failed r ∷ ts, here writes)
  ended-or-Moves wrapped es (closed r ∷ ts) = elim (ended-or-Moves wrapped es ts) [
    | inl h ↦ inl (tt, h)
    | inr (es', ts', m) ↦ inr (es', closed r ∷ ts', there m)
  ]
  ended-or-Moves wrapped es (failed r ∷ ts) = elim (ended-or-Moves wrapped es ts) [
    | inl h ↦ inl (tt, h)
    | inr (es', ts', m) ↦ inr (es', failed r ∷ ts', there m)
  ]

  module _ (c : Coordinator) where
    Step-left : {s t : Run} → Step answer c s t → left c t < left c s
    Step-left (server_moves m) = omega (arith, Moves-left m)
    Step-left (listener_moves m) = omega (arith, Moves-left m)
    Step-left (client_moves m) = omega (arith, Moves-left m)
    Step-left (servers_stopped e all) =
        omega (arith, ap (main_left c) e, start_all-left c.listeners)
    Step-left (servers_time_out e) = omega (arith, ap (main_left c) e)
    Step-left (servers_noted e) = omega (arith, ap (main_left c) e, start_all-left c.listeners)
    Step-left (listeners_stopped e all) =
        omega (arith, ap (main_left c) e, start_all-left c.clients)
    Step-left (listeners_time_out e) = omega (arith, ap (main_left c) e)
    Step-left (listeners_noted e) = omega (arith, ap (main_left c) e, start_all-left c.clients)
    Step-left (clients_stopped e all) = omega (arith, ap (main_left c) e)
    Step-left (cleaned e a) = omega (arith, ap (main_left c) e)
    Step-left (cleanup_fails e a) = omega (arith, ap (main_left c) e)
    Step-left (cleanup_noted e) = omega (arith, ap (main_left c) e)
    Step-left (finishes e) = omega (arith, ap (main_left c) e)

    abbrev pub steps : {s : Run} → Reach answer c s → ℕ
    steps start = 0
    steps (later r st) = suc (steps r)

    abbrev pub most_steps : ℕ
    most_steps =
        2 * (length c.servers + length c.listeners + length c.clients + length c.cleanup_funcs) + 6

    steps-left : {s : Run} (r : Reach answer c s) → steps r + left c s ≤ most_steps
    steps-left start = omega (arith, start_all-left c.servers)
    steps-left (later r st) = omega (arith, steps-left r, Step-left st)

    abbrev pub CanGoOn : Run → Type 0
    CanGoOn s =
        ((t : Run) × Step answer c s t) ⊎ ((r : Option ShutdownError) × (s.main ≡ finished r))

    goes_on : (s : Run) (m : Main) → s.main ≡ m → CanGoOn s
    goes_on s stop_servers e = inl (_, servers_time_out e)
    goes_on s (servers_late read) e = inl (_, servers_noted e)
    goes_on s stop_listeners e = inl (_, listeners_time_out e)
    goes_on s (listeners_late read) e = inl (_, listeners_noted e)
    goes_on s stop_clients e = elim (ended-or-Moves client_close s.errors s.client_threads) [
      | inl h ↦ inl (_, clients_stopped e h)
      | inr (es, ts, m) ↦ inl (_, client_moves m)
    ]
    goes_on s (cleaning []) e = inl (_, finishes e)
    goes_on s (cleaning (r ∷ rs)) e = elim (Option-cases (answer r)) [
      | inl a ↦ inl (_, cleaned e a)
      | inr (m, a) ↦ inl (_, cleanup_fails e a)
    ]
    goes_on s (cleanup_failed read d rs) e = inl (_, cleanup_noted e)
    goes_on s (finished r) e = inr (r, e)

    -- A shutdown takes at most two steps for each registered resource and six more, and in every
    -- state that it reaches it can take a step or is over, where every Close that is called can
    -- return.
    pub Reach-steps : {s : Run} (r : Reach answer c s) → (steps r ≤ most_steps) × CanGoOn s
    Reach-steps {s} r = (omega (arith, steps-left r), goes_on s s.main refl)
