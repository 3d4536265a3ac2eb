-- ===== src/Examples/Shutdowns.antt =====
-- Shutdowns of two servers, a client and a cleanup function.
use ephemos.Base.{
  ◌≤◌, ◌≡◌, refl, ◌≢◌, true, false, Option, none, some, List, [], ◌∷◌, ◌==◌, if◌then◌else◌,
}
use ephemos.GoText.{Text, text}
use ephemos.Shutdown.{
  Resource, Coordinator, new_coordinator, default_config, register_server, register_client,
  register_listener, register_cleanup_func,
}
use ephemos.Shutdown.Run.{
  ShutdownError, server_stop, closed, failed, finished, returns, reads, writes, here, there,
  server_moves, client_moves, servers_stopped, listeners_stopped, clients_stopped, cleaned,
  finishes, Reach, start, later,
}
use ephemos.Shutdown.Errors.{finished-none}
use ephemos.Shutdown.Causes.{finished-IsExplained, IsExplained}
use ephemos.Shutdown.Bound.{steps, most_steps, CanGoOn, Reach-steps}
use ephemos.Shutdown.Once.{first, again, Life, born, shuts, OnlyFirst, Life-OnlyFirst}

abbrev coordinator : Coordinator
coordinator = record {
  config = default_config;
  servers = 1 ∷ 2 ∷ [];
  clients = 3 ∷ [];
  listeners = [];
  cleanup_funcs = 4 ∷ [];
  shutdown_once = false;
  is_shutting_down = true;
}

-- Nothing fails.
abbrev silent : Resource → Option Text
silent r = none

quiet_run : Reach silent coordinator (record {
  errors = [];
  server_threads = closed 1 ∷ closed 2 ∷ [];
  listener_threads = [];
  client_threads = closed 3 ∷ [];
  main = finished none;
})
quiet_run =
    later
      (later
        (later
          (later
            (later
              (later
                (later (later start (server_moves (there (here (returns refl)))))
                  (server_moves (here (returns refl))))
                (servers_stopped refl (tt, (tt, tt))))
              (listeners_stopped refl tt))
            (client_moves (here (returns refl))))
          (clients_stopped refl (tt, tt)))
        (cleaned refl refl))
      (finishes refl)

finished-none_example :
    ((silent 1 ≡ none) × ((silent 2 ≡ none) × Unit {0}))
    × Unit {0}
    × ((silent 3 ≡ none) × Unit {0})
    × ((silent 4 ≡ none) × Unit {0})
    × (◌≡◌ {A = List ShutdownError} [] [])
finished-none_example = finished-none silent coordinator quiet_run refl

-- Both servers fail.
abbrev servers_fail : Resource → Option Text
servers_fail r = if r == 1 then some (text "a") else if r == 2 then some (text "b") else none

-- Both goroutines read the empty slice before either writes it: one error is lost.
racing_run : Reach servers_fail coordinator (record {
  errors = server_stop (text "b") ∷ [];
  server_threads = failed 1 ∷ failed 2 ∷ [];
  listener_threads = [];
  client_threads = closed 3 ∷ [];
  main = finished (some (server_stop (text "b")));
})
racing_run =
    later
      (later
        (later
          (later
            (later
              (later
                (later
                  (later
                    (later (later start (server_moves (here (reads refl))))
                      (server_moves (there (here (reads refl)))))
                    (server_moves (here writes)))
                  (server_moves (there (here writes))))
                (servers_stopped refl (tt, (tt, tt))))
              (listeners_stopped refl tt))
            (client_moves (here (returns refl))))
          (clients_stopped refl (tt, tt)))
        (cleaned refl refl))
      (finishes refl)

finished-IsExplained_example :
    ((Unit {0} × Unit {0}) × (◌≡◌ {A = List Resource} (3 ∷ []) (3 ∷ [])))
    × IsExplained servers_fail coordinator (some (server_stop (text "b")))
finished-IsExplained_example =
    finished-IsExplained servers_fail coordinator (some (server_stop (text "b"))) racing_run refl

Reach-steps_example :
    (steps servers_fail coordinator racing_run ≤ most_steps servers_fail coordinator)
    × CanGoOn servers_fail coordinator (record {
      errors = server_stop (text "b") ∷ [];
      server_threads = failed 1 ∷ failed 2 ∷ [];
      listener_threads = [];
      client_threads = closed 3 ∷ [];
      main = finished (some (server_stop (text "b")));
    })
Reach-steps_example = Reach-steps servers_fail coordinator racing_run

abbrev idle : Coordinator
idle = record {
  config = default_config;
  servers = [];
  clients = [];
  listeners = [];
  cleanup_funcs = [];
  shutdown_once = false;
  is_shutting_down = false;
}

abbrev over : Coordinator
over = record idle { shutdown_once = true; is_shutting_down = true }

-- Shutdown is called twice, on a coordinator with nothing registered.
twice : Life silent none over (none ∷ none ∷ [])
unfolding new_coordinator
twice =
    shuts
      (shuts born (
        first refl
          (later
            (later (later (later start (servers_stopped refl tt)) (listeners_stopped refl tt))
              (clients_stopped refl tt))
            (finishes refl))
          refl))
      (again refl)

Life-OnlyFirst_example :
    OnlyFirst silent (none ∷ none ∷ [])
    × (◌≢◌ {A = List (Option ShutdownError)} (none ∷ none ∷ []) []
        → (r : Option Resource)
        → (register_server r over ≡ over)
          × (register_client r over ≡ over)
          × (register_listener r over ≡ over)
          × (register_cleanup_func r over ≡ over))
Life-OnlyFirst_example = Life-OnlyFirst silent twice
