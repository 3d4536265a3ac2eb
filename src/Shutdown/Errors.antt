-- ===== src/Shutdown/Errors.antt =====
-- A shutdown of internal/shutdown/coordinator.go that returns nil.
use mathlib.Core.Path.{subst}
use ephemos.Base.{◌≡◌, refl, ◌∙◌, Option, none, List, [], ◌∷◌, map, All}
use ephemos.GoText.{Text}
use ephemos.Shutdown.{Resource, Coordinator}
use ephemos.Shutdown.Run.{
  ShutdownError, Thread, closing, noting, closed, failed, Main, stop_servers, stop_listeners,
  stop_clients, servers_late, listeners_late, cleaning, cleanup_failed, finished, Run, HasEnded,
  first_error, Step, server_moves, listener_moves, client_moves, servers_stopped, servers_time_out,
  servers_noted, listeners_stopped, listeners_time_out, listeners_noted, clients_stopped, cleaned,
  cleanup_fails, cleanup_noted, finishes, Reach, start, later,
}
use ephemos.Shutdown.Threads.{
  resource_of, append-not-nil, start_all-names, AllEnded, Silent, Fine, start_all-Fine,
  Moves-not_ended, Moves-names, Moves-Kept,
}

module _ (answer : Resource → Option Text) where
  ended-Silent :
      (ts : List Thread)
      → All (Fine answer) ts
      → All HasEnded ts
      → All (Silent answer) (map resource_of ts)
  ended-Silent [] f h = tt
  ended-Silent (closed r ∷ ts) (f, fs) (h, hs) = (f, ended-Silent ts fs hs)
  ended-Silent (failed r ∷ ts) (f, fs) h = absurd f
  ended-Silent (closing r ∷ ts) f (h, hs) = absurd h
  ended-Silent (noting r es e ∷ ts) f (h, hs) = absurd h

  module _ (c : Coordinator) where
    -- What is over at each stage, while the slice is empty.
    abbrev Progress : List Thread → List Thread → List Thread → Main → Type 0
    Progress ss ls cs stop_servers = map resource_of ss ≡ c.servers
    Progress ss ls cs (servers_late read) = map resource_of ss ≡ c.servers
    Progress ss ls cs stop_listeners = AllEnded c.servers ss × (map resource_of ls ≡ c.listeners)
    Progress ss ls cs (listeners_late read) =
        AllEnded c.servers ss × (map resource_of ls ≡ c.listeners)
    Progress ss ls cs stop_clients =
        AllEnded c.servers ss × AllEnded c.listeners ls × (map resource_of cs ≡ c.clients)
    Progress ss ls cs (cleaning rs) =
        AllEnded c.servers ss
        × AllEnded c.listeners ls
        × AllEnded c.clients cs
        × (All (Silent answer) rs → All (Silent answer) c.cleanup_funcs)
    Progress ss ls cs (cleanup_failed read e rs) =
        AllEnded c.servers ss × AllEnded c.listeners ls × AllEnded c.clients cs
    Progress ss ls cs (finished r) =
        AllEnded c.servers ss
        × AllEnded c.listeners ls
        × AllEnded c.clients cs
        × All (Silent answer) c.cleanup_funcs

    record Quiet (s : Run) : Type 0 where
      servers : All (Fine answer) s.server_threads
      listeners : All (Fine answer) s.listener_threads
      clients : All (Fine answer) s.client_threads
      progress : Progress s.server_threads s.listener_threads s.client_threads s.main

    progress-servers :
        (ss ss' ls cs : List Thread) (m : Main)
        → map resource_of ss' ≡ map resource_of ss
        → ¬ All HasEnded ss
        → Progress ss ls cs m
        → Progress ss' ls cs m
    progress-servers ss ss' ls cs stop_servers n h p = n ∙ p
    progress-servers ss ss' ls cs (servers_late read) n h p = n ∙ p
    progress-servers ss ss' ls cs stop_listeners n h p = absurd (h p.0.1)
    progress-servers ss ss' ls cs (listeners_late read) n h p = absurd (h p.0.1)
    progress-servers ss ss' ls cs stop_clients n h p = absurd (h p.0.1)
    progress-servers ss ss' ls cs (cleaning rs) n h p = absurd (h p.0.1)
    progress-servers ss ss' ls cs (cleanup_failed read e rs) n h p = absurd (h p.0.1)
    progress-servers ss ss' ls cs (finished r) n h p = absurd (h p.0.1)

    progress-listeners :
        (ss ls ls' cs : List Thread) (m : Main)
        → map resource_of ls' ≡ map resource_of ls
        → ¬ All HasEnded ls
        → Progress ss ls cs m
        → Progress ss ls' cs m
    progress-listeners ss ls ls' cs stop_servers n h p = p
    progress-listeners ss ls ls' cs (servers_late read) n h p = p
    progress-listeners ss ls ls' cs stop_listeners n h p = (p.0, n ∙ p.1)
    progress-listeners ss ls ls' cs (listeners_late read) n h p = (p.0, n ∙ p.1)
    progress-listeners ss ls ls' cs stop_clients n h p = absurd (h p.1.1)
    progress-listeners ss ls ls' cs (cleaning rs) n h p = absurd (h p.1.1)
    progress-listeners ss ls ls' cs (cleanup_failed read e rs) n h p = absurd (h p.1.1)
    progress-listeners ss ls ls' cs (finished r) n h p = absurd (h p.1.1)

    progress-clients :
        (ss ls cs cs' : List Thread) (m : Main)
        → map resource_of cs' ≡ map resource_of cs
        → ¬ All HasEnded cs
        → Progress ss ls cs m
        → Progress ss ls cs' m
    progress-clients ss ls cs cs' stop_servers n h p = p
    progress-clients ss ls cs cs' (servers_late read) n h p = p
    progress-clients ss ls cs cs' stop_listeners n h p = p
    progress-clients ss ls cs cs' (listeners_late read) n h p = p
    progress-clients ss ls cs cs' stop_clients n h p = (p.0, p.1, n ∙ p.2)
    progress-clients ss ls cs cs' (cleaning rs) n h p = absurd (h p.2.1)
    progress-clients ss ls cs cs' (cleanup_failed read e rs) n h p = absurd (h p.2.1)
    progress-clients ss ls cs cs' (finished r) n h p = absurd (h p.2.1)

    -- The progress where the stage is known.
    progress_at :
        (s : Run) {m : Main}
        → Quiet s
        → s.main ≡ m
        → Progress s.server_threads s.listener_threads s.client_threads m
    progress_at s q e =
        subst (Progress s.server_threads s.listener_threads s.client_threads) e q.progress

    Step-Quiet :
        {s t : Run} → Step answer c s t → (s.errors ≡ [] → Quiet s) → t.errors ≡ [] → Quiet t
    Step-Quiet {s} (server_moves {es} {ts} m) f h =
        let k = Moves-Kept answer m h in
        let q = f k.empty_before in
        record {
          servers = k.fine q.servers;
          listeners = q.listeners;
          clients = q.clients;
          progress =
              progress-servers _ ts _ _ s.main (Moves-names answer m) (Moves-not_ended answer m)
                q.progress;
        }
    Step-Quiet {s} (listener_moves {es} {ts} m) f h =
        let k = Moves-Kept answer m h in
        let q = f k.empty_before in
        record {
          servers = q.servers;
          listeners = k.fine q.listeners;
          clients = q.clients;
          progress =
              progress-listeners _ _ ts _ s.main (Moves-names answer m) (Moves-not_ended answer m)
                q.progress;
        }
    Step-Quiet {s} (client_moves {es} {ts} m) f h =
        let k = Moves-Kept answer m h in
        let q = f k.empty_before in
        record {
          servers = q.servers;
          listeners = q.listeners;
          clients = k.fine q.clients;
          progress =
              progress-clients _ _ _ ts s.main (Moves-names answer m) (Moves-not_ended answer m)
                q.progress;
        }
    Step-Quiet {s} (servers_stopped e all) f h =
        let q = f h in
        record {
          servers = q.servers;
          listeners = start_all-Fine answer c.listeners;
          clients = q.clients;
          progress = ((progress_at s q e, all), start_all-names c.listeners);
        }
    Step-Quiet {s} (servers_time_out e) f h =
        let q = f h in
        record {
          servers = q.servers;
          listeners = q.listeners;
          clients = q.clients;
          progress = progress_at s q e;
        }
    Step-Quiet (servers_noted {read} e) f h = absurd (append-not-nil read _ h)
    Step-Quiet {s} (listeners_stopped e all) f h =
        let q = f h in
        let p = progress_at s q e in
        record {
          servers = q.servers;
          listeners = q.listeners;
          clients = start_all-Fine answer c.clients;
          progress = (p.0, (p.1, all), start_all-names c.clients);
        }
    Step-Quiet {s} (listeners_time_out e) f h =
        let q = f h in
        record {
          servers = q.servers;
          listeners = q.listeners;
          clients = q.clients;
          progress = progress_at s q e;
        }
    Step-Quiet (listeners_noted {read} e) f h = absurd (append-not-nil read _ h)
    Step-Quiet {s} (clients_stopped e all) f h =
        let q = f h in
        let p = progress_at s q e in
        record {
          servers = q.servers;
          listeners = q.listeners;
          clients = q.clients;
          progress = (p.0, p.1, (p.2, all), λ d. d);
        }
    Step-Quiet {s} (cleaned {r} {rs} e a) f h =
        let q = f h in
        let p = progress_at s q e in
        record {
          servers = q.servers;
          listeners = q.listeners;
          clients = q.clients;
          progress = (p.0, p.1, p.2, λ d. p.3 (a, d));
        }
    Step-Quiet {s} (cleanup_fails e a) f h =
        let q = f h in
        let p = progress_at s q e in
        record {
          servers = q.servers;
          listeners = q.listeners;
          clients = q.clients;
          progress = (p.0, p.1, p.2);
        }
    Step-Quiet (cleanup_noted {read} {e = d} e) f h = absurd (append-not-nil read d h)
    Step-Quiet {s} (finishes e) f h =
        let q = f h in
        let p = progress_at s q e in
        record {
          servers = q.servers;
          listeners = q.listeners;
          clients = q.clients;
          progress = (p.0, p.1, p.2, p.3 tt);
        }

    -- While no error is there, all is quiet; and after a nil result no error comes.
    record Inv (s : Run) : Type 0 where
      quiet : s.errors ≡ [] → Quiet s
      kept : s.main ≡ finished none → s.errors ≡ []

    over :
        {s : Run}
        → Inv s
        → (e : s.main ≡ finished none)
        → Progress s.server_threads s.listener_threads s.client_threads (finished none)
    over {s} i e = progress_at s (i.quiet (i.kept e)) e

    first_error-none :
        (es : List ShutdownError) → finished (first_error es) ≡ finished none → es ≡ []
    first_error-none [] h = refl
    first_error-none (e ∷ es) h = cc

    Step-kept : {s t : Run} → Step answer c s t → Inv s → t.main ≡ finished none → t.errors ≡ []
    Step-kept (server_moves m) i h = absurd (Moves-not_ended answer m (over i h).0.1)
    Step-kept (listener_moves m) i h = absurd (Moves-not_ended answer m (over i h).1.1)
    Step-kept (client_moves m) i h = absurd (Moves-not_ended answer m (over i h).2.1)
    Step-kept (servers_stopped e all) i h = cc
    Step-kept (servers_time_out e) i h = cc
    Step-kept (servers_noted e) i h = cc
    Step-kept (listeners_stopped e all) i h = cc
    Step-kept (listeners_time_out e) i h = cc
    Step-kept (listeners_noted e) i h = cc
    Step-kept (clients_stopped e all) i h = cc
    Step-kept (cleaned e a) i h = cc
    Step-kept (cleanup_fails e a) i h = cc
    Step-kept (cleanup_noted e) i h = cc
    Step-kept {s} (finishes e) i h = first_error-none s.errors h

    Reach-Inv : {s : Run} → Reach answer c s → Inv s
    Reach-Inv start = record {
      quiet = λ h. record {
        servers = start_all-Fine answer c.servers;
        listeners = tt;
        clients = tt;
        progress = start_all-names c.servers;
      };
      kept = λ h. cc;
    }
    Reach-Inv (later r st) =
        let i = Reach-Inv r in record { quiet = Step-Quiet st i.quiet; kept = Step-kept st i }

    All-Silent :
        (rs : List Resource) (ts : List Thread)
        → All (Fine answer) ts
        → AllEnded rs ts
        → All (Silent answer) rs
    All-Silent rs ts f (n, h) = subst (All (Silent answer)) n (ended-Silent ts f h)

    -- A shutdown that ends with nil has stopped everything: Close of each registered server,
    -- listener and client, and each cleanup function, returned nil, no wait was cut short, and no
    -- error is in the slice, although its appends race.
    pub finished-none :
        {s : Run}
        → Reach answer c s
        → s.main ≡ finished none
        → All (Silent answer) c.servers
          × All (Silent answer) c.listeners
          × All (Silent answer) c.clients
          × All (Silent answer) c.cleanup_funcs
          × (s.errors ≡ [])
    finished-none {s} r e =
        let i = Reach-Inv r in
        let q = i.quiet (i.kept e) in
        let p = over i e in
        (
          All-Silent c.servers s.server_threads q.servers p.0,
          All-Silent c.listeners s.listener_threads q.listeners p.1,
          All-Silent c.clients s.client_threads q.clients p.2,
          p.3,
          i.kept e,
        )
