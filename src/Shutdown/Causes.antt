-- ===== src/Shutdown/Causes.antt =====
-- What the error of a shutdown of internal/shutdown/coordinator.go comes from.
use mathlib.Core.Path.{subst}
use ephemos.Base.{◌≡◌, refl, ◌∙◌, ◌⊎◌, inl, inr, Option, none, some, List, [], ◌∷◌, ◌++◌, map, All}
use ephemos.Shutdown.Threads.{Moves-not_ended, Moves-names, resource_of, start_all-names}
use ephemos.GoText.{Text}
use ephemos.Shutdown.{Resource, Coordinator}
use ephemos.Shutdown.Run.{
  ShutdownError, server_stop, listener_close, client_close, cleanup, servers_timeout,
  listeners_timeout, Thread, closing, noting, closed, failed, Main, stop_servers, stop_listeners,
  stop_clients, servers_late, listeners_late, cleaning, cleanup_failed, finished, Run, HasEnded,
  first_error, start_all, returns, reads, writes, Moves, here, there, Step, server_moves,
  listener_moves, client_moves, servers_stopped, servers_time_out, servers_noted, listeners_stopped,
  listeners_time_out, listeners_noted, clients_stopped, cleaned, cleanup_fails, cleanup_noted,
  finishes, Reach, start, later,
}

abbrev pub In : Resource → List Resource → Type 0
In r [] = ⊥
In r (q ∷ qs) = (q ≡ r) ⊎ In r qs

module _ (P : ShutdownError → Type 0) where
  -- A goroutine of one of the resources, and what it is about to write.
  abbrev Owned : List Resource → Thread → Type 0
  Owned rs (closing r) = In r rs
  Owned rs (noting r read e) = In r rs × All P read × P e
  Owned rs (closed r) = In r rs
  Owned rs (failed r) = In r rs

  Owned-later :
      (rs : List Resource) (q : Resource) (ts : List Thread)
      → All (Owned rs) ts
      → All (Owned (q ∷ rs)) ts
  Owned-later rs q [] h = tt
  Owned-later rs q (closing r ∷ ts) (h, hs) = (inr h, Owned-later rs q ts hs)
  Owned-later rs q (noting r read e ∷ ts) ((h, a, p), hs) = ((inr h, a, p), Owned-later rs q ts hs)
  Owned-later rs q (closed r ∷ ts) (h, hs) = (inr h, Owned-later rs q ts hs)
  Owned-later rs q (failed r ∷ ts) (h, hs) = (inr h, Owned-later rs q ts hs)

  start_all-Owned : (rs : List Resource) → All (Owned rs) (start_all rs)
  start_all-Owned [] = tt
  start_all-Owned (r ∷ rs) = (inl refl, Owned-later rs r (start_all rs) (start_all-Owned rs))

  append-All :
      (es : List ShutdownError) (e : ShutdownError) → All P es → P e → All P (es ++ (e ∷ []))
  append-All [] e a p = (p, tt)
  append-All (d ∷ es) e (a, as') p = (a, append-All es e as' p)

  module _ (answer : Resource → Option Text) (rs : List Resource) where
    Moves-Owned :
        {wrapped : Text → ShutdownError} {es es' : List ShutdownError} {ts ts' : List Thread}
        → Moves answer wrapped es ts es' ts'
        → ((r : Resource) (m : Text) → In r rs → answer r ≡ some m → P (wrapped m))
        → All P es
        → All (Owned rs) ts
        → All P es' × All (Owned rs) ts'
    Moves-Owned (here (returns q)) f a (h, hs) = (a, (h, hs))
    Moves-Owned (here (reads {r} {m} q)) f a (h, hs) = (a, ((h, a, f r m h q), hs))
    Moves-Owned (here (writes {read} {e})) f a ((h, b, p), hs) = (append-All read e b p, (h, hs))
    Moves-Owned (there m) f a (h, hs) = let (a', hs') = Moves-Owned m f a hs in (a', (h, hs'))

module _ (answer : Resource → Option Text) (c : Coordinator) where
  -- A registered resource whose answer is the text.
  abbrev pub Answered : List Resource → Text → Type 0
  Answered rs m = (r : Resource) × In r rs × (answer r ≡ some m)

  abbrev pub IsCause : ShutdownError → Type 0
  IsCause (server_stop m) = Answered c.servers m
  IsCause (listener_close m) = Answered c.listeners m
  IsCause (client_close m) = Answered c.clients m
  IsCause (cleanup m) = Answered c.cleanup_funcs m
  IsCause servers_timeout = Unit
  IsCause listeners_timeout = Unit

  -- The cleanup functions that are left are registered ones.
  abbrev Left : List Resource → Type 0
  Left rs = All (λ (r : Resource). In r c.cleanup_funcs) rs

  abbrev ClientsOver : List Thread → Type 0
  ClientsOver cs = All HasEnded cs × (map resource_of cs ≡ c.clients)

  abbrev MainOwned : List Thread → Main → Type 0
  MainOwned cs stop_servers = Unit
  MainOwned cs (servers_late read) = All IsCause read
  MainOwned cs stop_listeners = Unit
  MainOwned cs (listeners_late read) = All IsCause read
  MainOwned cs stop_clients = map resource_of cs ≡ c.clients
  MainOwned cs (cleaning rs) = ClientsOver cs × Left rs
  MainOwned cs (cleanup_failed read e rs) = ClientsOver cs × Left rs × All IsCause read × IsCause e
  MainOwned cs (finished none) = ClientsOver cs
  MainOwned cs (finished (some e)) = ClientsOver cs × IsCause e

  record Inv (s : Run) : Type 0 where
    errors : All IsCause s.errors
    servers : All (Owned IsCause c.servers) s.server_threads
    listeners : All (Owned IsCause c.listeners) s.listener_threads
    clients : All (Owned IsCause c.clients) s.client_threads
    main : MainOwned s.client_threads s.main

  main_at : (s : Run) {m : Main} → Inv s → s.main ≡ m → MainOwned s.client_threads m
  main_at s i e = subst (MainOwned s.client_threads) e i.main

  -- A client moves: its stage is not over.
  main-clients :
      (cs cs' : List Thread) (m : Main)
      → map resource_of cs' ≡ map resource_of cs
      → ¬ All HasEnded cs
      → MainOwned cs m
      → MainOwned cs' m
  main-clients cs cs' stop_servers n h p = p
  main-clients cs cs' (servers_late read) n h p = p
  main-clients cs cs' stop_listeners n h p = p
  main-clients cs cs' (listeners_late read) n h p = p
  main-clients cs cs' stop_clients n h p = n ∙ p
  main-clients cs cs' (cleaning rs) n h p = absurd (h p.0.0)
  main-clients cs cs' (cleanup_failed read e rs) n h p = absurd (h p.0.0)
  main-clients cs cs' (finished none) n h p = absurd (h p.0)
  main-clients cs cs' (finished (some e)) n h p = absurd (h p.0.0)

  result-owned :
      (cs : List Thread) (es : List ShutdownError)
      → ClientsOver cs
      → All IsCause es
      → MainOwned cs (finished (first_error es))
  result-owned cs [] o a = o
  result-owned cs (e ∷ es) o (a, later_ones) = (o, a)

  Left-self :
      (rs qs : List Resource)
      → ((r : Resource) → In r rs → In r qs)
      → All (λ (r : Resource). In r qs) rs
  Left-self [] qs f = tt
  Left-self (r ∷ rs) qs f = (f r (inl refl), Left-self rs qs (λ q h. f q (inr h)))

  Step-Inv : {s t : Run} → Step answer c s t → Inv s → Inv t
  Step-Inv {s} (server_moves m) i =
      let (es, ts) =
        Moves-Owned IsCause answer c.servers m (λ r m' h q. (r, h, q)) i.errors i.servers in
      record {
        errors = es;
        servers = ts;
        listeners = i.listeners;
        clients = i.clients;
        main = i.main;
      }
  Step-Inv {s} (listener_moves m) i =
      let (es, ts) =
        Moves-Owned IsCause answer c.listeners m (λ r m' h q. (r, h, q)) i.errors i.listeners in
      record {
        errors = es;
        servers = i.servers;
        listeners = ts;
        clients = i.clients;
        main = i.main;
      }
  Step-Inv {s} (client_moves {ts = cs} m) i =
      let (es, ts) =
        Moves-Owned IsCause answer c.clients m (λ r m' h q. (r, h, q)) i.errors i.clients in
      record {
        errors = es;
        servers = i.servers;
        listeners = i.listeners;
        clients = ts;
        main =
            main-clients s.client_threads cs s.main (Moves-names answer m)
              (Moves-not_ended answer m) i.main;
      }
  Step-Inv (servers_stopped e all) i = record {
    errors = i.errors;
    servers = i.servers;
    listeners = start_all-Owned IsCause c.listeners;
    clients = i.clients;
    main = tt;
  }
  Step-Inv (servers_time_out e) i = record {
    errors = i.errors;
    servers = i.servers;
    listeners = i.listeners;
    clients = i.clients;
    main = i.errors;
  }
  Step-Inv {s} (servers_noted {read} e) i = record {
    errors = append-All IsCause read servers_timeout (main_at s i e) tt;
    servers = i.servers;
    listeners = start_all-Owned IsCause c.listeners;
    clients = i.clients;
    main = tt;
  }
  Step-Inv (listeners_stopped e all) i = record {
    errors = i.errors;
    servers = i.servers;
    listeners = i.listeners;
    clients = start_all-Owned IsCause c.clients;
    main = start_all-names c.clients;
  }
  Step-Inv (listeners_time_out e) i = record {
    errors = i.errors;
    servers = i.servers;
    listeners = i.listeners;
    clients = i.clients;
    main = i.errors;
  }
  Step-Inv {s} (listeners_noted {read} e) i = record {
    errors = append-All IsCause read listeners_timeout (main_at s i e) tt;
    servers = i.servers;
    listeners = i.listeners;
    clients = start_all-Owned IsCause c.clients;
    main = start_all-names c.clients;
  }
  Step-Inv {s} (clients_stopped e all) i = record {
    errors = i.errors;
    servers = i.servers;
    listeners = i.listeners;
    clients = i.clients;
    main = ((all, main_at s i e), Left-self c.cleanup_funcs c.cleanup_funcs (λ r h. h));
  }
  Step-Inv {s} (cleaned e a) i =
      let p = main_at s i e in
      record {
        errors = i.errors;
        servers = i.servers;
        listeners = i.listeners;
        clients = i.clients;
        main = (p.0, p.1.1);
      }
  Step-Inv {s} (cleanup_fails {r} e a) i =
      let p = main_at s i e in
      record {
        errors = i.errors;
        servers = i.servers;
        listeners = i.listeners;
        clients = i.clients;
        main = (p.0, p.1.1, i.errors, (r, p.1.0, a));
      }
  Step-Inv {s} (cleanup_noted {read} {e = d} e) i =
      let p = main_at s i e in
      record {
        errors = append-All IsCause read d p.2 p.3;
        servers = i.servers;
        listeners = i.listeners;
        clients = i.clients;
        main = (p.0, p.1);
      }
  Step-Inv {s} (finishes e) i = record {
    errors = i.errors;
    servers = i.servers;
    listeners = i.listeners;
    clients = i.clients;
    main = result-owned s.client_threads s.errors (main_at s i e).0 i.errors;
  }

  Reach-Inv : {s : Run} → Reach answer c s → Inv s
  Reach-Inv start = record {
    errors = tt;
    servers = start_all-Owned IsCause c.servers;
    listeners = tt;
    clients = tt;
    main = tt;
  }
  Reach-Inv (later r st) = Step-Inv st (Reach-Inv r)

  abbrev pub IsExplained : Option ShutdownError → Type 0
  IsExplained none = Unit
  IsExplained (some e) = IsCause e

  result-IsExplained :
      (cs : List Thread) (r : Option ShutdownError)
      → MainOwned cs (finished r)
      → ClientsOver cs × IsExplained r
  result-IsExplained cs none p = (p, tt)
  result-IsExplained cs (some e) p = p

  -- Where a shutdown is over, every registered client was closed. The error that it returns, if any,
  -- is a timeout of the servers or of the listeners, or what the Close of a server, a listener or a
  -- client, or a cleanup function, of those registered, returned, wrapped as that kind's.
  pub finished-IsExplained :
      {s : Run} (r : Option ShutdownError)
      → Reach answer c s
      → s.main ≡ finished r
      → (All HasEnded s.client_threads × (map resource_of s.client_threads ≡ c.clients))
        × IsExplained r
  finished-IsExplained {s} r h e = result-IsExplained s.client_threads r (main_at s (Reach-Inv h) e)
