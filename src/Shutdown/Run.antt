-- ===== src/Shutdown/Run.antt =====
-- One shutdown of internal/shutdown/coordinator.go, its goroutines interleaved in any order. The slice
-- of errors has no lock: an append reads the slice and writes it in two steps.
use ephemos.Base.{◌≡◌, Option, none, some, List, [], ◌∷◌, ◌++◌, map, All}
use ephemos.GoText.{Text}
use ephemos.Shutdown.{Resource, Coordinator}

pub data ShutdownError : Type 0 where
  server_stop listener_close client_close cleanup : Text → ShutdownError
  servers_timeout listeners_timeout : ShutdownError

-- The goroutine of one resource: it has not returned from Close, it has an error and has read the
-- slice, or it has ended, without or with an error.
pub data Thread : Type 0 where
  closing : Resource → Thread
  noting : Resource → List ShutdownError → ShutdownError → Thread
  closed failed : Resource → Thread

-- Where the caller of Shutdown stands; the slice that it has read where it is about to append.
pub data Main : Type 0 where
  stop_servers stop_listeners stop_clients : Main
  servers_late listeners_late : List ShutdownError → Main
  cleaning : List Resource → Main
  cleanup_failed : List ShutdownError → ShutdownError → List Resource → Main
  finished : Option ShutdownError → Main

pub record Run : Type 0 where
  pub errors : List ShutdownError
  pub server_threads : List Thread
  pub listener_threads : List Thread
  pub client_threads : List Thread
  pub main : Main

abbrev pub HasEnded : Thread → Type 0
HasEnded (closed r) = Unit
HasEnded (failed r) = Unit
HasEnded (closing r) = ⊥
HasEnded (noting r es e) = ⊥

-- `finalErr`: the first of the errors.
abbrev pub first_error : List ShutdownError → Option ShutdownError
first_error [] = none
first_error (e ∷ es) = some e

abbrev pub start_all : List Resource → List Thread
start_all = map closing

-- The state at the start of the first phase.
abbrev pub at_start : Coordinator → Run
at_start c = record {
  errors = [];
  server_threads = start_all c.servers;
  listener_threads = [];
  client_threads = [];
  main = stop_servers;
}

-- `answer` is what Close or the cleanup function returns: none is nil.
module _ (answer : Resource → Option Text) where
  -- One step of a goroutine, with the slice before and after it.
  pub data Move (wrapped : Text → ShutdownError) (es : List ShutdownError)
      : Thread → List ShutdownError → Thread → Type 0 where
    returns : {r : Resource} → answer r ≡ none → Move wrapped es (closing r) es (closed r)
    reads :
        {r : Resource} {m : Text}
        → answer r ≡ some m
        → Move wrapped es (closing r) es (noting r es (wrapped m))
    writes :
        {r : Resource} {read : List ShutdownError} {e : ShutdownError}
        → Move wrapped es (noting r read e) (read ++ (e ∷ [])) (failed r)

  -- One of a list of goroutines moves.
  pub data Moves (wrapped : Text → ShutdownError) (es : List ShutdownError)
      : List Thread → List ShutdownError → List Thread → Type 0 where
    here :
        {t t' : Thread} {es' : List ShutdownError} {ts : List Thread}
        → Move wrapped es t es' t'
        → Moves wrapped es (t ∷ ts) es' (t' ∷ ts)
    there :
        {t : Thread} {es' : List ShutdownError} {ts ts' : List Thread}
        → Moves wrapped es ts es' ts'
        → Moves wrapped es (t ∷ ts) es' (t ∷ ts')

  -- A wait on servers or listeners ends when all have ended or by the force timeout; the wait on
  -- clients has no timeout.
  pub data Step (c : Coordinator) (s : Run) : Run → Type 0 where
    server_moves :
        {es : List ShutdownError} {ts : List Thread}
        → Moves server_stop s.errors s.server_threads es ts
        → Step c s (record s { errors = es; server_threads = ts })
    listener_moves :
        {es : List ShutdownError} {ts : List Thread}
        → Moves listener_close s.errors s.listener_threads es ts
        → Step c s (record s { errors = es; listener_threads = ts })
    client_moves :
        {es : List ShutdownError} {ts : List Thread}
        → Moves client_close s.errors s.client_threads es ts
        → Step c s (record s { errors = es; client_threads = ts })
    servers_stopped :
        s.main ≡ stop_servers
        → All HasEnded s.server_threads
        → Step c s (record s { main = stop_listeners; listener_threads = start_all c.listeners })
    servers_time_out : s.main ≡ stop_servers → Step c s (record s { main = servers_late s.errors })
    servers_noted :
        {read : List ShutdownError}
        → s.main ≡ servers_late read
        → Step c s (record s {
          errors = read ++ (servers_timeout ∷ []);
          main = stop_listeners;
          listener_threads = start_all c.listeners;
        })
    listeners_stopped :
        s.main ≡ stop_listeners
        → All HasEnded s.listener_threads
        → Step c s (record s { main = stop_clients; client_threads = start_all c.clients })
    listeners_time_out :
        s.main ≡ stop_listeners → Step c s (record s { main = listeners_late s.errors })
    listeners_noted :
        {read : List ShutdownError}
        → s.main ≡ listeners_late read
        → Step c s (record s {
          errors = read ++ (listeners_timeout ∷ []);
          main = stop_clients;
          client_threads = start_all c.clients;
        })
    clients_stopped :
        s.main ≡ stop_clients
        → All HasEnded s.client_threads
        → Step c s (record s { main = cleaning c.cleanup_funcs })
    cleaned :
        {r : Resource} {rs : List Resource}
        → s.main ≡ cleaning (r ∷ rs)
        → answer r ≡ none
        → Step c s (record s { main = cleaning rs })
    cleanup_fails :
        {r : Resource} {rs : List Resource} {m : Text}
        → s.main ≡ cleaning (r ∷ rs)
        → answer r ≡ some m
        → Step c s (record s { main = cleanup_failed s.errors (cleanup m) rs })
    cleanup_noted :
        {read : List ShutdownError} {e : ShutdownError} {rs : List Resource}
        → s.main ≡ cleanup_failed read e rs
        → Step c s (record s { errors = read ++ (e ∷ []); main = cleaning rs })
    finishes : s.main ≡ cleaning [] → Step c s (record s { main = finished (first_error s.errors) })

  -- The states that one shutdown reaches, with the number of steps.
  pub data Reach (c : Coordinator) : Run → Type 0 where
    start : Reach c (at_start c)
    later : {s t : Run} → Reach c s → Step c s t → Reach c t
