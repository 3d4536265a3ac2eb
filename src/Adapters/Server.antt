-- ===== src/Adapters/Server.antt =====
-- The gRPC server of grpc_provider.go, and the server of internal/adapters/primary/api/server.go around it.
-- A call of gRPC's Serve is its last action here, since it returns only when the server has stopped.
pub mod Listeners
use ephemos.Base.{
  ℕ, zero, suc, ◌+◌, ◌-◌, ◌≤◌, ◌<◌, ◌≡◌, refl, sym, ap, ◌∙◌, ◌≢◌, ◌↔◌, ◌⊎◌, inl, inr, Bool, true,
  false, not, ◌&&◌, ◌||◌, Option, none, some, List, [], ◌∷◌, ◌++◌, map, arith, ltb, leb, ◌==◌,
  if◌then◌else◌, Bool-cases, Option-cases, Result, ok, err, fail_if, wrap, ◌>>=◌, ◌>>◌, length, All,
}
use ephemos.GoText.{Text}

-- The listeners that the code makes: each of the two packages has an adapter of its own.
pub data NetworkListener : Type 0 where
  api_adapter transport_adapter : ℕ → NetworkListener
  other_listener : NetworkListener

pub data ServerError : Type 0 where
  nil_registrar already_serving no_tls nil_listener not_an_adapter not_initialized : ServerError
  no_services nil_server_context cancelled_context : ServerError
  not_initialized_with : Text → ServerError
  not_registered not_stopped : ServerError → ServerError

-- A `grpcServer`; the services are those that were registered, by their numbers.
pub record GrpcServer : Type 0 where
  pub has_tls : Bool
  pub has_server : Bool
  pub initialized : Bool
  pub serving : Bool
  pub services : List ℕ

-- `initializeServer`.
unfoldable pub initialize_grpc : GrpcServer → GrpcServer × Result ServerError (Unit {0})
initialize_grpc g = if g.has_tls then (record g { has_server = true }, ok tt) else (g, err no_tls)

abbrev pub with_server : GrpcServer → GrpcServer × Result ServerError (Unit {0})
with_server g = if g.has_server then (g, ok tt) else initialize_grpc g

abbrev pub registered_on :
    ℕ → GrpcServer × Result ServerError (Unit {0}) → GrpcServer × Result ServerError (Unit {0})
registered_on n (g, err e) = (g, err e)
registered_on n (g, ok u) = (record g { initialized = true; services = n ∷ g.services }, ok tt)

-- `grpcServer.RegisterService`.
unfoldable pub register_grpc : Option ℕ → GrpcServer → GrpcServer × Result ServerError (Unit {0})
register_grpc none g = (g, err nil_registrar)
register_grpc (some n) g =
    if g.serving then (g, err already_serving) else registered_on n (with_server g)

-- `extractNetListener`.
unfoldable pub extract_net_listener : NetworkListener → Result ServerError ℕ
extract_net_listener (transport_adapter l) = ok l
extract_net_listener (api_adapter l) = err not_an_adapter
extract_net_listener other_listener = err not_an_adapter

-- What the state of a server lets Start do.
abbrev pub may_start : GrpcServer → Result ServerError (Unit {0})
may_start g = do
  fail_if (not g.has_server) not_initialized
  fail_if (not g.initialized) no_services
  fail_if g.serving already_serving

abbrev pub serving_if : GrpcServer → Result ServerError ℕ → GrpcServer × Result ServerError ℕ
serving_if g (err e) = (g, err e)
serving_if g (ok l) = (record g { serving = true }, ok l)

-- `grpcServer.Start` up to its call of Serve, with the listener that it serves.
unfoldable pub start_grpc : Option NetworkListener → GrpcServer → GrpcServer × Result ServerError ℕ
start_grpc none g = (g, err nil_listener)
start_grpc (some listener) g =
    serving_if g (do l ← extract_net_listener listener; may_start g; ok l)

-- The end of Start, when Serve returns.
unfoldable pub end_start : GrpcServer → GrpcServer
end_start g = record g { serving = false }

-- `grpcServer.Stop`.
unfoldable pub stop_grpc : GrpcServer → GrpcServer
stop_grpc g = if g.has_server && g.serving then record g { serving = false } else g

-- The state of a `Server`: its domain server, once there is one.
abbrev pub initialize_server :
    Result Text GrpcServer → Option GrpcServer → Result ServerError GrpcServer
initialize_server made none = wrap not_initialized_with made
initialize_server made (some g) = ok g

abbrev pub store_registered :
    GrpcServer × Result ServerError (Unit {0}) → Option GrpcServer × Result ServerError (Unit {0})
store_registered (g, r) = (some g, wrap not_registered r)

abbrev pub register_with :
    Option ℕ
    → Option GrpcServer
    → Result ServerError GrpcServer
    → Option GrpcServer × Result ServerError (Unit {0})
register_with n s (err e) = (s, err e)
register_with n s (ok g) = store_registered (register_grpc n g)

-- `Server.RegisterService`, with the answer of CreateServerIdentity.
unfoldable pub register_service :
    Result Text GrpcServer
    → Bool
    → Option ℕ
    → Option GrpcServer
    → Option GrpcServer × Result ServerError (Unit {0})
register_service made false n s = (s, err nil_server_context)
register_service made true none s = (s, err nil_registrar)
register_service made true (some n) s = register_with (some n) s (initialize_server made s)

-- The select: the end of the context, behind which the server is stopped, or what Start came to.
abbrev pub selected :
    Bool → GrpcServer × Result ServerError ℕ → Option GrpcServer × Result ServerError ℕ
selected true (g, r) = (some (stop_grpc g), err cancelled_context)
selected false (g, r) = (some g, r)

abbrev pub serve_with :
    Bool
    → ℕ
    → Option GrpcServer
    → Result ServerError GrpcServer
    → Option GrpcServer × Result ServerError ℕ
serve_with cancelled l s (err e) = (s, err e)
serve_with cancelled l s (ok g) = selected cancelled (start_grpc (some (api_adapter l)) g)

-- `Server.Serve`, told whether the context ends, with the answer of CreateServerIdentity.
unfoldable pub serve :
    Result Text GrpcServer
    → Bool
    → Option ℕ
    → Option GrpcServer
    → Option GrpcServer × Result ServerError ℕ
serve made cancelled none s = (s, err nil_listener)
serve made cancelled (some l) s = serve_with cancelled l s (initialize_server made s)

-- `Server.Close`: what is left, and the server that was stopped.
unfoldable pub close_server : Option GrpcServer → Option GrpcServer × Option GrpcServer
close_server none = (none, none)
close_server (some g) = (none, some (stop_grpc g))
