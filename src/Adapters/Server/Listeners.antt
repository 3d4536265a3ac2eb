-- ===== src/Adapters/Server/Listeners.antt =====
-- Which listeners the servers of server.go and grpc_provider.go serve.
use ephemos.Base.{ℕ, ◌≡◌, refl, true, Option, none, some, Result, err}
use ephemos.Adapters.Server.{
  api_adapter, ServerError, not_an_adapter, GrpcServer, start_grpc, extract_net_listener,
}

-- Whether a server runs.
abbrev pub IsRunning : Option GrpcServer → Type 0
IsRunning none = ⊥
IsRunning (some g) = g.serving ≡ true

refused : (g : GrpcServer) (l : ℕ) → start_grpc (some (api_adapter l)) g ≡ (g, err not_an_adapter)
unfolding start_grpc extract_net_listener
refused g l = refl

abbrev pub Refused : Option GrpcServer × Result ServerError ℕ → Option GrpcServer → Type 0
Refused (left, r) s = ((e : ServerError) × (r ≡ err e)) × (IsRunning left → IsRunning s)
