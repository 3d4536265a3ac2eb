-- ===== src/Examples/Servers.antt =====
-- A server that is ready to serve.
use ephemos.Base.{true, false, [], ◌∷◌, Result, ok}
use ephemos.GoText.{Text}
use ephemos.Adapters.Server.{GrpcServer}

abbrev ready : GrpcServer
ready = record {
  has_tls = true;
  has_server = true;
  initialized = true;
  serving = false;
  services = 4 ∷ [];
}

abbrev made : Result Text GrpcServer
made = ok ready
