-- ===== src/Adapters/Client/Peers.antt =====
-- Whom api/client.go authorizes.
use ephemos.Domain.ServiceName.{ServiceName}
