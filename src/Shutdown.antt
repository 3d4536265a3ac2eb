-- ===== src/Shutdown.antt =====
-- internal/shutdown/coordinator.go: what is registered, and one shutdown. A server, a client, a listener
-- and a cleanup function is a number that names it; `none` is nil.
pub mod Run
pub mod Once
pub mod Threads
pub mod Errors
pub mod Causes
pub mod Bound
use ephemos.Base.{Bool, true, false, Option, none, some, List, [], ◌∷◌, ◌++◌, if◌then◌else◌}
use ephemos.Base.Int.{pos}
use ephemos.GoTime.{Duration}
use ephemos.Base.{ℕ}

abbrev pub Resource : Type 0
Resource = ℕ

pub record Config : Type 0 where
  pub grace_period : Duration
  pub drain_timeout : Duration
  pub force_timeout : Duration

abbrev pub default_config : Config
default_config = record {
  grace_period = pos 30_000_000_000;
  drain_timeout = pos 20_000_000_000;
  force_timeout = pos 45_000_000_000;
}

pub record Coordinator : Type 0 where
  pub config : Config
  pub servers : List Resource
  pub clients : List Resource
  pub listeners : List Resource
  pub cleanup_funcs : List Resource
  -- Whether `shutdownOnce` has run.
  pub shutdown_once : Bool
  pub is_shutting_down : Bool

-- `NewCoordinator`.
unfoldable pub new_coordinator : Option Config → Coordinator
new_coordinator config = record {
  config = elim config [ none ↦ default_config | some c ↦ c ];
  servers = [];
  clients = [];
  listeners = [];
  cleanup_funcs = [];
  shutdown_once = false;
  is_shutting_down = false;
}

-- What a registration leaves of a list.
abbrev added : Bool → List Resource → Option Resource → List Resource
added shutting_down rs none = rs
added shutting_down rs (some r) = if shutting_down then rs else rs ++ (r ∷ [])

unfoldable pub register_server : Option Resource → Coordinator → Coordinator
register_server r c = record c { servers = added c.is_shutting_down c.servers r }

unfoldable pub register_client : Option Resource → Coordinator → Coordinator
register_client r c = record c { clients = added c.is_shutting_down c.clients r }

unfoldable pub register_listener : Option Resource → Coordinator → Coordinator
register_listener r c = record c { listeners = added c.is_shutting_down c.listeners r }

unfoldable pub register_cleanup_func : Option Resource → Coordinator → Coordinator
register_cleanup_func r c = record c { cleanup_funcs = added c.is_shutting_down c.cleanup_funcs r }
