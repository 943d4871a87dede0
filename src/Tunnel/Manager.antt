-- ===== src/Tunnel/Manager.antt =====
-- tunnel/manager.rs: reverse tunnels by their port. What the outside supplies to one call, the
-- random identities, the clock and the handle of the spawned task, is a `Fresh` value. The tasks
-- that a call aborts are part of its result.
pub mod Invariant
pub mod Outcomes
pub mod Leak
use crabby_proxy.Prelude.{ℕ, Option, none, some, List, [], ◌∷◌, ◌++◌, Result, ok, err}
use crabby_proxy.Prelude.HashMap
use crabby_proxy.Net.{SocketAddr}
use crabby_proxy.Connection.Types.{ServiceType}
use crabby_proxy.Tunnel.Error.{
  TunnelError, tunnel_not_found, port_release_error, from_alloc_error, alloc_error_to_string,
}
use crabby_proxy.Tunnel.PortAllocator
use crabby_proxy.Tunnel.PortAllocator.{PortAllocator, PortAllocError, allocate_port, release_port}

pub record ActiveTunnel : Type 0 where
  pub tunnel_id : ℕ
  pub client_id : ℕ
  pub listen_port : ℕ
  pub target_addr : SocketAddr
  pub service_type : ServiceType
  pub created_at : ℕ

pub record TunnelManager : Type 0 where
  pub active_tunnels : List (ℕ × ActiveTunnel)
  pub port_allocator : PortAllocator
  pub tasks : List (ℕ × List ℕ)

-- `Uuid::new_v4()` twice, `Utc::now()`, and the `JoinHandle` of `tokio::spawn`.
pub record Fresh : Type 0 where
  pub tunnel_id : ℕ
  pub client_id : ℕ
  pub now : ℕ
  pub handle : ℕ

-- `none` where `PortAllocator::new` panics.
unfoldable pub new : ℕ → ℕ → Option TunnelManager
new start_port end_port = elim (PortAllocator.new start_port end_port) [
  | none ↦ none
  | some a ↦ some (record { active_tunnels = []; port_allocator = a; tasks = [] })
]

-- `entry(port).or_default()` on the map of tasks.
abbrev pub or_default : Option (List ℕ) → List ℕ
or_default none = []
or_default (some handles) = handles

-- `create_reverse_tunnel` after the call of `allocate_port`, with its answer.
pub open_tunnel :
    ServiceType
    → SocketAddr
    → Fresh
    → Result ℕ PortAllocError
    → TunnelManager
    → Result ℕ TunnelError × TunnelManager
open_tunnel service_type client_addr fresh (err e) m = (err (from_alloc_error e), m)
open_tunnel service_type client_addr fresh (ok port) m = (
  ok port,
  record m {
    active_tunnels = HashMap.insert port tunnel m.active_tunnels;
    tasks =
        HashMap.insert port (or_default (HashMap.get port m.tasks) ++ fresh.handle ∷ []) m.tasks;
  },
)
  where
    tunnel : ActiveTunnel
    tunnel = record {
      tunnel_id = fresh.tunnel_id;
      client_id = fresh.client_id;
      listen_port = port;
      target_addr = client_addr;
      service_type = service_type;
      created_at = fresh.now;
    }

unfoldable pub create_reverse_tunnel :
    ServiceType
    → Option ℕ
    → SocketAddr
    → Fresh
    → TunnelManager
    → Result ℕ TunnelError × TunnelManager
unfolding open_tunnel
create_reverse_tunnel service_type preferred_port client_addr fresh m =
    let (r, a) = allocate_port preferred_port m.port_allocator in
    open_tunnel service_type client_addr fresh r (record m { port_allocator = a })

-- `close_tunnel` after the call of `release_port`, with its answer.
pub abort_tasks :
    ℕ
    → Result (Unit {0}) PortAllocError
    → TunnelManager
    → Result (Unit {0}) TunnelError × TunnelManager × List ℕ
abort_tasks port (err e) m = (err (port_release_error port (alloc_error_to_string e)), m, [])
abort_tasks port (ok u) m =
    (ok tt, record m { tasks = HashMap.remove port m.tasks }, or_default (HashMap.get port m.tasks))

-- The answer, the manager, and the handles of the aborted tasks.
unfoldable pub close_tunnel :
    ℕ → TunnelManager → Result (Unit {0}) TunnelError × TunnelManager × List ℕ
unfolding abort_tasks
close_tunnel port m = elim (HashMap.get port m.active_tunnels) [
  | none ↦ (err (tunnel_not_found port), m, [])
  | some tunnel ↦
      let (r, a) = release_port port m.port_allocator in
      abort_tasks port r
        (record m { active_tunnels = HashMap.remove port m.active_tunnels; port_allocator = a })
]

drain : List (ℕ × List ℕ) → List ℕ
drain [] = []
drain ((port, handles) ∷ rest) = handles ++ drain rest

unfoldable pub shutdown : TunnelManager → TunnelManager × List ℕ
unfolding drain
shutdown m = (record m { tasks = []; active_tunnels = [] }, drain m.tasks)
