-- ===== src/Tunnel/Manager/Outcomes.antt =====
-- What the calls of tunnel/manager.rs answer and leave behind.
use crabby_proxy.Prelude.{
  ℕ, ◌≡◌, refl, true, false, ◌||◌, ◌&&◌, Option, none, some, List, [], ◌∷◌, ◌==◌, if◌then◌else◌,
  Option-cases, inl, inr, arith, Result, ok, err,
}
use crabby_proxy.Prelude.HashMap
use crabby_proxy.Prelude.HashMap.{get-insert, get-remove, map_laws}
use crabby_proxy.Net.{SocketAddr}
use crabby_proxy.Connection.Types.{ServiceType}
use crabby_proxy.Tunnel.Error.{TunnelError, tunnel_not_found}
use crabby_proxy.Tunnel.PortAllocator.{PortAllocator, PortAllocError, is_allocated}
use crabby_proxy.Tunnel.PortAllocator.Refinement.{
  Allocates, granted, Releases, released, refused, Within, allocate_port-Allocates,
  release_port-Releases,
}
use crabby_proxy.Tunnel.Manager.{
  TunnelManager, Fresh, or_default, open_tunnel, create_reverse_tunnel, abort_tasks, close_tunnel,
}
use crabby_proxy.Tunnel.Manager.Invariant.{is_active, IsSound, create_reverse_tunnel-IsSound}

-- The whole answer of `close_tunnel`: what it says, what it aborts, what stays open and in use.
pub record Closed (port : ℕ) (m : TunnelManager)
    (r : Result (Unit {0}) TunnelError × TunnelManager × List ℕ) : Type 0 where
  pub answer : r.0 ≡ (if is_active m port then ok tt else err (tunnel_not_found port))
  pub aborted : r.2 ≡ or_default (HashMap.get port m.tasks)
  pub tunnels :
      (q : ℕ)
      → HashMap.get q r.1.active_tunnels
        ≡ (if port == q then none else HashMap.get q m.active_tunnels)
  pub tasks :
      (q : ℕ) → HashMap.get q r.1.tasks ≡ (if port == q then none else HashMap.get q m.tasks)
  pub used :
      (q : ℕ)
      → is_allocated r.1.port_allocator q
        ≡ (if is_active m port && port == q then false else is_allocated m.port_allocator q)

abort_tasks-Closed :
    (port : ℕ) (m : TunnelManager) (a : PortAllocator) (r : Result (Unit {0}) PortAllocError)
    → IsSound m
    → is_active m port ≡ true
    → Releases (is_allocated m.port_allocator) (is_allocated a) port r
    → Closed port m (
        abort_tasks port r
          (record m { active_tunnels = HashMap.remove port m.active_tunnels; port_allocator = a }))
unfolding abort_tasks
abort_tasks-Closed port m a r s here (released used used') = record {
  answer = ground arith;
  aborted = refl;
  tunnels = λ q. get-remove port q m.active_tunnels;
  tasks = λ q. get-remove port q m.tasks;
  used = λ q. ground (arith, used' q);
}
abort_tasks-Closed port m a r s here (refused free used') = absurd (ground (arith, s.held port))

-- On a sound manager `close_tunnel` succeeds exactly if the port has a tunnel and is otherwise
-- `TunnelNotFound` (so never `PortReleaseError`). It aborts the tasks of the port and no others, takes
-- the entries of the port alone out of both maps, and frees the port alone.
pub close_tunnel-Closed :
    (port : ℕ) (m : TunnelManager) → IsSound m → Closed port m (close_tunnel port m)
unfolding close_tunnel
close_tunnel-Closed port m s = elim (Option-cases (HashMap.get port m.active_tunnels)) [
  | inl e ↦
      rw (e, close_tunnel)
        (record {
          answer = rw e;
          aborted = ground (arith, s.tasked port);
          tunnels = λ q. ground arith;
          tasks = λ q. ground (arith, s.tasked port);
          used = λ q. ground arith;
        })
  | inr (t, e) ↦
      rw (e, close_tunnel)
        (abort_tasks-Closed port m _ _ s (rw e) (release_port-Releases port m.port_allocator))
]

-- A granted `create_reverse_tunnel`: the port was free, it is in range, and it alone changes.
pub record Opened (service : ServiceType) (addr : SocketAddr) (fresh : Fresh) (m m' : TunnelManager)
    (port : ℕ) : Type 0 where
  pub within : Within m.port_allocator.min_port m.port_allocator.max_port port
  pub was_free : is_allocated m.port_allocator port ≡ false
  pub tunnels :
      (q : ℕ)
      → HashMap.get q m'.active_tunnels ≡ (
          if port == q
          then some (record {
            tunnel_id = fresh.tunnel_id;
            client_id = fresh.client_id;
            listen_port = port;
            target_addr = addr;
            service_type = service;
            created_at = fresh.now;
          })
          else HashMap.get q m.active_tunnels)
  pub tasks :
      (q : ℕ)
      → HashMap.get q m'.tasks
        ≡ (if port == q then some (fresh.handle ∷ []) else HashMap.get q m.tasks)
  pub used :
      (q : ℕ) → is_allocated m'.port_allocator q ≡ (port == q || is_allocated m.port_allocator q)

open_tunnel-Opened :
    (service : ServiceType) (addr : SocketAddr) (fresh : Fresh) (m : TunnelManager)
    (a : PortAllocator) (port : ℕ) {preferred : Option ℕ} (r : Result ℕ PortAllocError)
    → IsSound m
    → Allocates m.port_allocator.min_port m.port_allocator.max_port
        (is_allocated m.port_allocator)
        (is_allocated a)
        preferred
        r
    → r ≡ ok port
    → Opened service addr fresh m
        (open_tunnel service addr fresh r (record m { port_allocator = a })).1
        port
unfolding open_tunnel
open_tunnel-Opened service addr fresh m a port (ok p) s (granted p' wish w free used) e = record {
  within = ground arith;
  was_free = ground arith;
  tunnels = λ q. simp map_laws (ground arith);
  tasks = λ q. simp map_laws (ground (arith, no_tasks));
  used = λ q. ground (arith, used q);
}
  where
    no_tasks : HashMap.get p m.tasks ≡ none
    no_tasks = ground (arith, s.tasked p, s.held p)
open_tunnel-Opened service addr fresh m a port (err x) s spec e = cc

answer-open_tunnel :
    (service : ServiceType) (addr : SocketAddr) (fresh : Fresh) (r : Result ℕ PortAllocError)
    (m : TunnelManager) (port : ℕ)
    → (open_tunnel service addr fresh r m).0 ≡ ok port
    → r ≡ ok port
unfolding open_tunnel
answer-open_tunnel service addr fresh (ok p) m port e = ground arith
answer-open_tunnel service addr fresh (err x) m port e = cc

-- When `create_reverse_tunnel` on a sound manager returns a port, the port is in range and was not
-- allocated; under it now stand the tunnel that was asked for and one task; the port is allocated; and
-- nothing changes for any other port.
pub create_reverse_tunnel-Opened :
    (service : ServiceType) (preferred : Option ℕ) (addr : SocketAddr) (fresh : Fresh)
    (m : TunnelManager) (port : ℕ)
    → IsSound m
    → (create_reverse_tunnel service preferred addr fresh m).0 ≡ ok port
    → Opened service addr fresh m (create_reverse_tunnel service preferred addr fresh m).1 port
unfolding create_reverse_tunnel
create_reverse_tunnel-Opened service preferred addr fresh m port s e =
    open_tunnel-Opened service addr fresh m _ port _ s
      (allocate_port-Allocates preferred m.port_allocator s.allocator)
      (answer-open_tunnel service addr fresh _ _ port e)

-- Closing the tunnel that was just created on a sound manager succeeds, aborts its one task, and brings
-- back the tunnels and the ports in use from before.
pub close_tunnel-create_reverse_tunnel :
    (service : ServiceType) (preferred : Option ℕ) (addr : SocketAddr) (fresh : Fresh)
    (m : TunnelManager) (port : ℕ)
    → IsSound m
    → (create_reverse_tunnel service preferred addr fresh m).0 ≡ ok port
    → let m' = (create_reverse_tunnel service preferred addr fresh m).1 in
      ((close_tunnel port m').0 ≡ ok tt)
      × ((close_tunnel port m').2 ≡ fresh.handle ∷ [])
      × ((q : ℕ)
          → HashMap.get q (close_tunnel port m').1.active_tunnels ≡ HashMap.get q m.active_tunnels)
      × ((q : ℕ)
          → is_allocated (close_tunnel port m').1.port_allocator q
            ≡ is_allocated m.port_allocator q)
close_tunnel-create_reverse_tunnel service preferred addr fresh m port s e = (
  ground (arith, closed.answer, opened.tunnels port),
  ground (arith, closed.aborted, opened.tasks port),
  λ q. ground (arith, closed.tunnels q, opened.tunnels q, absent),
  λ q. ground (arith, closed.used q, opened.tunnels port, opened.used q, opened.was_free),
)
  where
    opened :
        Opened service addr fresh m (create_reverse_tunnel service preferred addr fresh m).1 port
    opened = create_reverse_tunnel-Opened service preferred addr fresh m port s e

    closed :
        Closed port
          (create_reverse_tunnel service preferred addr fresh m).1
          (close_tunnel port (create_reverse_tunnel service preferred addr fresh m).1)
    closed =
        close_tunnel-Closed port _ (create_reverse_tunnel-IsSound service preferred addr fresh m s)

    absent : HashMap.get port m.active_tunnels ≡ none
    absent = ground (arith, s.held port, opened.was_free)
