-- ===== src/Tunnel/Manager/Leak.antt =====
-- Which ports tunnel/manager.rs gives back: `close_tunnel` does, `shutdown` does not.
use crabby_proxy.Prelude.{
  ℕ, ◌≡◌, ◌≢◌, ◌<◌, refl, true, false, Option, some, List, [], ◌∷◌, arith, contains, contains-count,
  Result, err,
}
use crabby_proxy.Prelude.HashMap
use crabby_proxy.Prelude.HashMap.{get-insert, get-remove, map_laws}
use crabby_proxy.Net.{SocketAddr}
use crabby_proxy.Connection.Types.{ServiceType}
use crabby_proxy.Tunnel.Error.{tunnel_not_found, port_in_use, from_alloc_error}
use crabby_proxy.Tunnel.PortAllocator
use crabby_proxy.Tunnel.PortAllocator.{
  PortAllocator, PortAllocError, allocate_port, allocate_specific, release_port, is_allocated,
  is_in_range,
}
use crabby_proxy.Tunnel.PortAllocator.Invariant.{IsValid}
use crabby_proxy.Tunnel.PortAllocator.Refinement.{Allocates, granted, allocate_port-Allocates}
use crabby_proxy.Tunnel.Manager.{
  TunnelManager, Fresh, open_tunnel, create_reverse_tunnel, close_tunnel, shutdown, new,
}
use crabby_proxy.Tunnel.Manager.Invariant.{
  Call, creates, closes, shuts_down, step, run, is_active, IsSound, unchanged, step-IsSound,
  run-IsSound, new-IsSound,
}
use crabby_proxy.Tunnel.Manager.Outcomes.{close_tunnel-Closed}

-- In use in the allocator, with no tunnel.
pub record Leaked (p : ℕ) (m : TunnelManager) : Type 0 where
  pub held : is_allocated m.port_allocator p ≡ true
  pub closed : is_active m p ≡ false

open_tunnel-Leaked :
    (p : ℕ) (service : ServiceType) (addr : SocketAddr) (fresh : Fresh) (m : TunnelManager)
    (a : PortAllocator) {preferred : Option ℕ} (r : Result ℕ PortAllocError)
    → Leaked p m
    → Allocates m.port_allocator.min_port m.port_allocator.max_port
        (is_allocated m.port_allocator)
        (is_allocated a)
        preferred
        r
    → Leaked p (open_tunnel service addr fresh r (record m { port_allocator = a })).1
unfolding open_tunnel
open_tunnel-Leaked p service addr fresh m a r k (granted q wish w free used) = record {
  held = ground (arith, used p, k.held);
  closed = simp map_laws (ground (arith, k.held, k.closed));
}
open_tunnel-Leaked p service addr fresh m a (err e) k spec = record {
  held = ground (arith, k.held, unchanged spec p);
  closed = k.closed;
}

step-Leaked : (p : ℕ) (m : TunnelManager) (c : Call) → IsSound m → Leaked p m → Leaked p (step m c)
unfolding step create_reverse_tunnel shutdown HashMap.get
step-Leaked p m (creates service preferred addr fresh) s k =
    open_tunnel-Leaked p service addr fresh m _ _ k
      (allocate_port-Allocates preferred m.port_allocator s.allocator)
step-Leaked p m (closes port) s k = record {
  held = ground (arith, (close_tunnel-Closed port m s).used p, k.held, k.closed);
  closed = ground (arith, (close_tunnel-Closed port m s).tunnels p, k.closed);
}
step-Leaked p m shuts_down s k = record { held = k.held; closed = refl }

run-Leaked :
    (p : ℕ) (m : TunnelManager) (cs : List Call) → IsSound m → Leaked p m → Leaked p (run m cs)
unfolding run
run-Leaked p m [] s k = k
run-Leaked p m (c ∷ cs) s k =
    run-Leaked p (step m c) cs (step-IsSound m c s) (step-Leaked p m c s k)

taken_answer :
    (p : ℕ) (a : PortAllocator)
    → IsValid a
    → is_allocated a p ≡ true
    → (allocate_port (some p) a).0 ≡ err (PortAllocError.port_unavailable p)
unfolding allocate_port allocate_specific is_allocated is_in_range
taken_answer p a v used = ground (arith, v.partition p, contains-count a.allocated_ports p)

create_reverse_tunnel-taken :
    (service : ServiceType) (addr : SocketAddr) (fresh : Fresh) (p : ℕ) (m : TunnelManager)
    → IsSound m
    → is_allocated m.port_allocator p ≡ true
    → (create_reverse_tunnel service (some p) addr fresh m).0 ≡ err (port_in_use p)
unfolding create_reverse_tunnel open_tunnel from_alloc_error
create_reverse_tunnel-taken service addr fresh p m s used =
    rw (taken_answer p m.port_allocator s.allocator used, open_tunnel)

-- `shutdown` does not release ports: on a sound manager, a port with a tunnel when it is called can
-- never again be closed (`TunnelNotFound`) nor be had for a new tunnel (`PortInUse`), whatever calls
-- follow.
pub shutdown_leaks :
    (m : TunnelManager) (p : ℕ) (cs : List Call) (service : ServiceType) (addr : SocketAddr)
    (fresh : Fresh)
    → IsSound m
    → is_active m p ≡ true
    → let m' = run (shutdown m).0 cs in
      ((close_tunnel p m').0 ≡ err (tunnel_not_found p))
      × ((create_reverse_tunnel service (some p) addr fresh m').0 ≡ err (port_in_use p))
shutdown_leaks m p cs service addr fresh s active = (
  ground (arith, (close_tunnel-Closed p _ sound).answer, leaked.closed),
  create_reverse_tunnel-taken service addr fresh p _ sound leaked.held,
)
  where
    down : Leaked p (step m shuts_down)
    down = unfold step shutdown HashMap.get in record { held = s.held p active; closed = refl }

    sound : IsSound (run (shutdown m).0 cs)
    sound = unfold step in run-IsSound (step m shuts_down) cs (step-IsSound m shuts_down s)

    leaked : Leaked p (run (shutdown m).0 cs)
    leaked = unfold step in run-Leaked p (step m shuts_down) cs (step-IsSound m shuts_down s) down

-- No port is in use without a tunnel.
pub record IsExact (m : TunnelManager) : Type 0 where
  pub sound : IsSound m
  pub exact : (p : ℕ) → is_allocated m.port_allocator p ≡ is_active m p

open_tunnel-exact :
    (service : ServiceType) (addr : SocketAddr) (fresh : Fresh) (m : TunnelManager)
    (a : PortAllocator) {preferred : Option ℕ} (r : Result ℕ PortAllocError)
    → ((p : ℕ) → is_allocated m.port_allocator p ≡ is_active m p)
    → Allocates m.port_allocator.min_port m.port_allocator.max_port
        (is_allocated m.port_allocator)
        (is_allocated a)
        preferred
        r
    → (p : ℕ)
    → is_allocated
        (open_tunnel service addr fresh r (record m { port_allocator = a })).1.port_allocator
        p
      ≡ is_active (open_tunnel service addr fresh r (record m { port_allocator = a })).1 p
unfolding open_tunnel
open_tunnel-exact service addr fresh m a r x (granted q wish w free used) p =
    simp map_laws (ground (arith, used p, x p))
open_tunnel-exact service addr fresh m a (err e) x spec p = ground (arith, unchanged spec p, x p)

abbrev pub NoShutdown : List Call → Type 0
NoShutdown [] = Unit {0}
NoShutdown (c ∷ cs) = (c ≢ shuts_down) × NoShutdown cs

step-IsExact : (m : TunnelManager) (c : Call) → c ≢ shuts_down → IsExact m → IsExact (step m c)
unfolding step create_reverse_tunnel
step-IsExact m (creates service preferred addr fresh) n x = record {
  sound = step-IsSound m (creates service preferred addr fresh) x.sound;
  exact =
      open_tunnel-exact service addr fresh m _ _ x.exact
        (allocate_port-Allocates preferred m.port_allocator x.sound.allocator);
}
step-IsExact m (closes port) n x = record {
  sound = step-IsSound m (closes port) x.sound;
  exact = λ p. ground (
    arith,
    (close_tunnel-Closed port m x.sound).used p,
    (close_tunnel-Closed port m x.sound).tunnels p,
    x.exact p,
  );
}
step-IsExact m shuts_down n x = absurd (n refl)

run-IsExact : (m : TunnelManager) (cs : List Call) → NoShutdown cs → IsExact m → IsExact (run m cs)
unfolding run
run-IsExact m [] n x = x
run-IsExact m (c ∷ cs) n x = run-IsExact (step m c) cs n.1 (step-IsExact m c n.0 x)

new-exact :
    (lo hi : ℕ) (m : TunnelManager)
    → new lo hi ≡ some m
    → (p : ℕ) → is_allocated m.port_allocator p ≡ is_active m p
unfolding new PortAllocator.new is_allocated contains HashMap.get
new-exact lo hi m e p = ground arith

-- After any calls of `create_reverse_tunnel` and `close_tunnel`, but not of `shutdown`, on a new manager,
-- it is sound, and the allocated ports are exactly those with an open tunnel.
pub run-new-IsExact :
    (lo hi : ℕ) (m : TunnelManager) (cs : List Call)
    → hi < 65536
    → new lo hi ≡ some m
    → NoShutdown cs
    → IsExact (run m cs)
run-new-IsExact lo hi m cs fits e n =
    run-IsExact m cs n (record { sound = new-IsSound lo hi m fits e; exact = new-exact lo hi m e })
