-- ===== src/Tunnel/Manager/Invariant.antt =====
-- What every manager of tunnel/manager.rs keeps true of its two maps and its allocator.
use crabby_proxy.Prelude.{
  ℕ, ◌≡◌, ◌<◌, refl, Bool, true, Option, some, List, [], ◌∷◌, is_some, Option-cases, inl, inr,
  arith, Result, err,
}
use crabby_proxy.Prelude.HashMap
use crabby_proxy.Prelude.HashMap.{get-insert, get-remove, map_laws}
use crabby_proxy.Net.{SocketAddr}
use crabby_proxy.Connection.Types.{ServiceType}
use crabby_proxy.Tunnel.PortAllocator
use crabby_proxy.Tunnel.PortAllocator.{
  PortAllocator, PortAllocError, allocate_port, release_port, is_allocated,
}
use crabby_proxy.Tunnel.PortAllocator.Invariant.{
  IsValid, new-IsValid, allocate_port-IsValid, release_port-IsValid,
}
use crabby_proxy.Tunnel.PortAllocator.Refinement.{
  Allocates, granted, outside, taken, exhausted, Releases, released, refused,
  allocate_port-Allocates, release_port-Releases,
}
use crabby_proxy.Tunnel.Manager.{
  TunnelManager, ActiveTunnel, Fresh, new, open_tunnel, create_reverse_tunnel, abort_tasks,
  close_tunnel, shutdown,
}

abbrev pub is_active : TunnelManager → ℕ → Bool
is_active m p = is_some (HashMap.get p m.active_tunnels)

abbrev pub has_tasks : TunnelManager → ℕ → Bool
has_tasks m p = is_some (HashMap.get p m.tasks)

-- An open tunnel holds its port and has its task, and stands under the port that it listens on.
pub record IsSound (m : TunnelManager) : Type 0 where
  pub allocator : IsValid m.port_allocator
  pub held : (p : ℕ) → is_active m p ≡ true → is_allocated m.port_allocator p ≡ true
  pub tasked : (p : ℕ) → has_tasks m p ≡ is_active m p
  pub listens :
      (p : ℕ) (t : ActiveTunnel) → HashMap.get p m.active_tunnels ≡ some t → t.listen_port ≡ p

pub unchanged :
    {lo hi : ℕ} {used used' : ℕ → Bool} {preferred : Option ℕ} {e : PortAllocError}
    → Allocates lo hi used used' preferred (err e)
    → (q : ℕ) → used' q ≡ used q
unchanged (outside p w same) = same
unchanged (taken p w t same) = same
unchanged (exhausted all same) = same

open_tunnel-IsSound :
    (service : ServiceType) (addr : SocketAddr) (fresh : Fresh) (m : TunnelManager)
    (a : PortAllocator) {preferred : Option ℕ} (r : Result ℕ PortAllocError)
    → IsSound m
    → IsValid a
    → Allocates m.port_allocator.min_port m.port_allocator.max_port
        (is_allocated m.port_allocator)
        (is_allocated a)
        preferred
        r
    → IsSound (open_tunnel service addr fresh r (record m { port_allocator = a })).1
unfolding open_tunnel
open_tunnel-IsSound service addr fresh m a r s v (granted p wish w free used) = record {
  allocator = v;
  held = λ q. simp map_laws (ground (arith, s.held q, used q));
  tasked = λ q. simp map_laws (ground (arith, s.tasked q));
  listens = λ q t. simp map_laws (ground (arith, s.listens q t));
}
open_tunnel-IsSound service addr fresh m a (err e) s v spec = record {
  allocator = v;
  held = λ q h. ground (arith, s.held q, unchanged spec q);
  tasked = s.tasked;
  listens = s.listens;
}

pub create_reverse_tunnel-IsSound :
    (service : ServiceType) (preferred : Option ℕ) (addr : SocketAddr) (fresh : Fresh)
    (m : TunnelManager)
    → IsSound m
    → IsSound (create_reverse_tunnel service preferred addr fresh m).1
unfolding create_reverse_tunnel
create_reverse_tunnel-IsSound service preferred addr fresh m s =
    open_tunnel-IsSound service addr fresh m _ _ s
      (allocate_port-IsValid preferred m.port_allocator s.allocator)
      (allocate_port-Allocates preferred m.port_allocator s.allocator)

-- Closing, once the metadata of the port is gone: with the port held, it cannot be refused.
abort_tasks-IsSound :
    (port : ℕ) (m : TunnelManager) (a : PortAllocator) (r : Result (Unit {0}) PortAllocError)
    → IsSound m
    → is_active m port ≡ true
    → IsValid a
    → Releases (is_allocated m.port_allocator) (is_allocated a) port r
    → IsSound
        (abort_tasks port r (record m {
          active_tunnels = HashMap.remove port m.active_tunnels;
          port_allocator = a;
        })).1
unfolding abort_tasks
abort_tasks-IsSound port m a r s here v (released used used') = record {
  allocator = v;
  held = λ q. simp map_laws (ground (arith, s.held q, used' q));
  tasked = λ q. simp map_laws (ground (arith, s.tasked q));
  listens = λ q t. simp map_laws (ground (arith, s.listens q t));
}
abort_tasks-IsSound port m a r s here v (refused free used') = absurd (ground (arith, s.held port))

close_tunnel-IsSound : (port : ℕ) (m : TunnelManager) → IsSound m → IsSound (close_tunnel port m).1
unfolding close_tunnel
close_tunnel-IsSound port m s = elim (Option-cases (HashMap.get port m.active_tunnels)) [
  | inl e ↦ rw (e, close_tunnel) s
  | inr (t, e) ↦
      rw (e, close_tunnel)
        (abort_tasks-IsSound port m _ _ s (rw e)
          (release_port-IsValid port m.port_allocator s.allocator)
          (release_port-Releases port m.port_allocator))
]

shutdown-IsSound : (m : TunnelManager) → IsSound m → IsSound (shutdown m).0
unfolding shutdown HashMap.get
shutdown-IsSound m s = record {
  allocator = s.allocator;
  held = λ q h. cc;
  tasked = λ q. refl;
  listens = λ q t h. cc;
}

-- The calls of a client, with what the outside supplies to each.
pub data Call : Type 0 where
  creates : ServiceType → Option ℕ → SocketAddr → Fresh → Call
  closes : ℕ → Call
  shuts_down : Call

unfoldable pub step : TunnelManager → Call → TunnelManager
step m (creates service preferred addr fresh) =
    (create_reverse_tunnel service preferred addr fresh m).1
step m (closes port) = (close_tunnel port m).1
step m shuts_down = (shutdown m).0

unfoldable pub run : TunnelManager → List Call → TunnelManager
unfolding step
run m [] = m
run m (c ∷ cs) = run (step m c) cs

pub step-IsSound : (m : TunnelManager) (c : Call) → IsSound m → IsSound (step m c)
unfolding step
step-IsSound m (creates service preferred addr fresh) s =
    create_reverse_tunnel-IsSound service preferred addr fresh m s
step-IsSound m (closes port) s = close_tunnel-IsSound port m s
step-IsSound m shuts_down s = shutdown-IsSound m s

pub run-IsSound : (m : TunnelManager) (cs : List Call) → IsSound m → IsSound (run m cs)
unfolding run
run-IsSound m [] s = s
run-IsSound m (c ∷ cs) s = run-IsSound (step m c) cs (step-IsSound m c s)

pub new-IsSound : (lo hi : ℕ) (m : TunnelManager) → hi < 65536 → new lo hi ≡ some m → IsSound m
unfolding new HashMap.get
new-IsSound lo hi m fits e = elim (Option-cases (PortAllocator.new lo hi)) [
  | inl absent ↦ absurd (ground arith)
  | inr (a, made) ↦ record {
    allocator = ground (arith, new-IsValid lo hi a fits made);
    held = λ q h. ground arith;
    tasked = λ q. ground arith;
    listens = λ q t h. ground arith;
  }
]

-- After any calls of `create_reverse_tunnel`, `close_tunnel` and `shutdown` on a new manager, its
-- allocator is valid, each open tunnel stands under the port that it listens on and that port is
-- allocated, and the ports with tasks are those with an open tunnel.
pub run-new-IsSound :
    (lo hi : ℕ) (m : TunnelManager) (cs : List Call)
    → hi < 65536
    → new lo hi ≡ some m
    → IsSound (run m cs)
run-new-IsSound lo hi m cs fits e = run-IsSound m cs (new-IsSound lo hi m fits e)
