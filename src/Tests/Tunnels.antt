-- ===== src/Tests/Tunnels.antt =====
-- tunnel/manager.rs: one tunnel from a manager with one port.
use crabby_proxy.Prelude.{ℕ, ◌≡◌, refl, none, some, List, [], ◌∷◌, ok, err, arith, range_from}
use crabby_proxy.Prelude.HashMap
use crabby_proxy.Net.{SocketAddr, v4}
use crabby_proxy.Connection.Types.{ssh_service}
use crabby_proxy.Tunnel.Error.{tunnel_not_found, port_in_use}
use crabby_proxy.Tunnel.PortAllocator
use crabby_proxy.Tunnel.PortAllocator.{PortAllocator, allocate_port, allocate_next, is_allocated}
use crabby_proxy.Tunnel.Manager.{
  TunnelManager, Fresh, new, create_reverse_tunnel, close_tunnel, shutdown,
}
use crabby_proxy.Tunnel.Manager.Invariant.{
  Call, creates, closes, shuts_down, run, IsSound, new-IsSound, run-IsSound, run-new-IsSound,
}
use crabby_proxy.Tunnel.Manager.Outcomes.{
  Closed, close_tunnel-Closed, Opened, create_reverse_tunnel-Opened,
  close_tunnel-create_reverse_tunnel,
}
use crabby_proxy.Tunnel.Manager.Leak.{shutdown_leaks, IsExact, run-new-IsExact}

abbrev ports : PortAllocator
ports = record {
  min_port = 9000;
  max_port = 9001;
  allocated_ports = [];
  available_ports = 9000 ∷ 9001 ∷ [];
  next_port = 9000;
}

abbrev empty : TunnelManager
empty = record { active_tunnels = []; port_allocator = ports; tasks = [] }

new_is_empty : new 9000 9001 ≡ some empty
unfolding new PortAllocator.new range_from
new_is_empty = refl

abbrev supplied : Fresh
supplied = record { tunnel_id = 1; client_id = 2; now = 3; handle = 4 }

abbrev peer : SocketAddr
peer = v4 (10 ∷ 0 ∷ 0 ∷ 7 ∷ []) 22

abbrev creation : Call
creation = creates ssh_service none peer supplied

run-new-IsSound_example : IsSound (run empty (creation ∷ closes 9000 ∷ shuts_down ∷ []))
run-new-IsSound_example = run-new-IsSound 9000 9001 empty _ (omega arith) new_is_empty

empty-IsSound : IsSound empty
empty-IsSound = new-IsSound 9000 9001 empty (omega arith) new_is_empty

close_tunnel-Closed_example : Closed 9000 empty (close_tunnel 9000 empty)
close_tunnel-Closed_example = close_tunnel-Closed 9000 empty empty-IsSound

created : (create_reverse_tunnel ssh_service none peer supplied empty).0 ≡ ok 9000
unfolding create_reverse_tunnel allocate_port allocate_next
created = refl

create_reverse_tunnel-Opened_example :
    Opened ssh_service peer supplied empty
      (create_reverse_tunnel ssh_service none peer supplied empty).1
      9000
create_reverse_tunnel-Opened_example =
    create_reverse_tunnel-Opened ssh_service none peer supplied empty 9000 empty-IsSound created

close_tunnel-create_reverse_tunnel_example :
    let m' = (create_reverse_tunnel ssh_service none peer supplied empty).1 in
    ((close_tunnel 9000 m').0 ≡ ok tt)
    × ((close_tunnel 9000 m').2 ≡ 4 ∷ [])
    × ((q : ℕ) → HashMap.get q (close_tunnel 9000 m').1.active_tunnels ≡ HashMap.get q [])
    × ((q : ℕ) → is_allocated (close_tunnel 9000 m').1.port_allocator q ≡ is_allocated ports q)
close_tunnel-create_reverse_tunnel_example =
    close_tunnel-create_reverse_tunnel ssh_service none peer supplied empty 9000 empty-IsSound
      created

abbrev later : List Call
later = closes 9000 ∷ creation ∷ []

abbrev opened : TunnelManager
opened = run empty (creation ∷ [])

shutdown_leaks_example :
    ((close_tunnel 9000 (run (shutdown opened).0 later)).0 ≡ err (tunnel_not_found 9000))
    × ((create_reverse_tunnel ssh_service
          (some 9000)
          peer
          supplied
          (run (shutdown opened).0 later)).0
        ≡ err (port_in_use 9000))
unfolding run create_reverse_tunnel allocate_port allocate_next HashMap.get HashMap.insert
    HashMap.remove
shutdown_leaks_example =
    shutdown_leaks opened 9000 later ssh_service peer supplied
      (run-IsSound empty (creation ∷ []) empty-IsSound) refl

run-new-IsExact_example : IsExact (run empty (creation ∷ closes 9000 ∷ creation ∷ []))
run-new-IsExact_example =
    run-new-IsExact 9000 9001 empty _ (omega arith) new_is_empty
      ((λ e. cc), ((λ e. cc), ((λ e. cc), tt)))
