-- ===== src/Tests/Ports.antt =====
-- tunnel/port_allocator.rs at the range 10..=12.
use crabby_proxy.Prelude.{
  range_from, contains, ◌++◌, ℕ, ◌+◌, ◌≤◌, ◌≡◌, ◌↔◌, refl, true, none, some, List, [], ◌∷◌, is_ok,
  arith,
}
use crabby_proxy.Tunnel.PortAllocator.{
  PortAllocator, new, allocate_port, release_port, is_allocated, allocated_count,
}
use crabby_proxy.Tunnel.PortAllocator.Invariant.{
  Call, allocate, release, run, IsValid, new-IsValid, run-new-IsValid,
}
use crabby_proxy.Tunnel.PortAllocator.Refinement.{
  Allocates, Releases, allocate_port-Allocates, release_port-Releases, allocate_next-is_ok,
}
use crabby_proxy.Tunnel.PortAllocator.Order.{
  allocations, releases, below, not_below, one_by_one, allocations-releases,
}

abbrev fresh : PortAllocator
fresh = record {
  min_port = 10;
  max_port = 12;
  allocated_ports = [];
  available_ports = 10 ∷ 11 ∷ 12 ∷ [];
  next_port = 10;
}

new_is_fresh : new 10 12 ≡ some fresh
unfolding new range_from
new_is_fresh = refl

abbrev history : List Call
history = allocate none ∷ allocate (some 12) ∷ release 10 ∷ allocate (some 99) ∷ []

run-new-IsValid_example : IsValid (run fresh history)
run-new-IsValid_example = run-new-IsValid 10 12 fresh history (omega arith) new_is_fresh

fresh-IsValid : IsValid fresh
fresh-IsValid = new-IsValid 10 12 fresh (omega arith) new_is_fresh

allocate_port-Allocates_example :
    Allocates 10 12
      (is_allocated fresh)
      (is_allocated (allocate_port (some 11) fresh).1)
      (some 11)
      (allocate_port (some 11) fresh).0
allocate_port-Allocates_example = allocate_port-Allocates (some 11) fresh fresh-IsValid

release_port-Releases_example :
    Releases
      (is_allocated fresh)
      (is_allocated (release_port 10 fresh).1)
      10
      (release_port 10 fresh).0
release_port-Releases_example = release_port-Releases 10 fresh

allocate_next-is_ok_example :
    (is_ok (allocate_port none fresh).0 ≡ true) ↔ (allocated_count fresh + 10 ≤ 12)
allocate_next-is_ok_example = allocate_next-is_ok fresh fresh-IsValid

-- Ports 10, 11 and 13 in use, and port 12 next.
abbrev crowded : PortAllocator
crowded = record {
  min_port = 10;
  max_port = 13;
  allocated_ports = 13 ∷ 11 ∷ 10 ∷ [];
  available_ports = 12 ∷ [];
  next_port = 12;
}

abbrev ports : List ℕ
ports = 10 ∷ 13 ∷ 11 ∷ []

allocations-releases_example :
    allocations 5 (releases ports crowded)
    ≡ one_by_one crowded (below 12 ports ++ (12 ∷ [] ++ not_below 12 ports))
unfolding is_allocated contains
allocations-releases_example =
    allocations-releases ports crowded (refl, refl, (refl, refl, (refl, refl, tt)))
