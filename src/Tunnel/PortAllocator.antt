-- ===== src/Tunnel/PortAllocator.antt =====
-- tunnel/port_allocator.rs. A `u16` is a number below 65536; the `HashSet` of allocated ports and
-- the `VecDeque` of available ones are lists, the front of the deque first. A panic is `none`.
pub mod Invariant
pub mod Refinement
pub mod Order
use crabby_proxy.Prelude.{
  ℕ, ◌+◌, ◌-◌, Bool, not, ◌||◌, ◌&&◌, Option, none, some, List, [], ◌∷◌, ◌++◌, ltb, leb, ◌==◌,
  if◌then◌else◌, length, Result, ok, err, contains, without, insert_new, range_from,
}

pub data PortAllocError : Type 0 where
  port_out_of_range : ℕ → ℕ → ℕ → PortAllocError
  port_unavailable : ℕ → PortAllocError
  no_ports_available : ℕ → ℕ → PortAllocError
  port_not_allocated : ℕ → PortAllocError

pub record PortAllocator : Type 0 where
  pub min_port : ℕ
  pub max_port : ℕ
  pub allocated_ports : List ℕ
  pub available_ports : List ℕ
  pub next_port : ℕ

-- `none` is the panic of an `assert!`.
unfoldable pub new : ℕ → ℕ → Option PortAllocator
new min_port max_port =
    if not (ltb 0 min_port)
    then none
    else if not (leb min_port max_port)
    then none
    else some (record {
      min_port = min_port;
      max_port = max_port;
      allocated_ports = [];
      available_ports = range_from (max_port + 1 - min_port) min_port;
      next_port = min_port;
    })

unfoldable pub allocate_specific : ℕ → PortAllocator → Result ℕ PortAllocError × PortAllocator
allocate_specific port a =
    if ltb port a.min_port || ltb a.max_port port
    then (err (port_out_of_range port a.min_port a.max_port), a)
    else if contains a.allocated_ports port
    then (err (port_unavailable port), a)
    else (
      ok port,
      record a {
        allocated_ports = insert_new port a.allocated_ports;
        available_ports = without port a.available_ports;
      },
    )

-- The `pop_front` of `available_ports`, with the queue as an argument.
take_front : List ℕ → PortAllocator → Result ℕ PortAllocError × PortAllocator
take_front [] a = (err (no_ports_available a.min_port a.max_port), a)
take_front (port ∷ rest) a = (
  ok port,
  record a {
    allocated_ports = insert_new port a.allocated_ports;
    available_ports = rest;
    next_port = if port == a.max_port then a.min_port else port + 1;
  },
)

unfoldable pub allocate_next : PortAllocator → Result ℕ PortAllocError × PortAllocator
unfolding take_front
allocate_next a = take_front a.available_ports a

unfoldable pub allocate_port : Option ℕ → PortAllocator → Result ℕ PortAllocError × PortAllocator
allocate_port (some port) a = allocate_specific port a
allocate_port none a = allocate_next a

unfoldable pub release_port : ℕ → PortAllocator → Result (Unit {0}) PortAllocError × PortAllocator
release_port port a =
    if not (contains a.allocated_ports port) then (err (port_not_allocated port), a) else (
      ok tt,
      record a {
        allocated_ports = without port a.allocated_ports;
        available_ports =
            if ltb port a.next_port
            then port ∷ a.available_ports
            else a.available_ports ++ port ∷ [];
      },
    )

unfoldable pub is_allocated : PortAllocator → ℕ → Bool
is_allocated a port = contains a.allocated_ports port

unfoldable pub is_in_range : PortAllocator → ℕ → Bool
is_in_range a port = leb a.min_port port && leb port a.max_port

unfoldable pub available_count : PortAllocator → ℕ
available_count a = length a.available_ports

unfoldable pub allocated_count : PortAllocator → ℕ
allocated_count a = length a.allocated_ports
