-- ===== src/Tunnel/PortAllocator/Invariant.antt =====
-- What every allocator of tunnel/port_allocator.rs keeps true.
use crabby_proxy.Prelude.{
  ℕ, ◌+◌, ◌-◌, ◌≤◌, ◌<◌, ◌≡◌, refl, Option, none, some, List, [], ◌∷◌, ◌==◌, if◌then◌else◌, count,
  insert_new, count-nil, count-cons, count-append, contains-count, count-without, length-without,
  length-append, count-range_from, length-range_from, arith,
}
use crabby_proxy.Tunnel.PortAllocator.{
  PortAllocator, new, allocate_specific, allocate_next, take_front, allocate_port, release_port,
  is_in_range, available_count, allocated_count,
}

pub record IsValid (a : PortAllocator) : Type 0 where
  pub positive : 0 < a.min_port
  pub ordered : a.min_port ≤ a.max_port
  pub fits : a.max_port < 65536
  pub next_low : a.min_port ≤ a.next_port
  pub next_high : a.next_port ≤ a.max_port
  pub partition :
      (p : ℕ)
      → count p a.allocated_ports + count p a.available_ports ≡ (if is_in_range a p then 1 else 0)
  pub total : allocated_count a + available_count a + a.min_port ≡ a.max_port + 1

pub new-IsValid : (lo hi : ℕ) (a : PortAllocator) → hi < 65536 → new lo hi ≡ some a → IsValid a
unfolding new allocated_count available_count is_in_range
new-IsValid lo hi a fits e = record {
  positive = ground arith;
  ordered = ground arith;
  fits = ground arith;
  next_low = ground arith;
  next_high = ground arith;
  partition = λ p. ground (arith, count-nil p, count-range_from (hi + 1 - lo) lo p);
  total = ground (arith, length-range_from (hi + 1 - lo) lo);
}

pub allocate_specific-IsValid :
    (port : ℕ) (a : PortAllocator) → IsValid a → IsValid (allocate_specific port a).1
unfolding allocate_specific insert_new allocated_count available_count is_in_range
allocate_specific-IsValid port a v = record {
  positive = ground arith;
  ordered = ground arith;
  fits = ground arith;
  next_low = ground arith;
  next_high = ground arith;
  partition = λ p. ground (
    arith,
    v.partition p,
    v.partition port,
    contains-count a.allocated_ports port,
    count-cons p port a.allocated_ports,
    count-without p port a.available_ports,
  );
  total = ground (
    arith,
    v.partition port,
    contains-count a.allocated_ports port,
    length-without port a.available_ports,
  );
}

take_front-IsValid :
    (ports : List ℕ) (a : PortAllocator)
    → a.available_ports ≡ ports
    → IsValid a
    → IsValid (take_front ports a).1
unfolding take_front insert_new allocated_count available_count is_in_range
take_front-IsValid [] a e v = v
take_front-IsValid (port ∷ rest) a e v = record {
  positive = ground arith;
  ordered = ground arith;
  fits = ground arith;
  next_low = ground (arith, v.partition port, here);
  next_high = ground (arith, v.partition port, here);
  partition = λ p. ground (
    arith,
    v.partition p,
    v.partition port,
    here,
    contains-count a.allocated_ports port,
    count-cons p port a.allocated_ports,
    there p,
  );
  total = ground (arith, v.partition port, here, contains-count a.allocated_ports port);
}
  where
    there : (p : ℕ) → count p a.available_ports ≡ (if port == p then 1 else 0) + count p rest
    there p = rw e (count-cons p port rest)

    here : count port a.available_ports ≡ 1 + count port rest
    here = ground (arith, there port)

pub release_port-IsValid :
    (port : ℕ) (a : PortAllocator) → IsValid a → IsValid (release_port port a).1
unfolding release_port allocated_count available_count is_in_range
release_port-IsValid port a v = record {
  positive = ground arith;
  ordered = ground arith;
  fits = ground arith;
  next_low = ground arith;
  next_high = ground arith;
  partition = λ p. ground (
    arith,
    v.partition p,
    v.partition port,
    contains-count a.allocated_ports port,
    count-without p port a.allocated_ports,
    count-cons p port a.available_ports,
    count-append p a.available_ports (port ∷ []),
    count-cons p port [],
    count-nil p,
  );
  total = ground (
    arith,
    v.partition port,
    contains-count a.allocated_ports port,
    length-without port a.allocated_ports,
    length-append a.available_ports (port ∷ []),
  );
}

-- The calls a client can make.
pub data Call : Type 0 where
  allocate : Option ℕ → Call
  release : ℕ → Call

pub step : PortAllocator → Call → PortAllocator
step a (allocate preferred) = (allocate_port preferred a).1
step a (release port) = (release_port port a).1

pub run : PortAllocator → List Call → PortAllocator
run a [] = a
run a (c ∷ cs) = run (step a c) cs

pub allocate_port-IsValid :
    (preferred : Option ℕ) (a : PortAllocator) → IsValid a → IsValid (allocate_port preferred a).1
unfolding allocate_port allocate_next
allocate_port-IsValid none a v = take_front-IsValid a.available_ports a refl v
allocate_port-IsValid (some port) a v = allocate_specific-IsValid port a v

pub run-IsValid : (a : PortAllocator) (cs : List Call) → IsValid a → IsValid (run a cs)
unfolding run step
run-IsValid a [] v = v
run-IsValid a (allocate preferred ∷ cs) v =
    run-IsValid (allocate_port preferred a).1 cs (allocate_port-IsValid preferred a v)
run-IsValid a (release port ∷ cs) v =
    run-IsValid (release_port port a).1 cs (release_port-IsValid port a v)

-- After any calls of `allocate_port` and `release_port` on a new allocator for `lo..=hi`, with `hi`
-- a `u16`, each port of the range is exactly once either allocated or available, no other port is,
-- the two counts add up to the size of the range, and `next_port` lies in the range.
pub run-new-IsValid :
    (lo hi : ℕ) (a : PortAllocator) (cs : List Call)
    → hi < 65536
    → new lo hi ≡ some a
    → IsValid (run a cs)
run-new-IsValid lo hi a cs fits e = run-IsValid a cs (new-IsValid lo hi a fits e)
