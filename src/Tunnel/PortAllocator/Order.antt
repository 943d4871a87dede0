-- ===== src/Tunnel/PortAllocator/Order.antt =====
-- In which order tunnel/port_allocator.rs hands out ports. `release_port` says that it maintains sorted
-- order; it pushes at the front or at the back.
use crabby_proxy.Prelude.{
  ℕ, zero, suc, ◌+◌, ◌≡◌, refl, sym, ap, ◌∙◌, true, false, none, List, [], ◌∷◌, ◌++◌, append_assoc,
  append-nil, map, length, length-append, ltb, if◌then◌else◌, contains, without, count-without,
  contains-count, arith, Result, ok, err, Bool-cases, inl, inr,
}
use crabby_proxy.Tunnel.PortAllocator.{
  PortAllocator, PortAllocError, no_ports_available, allocate_next, take_front, allocate_port,
  release_port, is_allocated,
}

-- The answers to `n` calls of `allocate_port` that prefer no port.
pub allocations : ℕ → PortAllocator → List (Result ℕ PortAllocError)
allocations zero a = []
allocations (suc n) a = let (r, a') = allocate_port none a in r ∷ allocations n a'

-- One release after the other.
pub releases : List ℕ → PortAllocator → PortAllocator
releases [] a = a
releases (p ∷ ps) a = releases ps (release_port p a).1

-- Allocated ports, each once.
abbrev pub AreAllocated : PortAllocator → List ℕ → Type 0
AreAllocated a [] = Unit {0}
AreAllocated a (p ∷ ps) = (is_allocated a p ≡ true) × (contains ps p ≡ false) × AreAllocated a ps

-- The ports below `n`, the last first.
pub below : ℕ → List ℕ → List ℕ
below n [] = []
below n (p ∷ ps) = let rest = below n ps in if ltb p n then rest ++ p ∷ [] else rest

-- The other ports, in their order.
pub not_below : ℕ → List ℕ → List ℕ
not_below n [] = []
not_below n (p ∷ ps) = let rest = not_below n ps in if ltb p n then rest else p ∷ rest

-- Each port of a queue, and then no more.
abbrev pub one_by_one : PortAllocator → List ℕ → List (Result ℕ PortAllocError)
one_by_one a queue = map ok queue ++ err (no_ports_available a.min_port a.max_port) ∷ []

allocations-one_by_one :
    (queue : List ℕ) (a : PortAllocator)
    → a.available_ports ≡ queue
    → allocations (suc (length queue)) a ≡ one_by_one a queue
unfolding allocations allocate_port allocate_next take_front
allocations-one_by_one [] a e = rw e refl
allocations-one_by_one (p ∷ ps) a e = rw e (ap (λ rs. ok p ∷ rs) (allocations-one_by_one ps _ refl))

-- The allocator after the release of a port that was allocated.
abbrev freed : ℕ → PortAllocator → PortAllocator
freed p a = record a {
  allocated_ports = without p a.allocated_ports;
  available_ports =
      if ltb p a.next_port then p ∷ a.available_ports else a.available_ports ++ p ∷ [];
}

release_port-freed :
    (p : ℕ) (a : PortAllocator) → is_allocated a p ≡ true → (release_port p a).1 ≡ freed p a
unfolding release_port is_allocated
release_port-freed p a e = rw e refl

-- The other ports stay allocated.
AreAllocated-freed :
    (p : ℕ) (a : PortAllocator) (ps : List ℕ)
    → contains ps p ≡ false
    → AreAllocated a ps
    → AreAllocated (freed p a) ps
unfolding is_allocated contains
AreAllocated-freed p a [] n h = tt
AreAllocated-freed p a (q ∷ qs) n h = (
  ground (
    arith,
    n,
    h.0,
    contains-count a.allocated_ports q,
    contains-count (without p a.allocated_ports) q,
    count-without q p a.allocated_ports,
  ),
  h.1,
  AreAllocated-freed p a qs (ground (arith, n)) h.2,
)

record Requeued (ps : List ℕ) (a b : PortAllocator) : Type 0 where
  queue :
      b.available_ports ≡ below a.next_port ps ++ (a.available_ports ++ not_below a.next_port ps)
  min_port : b.min_port ≡ a.min_port
  max_port : b.max_port ≡ a.max_port

releases-Requeued :
    (ps : List ℕ) (a : PortAllocator) → AreAllocated a ps → Requeued ps a (releases ps a)
unfolding releases below not_below
releases-Requeued [] a h = record {
  queue = sym (append-nil a.available_ports);
  min_port = refl;
  max_port = refl;
}
releases-Requeued (p ∷ ps) a h =
    let later = releases-Requeued ps (freed p a) (AreAllocated-freed p a ps h.1 h.2) in
    rw (release_port-freed p a h.0) (record {
      queue = later.queue ∙ elim (Bool-cases (ltb p a.next_port)) [
        | inl front ↦ rw front (
            sym (
              append_assoc (below a.next_port ps) (p ∷ [])
                (a.available_ports ++ not_below a.next_port ps)))
        | inr back ↦ rw back (
            ap (λ xs. below a.next_port ps ++ xs)
              (append_assoc a.available_ports (p ∷ []) (not_below a.next_port ps)))
      ];
      min_port = later.min_port;
      max_port = later.max_port;
    })

length-below : (n : ℕ) (ps : List ℕ) → length (below n ps) + length (not_below n ps) ≡ length ps
unfolding below not_below
length-below n [] = refl
length-below n (p ∷ ps) = ground (arith, length-below n ps, length-append (below n ps) (p ∷ []))

-- Ports that are allocated, each once, are released one after the other; then `allocate_port` is called with
-- no preference. It hands out those that were released below `next_port`, the last released first,
-- then the ports that were available before, in their order, then the other released ports in the
-- order of their release, and then no more, whatever the numbers of the ports.
pub allocations-releases :
    (ps : List ℕ) (a : PortAllocator)
    → AreAllocated a ps
    → allocations (suc (length a.available_ports + length ps)) (releases ps a)
      ≡ one_by_one a (below a.next_port ps ++ (a.available_ports ++ not_below a.next_port ps))
allocations-releases ps a h =
    let b : PortAllocator = releases ps a in
    let r = releases-Requeued ps a h in
    let front : List ℕ = below a.next_port ps in
    let back : List ℕ = not_below a.next_port ps in
    let queue : List ℕ = front ++ (a.available_ports ++ back) in
    let all : length queue ≡ length a.available_ports + length ps = omega (
      arith,
      length-append front (a.available_ports ++ back),
      length-append a.available_ports back,
      length-below a.next_port ps,
    ) in
    ap (λ n. allocations (suc n) b) (sym all)
    ∙ allocations-one_by_one queue b r.queue
    ∙ ap (λ (range : ℕ × ℕ). map ok queue ++ err (no_ports_available range.0 range.1) ∷ []) (cc)
