-- ===== src/Tunnel/PortAllocator/Refinement.antt =====
-- The promise of the allocator of tunnel/port_allocator.rs to its clients, which see only which
-- ports are in use: what each call may answer, and which ports are in use after it.
use crabby_proxy.Prelude.{
  ℕ, ◌+◌, ◌≤◌, ◌≡◌, ◌↔◌, ◌⊎◌, refl, Bool, true, false, not, ◌||◌, ◌&&◌, Option, none, some, List,
  [], ◌∷◌, ◌==◌, ltb, is_ok, Bool-cases, count, contains, insert_new, without, count-nil,
  count-cons, contains-count, count-without, arith, Result, ok, err, inl, inr,
}
use crabby_proxy.Tunnel.PortAllocator.{
  PortAllocator, PortAllocError, port_out_of_range, port_unavailable, no_ports_available,
  port_not_allocated, allocate_specific, take_front, allocate_next, allocate_port, release_port,
  is_allocated, is_in_range, available_count, allocated_count,
}
use crabby_proxy.Tunnel.PortAllocator.Invariant.{IsValid}

abbrev pub Within : ℕ → ℕ → ℕ → Type 0
Within lo hi p = (lo ≤ p) × (p ≤ hi)

-- The answers to `allocate_port`: `used` are the ports in use before the call, `used'` after it.
pub data Allocates (lo hi : ℕ) (used used' : ℕ → Bool)
    : Option ℕ → Result ℕ PortAllocError → Type 0 where
  granted :
      {preferred : Option ℕ} (p : ℕ)
      → (preferred ≡ none) ⊎ (preferred ≡ some p)
      → Within lo hi p
      → used p ≡ false
      → ((q : ℕ) → used' q ≡ (p == q || used q))
      → Allocates lo hi used used' preferred (ok p)
  outside :
      (p : ℕ)
      → ¬ Within lo hi p
      → ((q : ℕ) → used' q ≡ used q)
      → Allocates lo hi used used' (some p) (err (port_out_of_range p lo hi))
  taken :
      (p : ℕ)
      → Within lo hi p
      → used p ≡ true
      → ((q : ℕ) → used' q ≡ used q)
      → Allocates lo hi used used' (some p) (err (port_unavailable p))
  exhausted :
      ((p : ℕ) → Within lo hi p → used p ≡ true)
      → ((q : ℕ) → used' q ≡ used q)
      → Allocates lo hi used used' none (err (no_ports_available lo hi))

-- The answers to `release_port`.
pub data Releases (used used' : ℕ → Bool) (p : ℕ) : Result (Unit {0}) PortAllocError → Type 0 where
  released :
      used p ≡ true → ((q : ℕ) → used' q ≡ not (p == q) && used q) → Releases used used' p (ok tt)
  refused :
      used p ≡ false
      → ((q : ℕ) → used' q ≡ used q)
      → Releases used used' p (err (port_not_allocated p))

contains-insert_new :
    (p q : ℕ) (xs : List ℕ) → contains (insert_new p xs) q ≡ (p == q || contains xs q)
unfolding insert_new
contains-insert_new p q xs =
    ground (
      arith,
      contains-count xs p,
      contains-count xs q,
      contains-count (p ∷ xs) q,
      count-cons q p xs,
    )

contains-without :
    (p q : ℕ) (xs : List ℕ) → contains (without p xs) q ≡ not (p == q) && contains xs q
contains-without p q xs =
    ground (arith, contains-count xs q, contains-count (without p xs) q, count-without q p xs)

allocate_specific-Allocates :
    (p : ℕ) (a : PortAllocator)
    → Allocates a.min_port a.max_port
        (is_allocated a)
        (is_allocated (allocate_specific p a).1)
        (some p)
        (allocate_specific p a).0
unfolding allocate_specific is_allocated
allocate_specific-Allocates p a = elim (Bool-cases (ltb p a.min_port || ltb a.max_port p)) [
  | inl out ↦ rw out (outside p (λ w. ground (arith, w.0, w.1)) (λ q. refl))
  | inr within ↦ rw within (elim (Bool-cases (contains a.allocated_ports p)) [
    | inl used ↦ rw used (taken p (ground arith, ground arith) used (λ q. refl))
    | inr free ↦ rw free (
        granted p (inr refl) (ground arith, ground arith) free
          (λ q. contains-insert_new p q a.allocated_ports))
  ])
]

take_front-Allocates :
    (ports : List ℕ) (a : PortAllocator)
    → a.available_ports ≡ ports
    → IsValid a
    → Allocates a.min_port a.max_port
        (is_allocated a)
        (is_allocated (take_front ports a).1)
        none
        (take_front ports a).0
unfolding take_front is_allocated is_in_range
take_front-Allocates [] a e v =
    exhausted (λ p w. ground (arith, v.partition p, contains-count a.allocated_ports p, here p))
      (λ q. refl)
  where
    here : (p : ℕ) → count p a.available_ports ≡ 0
    here p = rw e (count-nil p)
take_front-Allocates (port ∷ rest) a e v =
    granted port (inl refl)
      (ground (arith, v.partition port, here), ground (arith, v.partition port, here))
      (ground (arith, v.partition port, here, contains-count a.allocated_ports port))
      (λ q. contains-insert_new port q a.allocated_ports)
  where
    here : count port a.available_ports ≡ 1 + count port rest
    here = rw e (ground (arith, count-cons port port rest))

-- `allocate_port` on a valid allocator answers as `Allocates` says: it grants a port of the range
-- that was not in use (the preferred one, if one is given), which is in use afterwards; or it refuses a
-- preferred port that is out of range or in use; or, with none preferred, it refuses because every
-- port of the range is in use. A refusal changes no port's use, and a grant that of no other port.
pub allocate_port-Allocates :
    (preferred : Option ℕ) (a : PortAllocator)
    → IsValid a
    → Allocates a.min_port a.max_port
        (is_allocated a)
        (is_allocated (allocate_port preferred a).1)
        preferred
        (allocate_port preferred a).0
unfolding allocate_port allocate_next
allocate_port-Allocates none a v = take_front-Allocates a.available_ports a refl v
allocate_port-Allocates (some p) a v = allocate_specific-Allocates p a

-- `release_port` frees a port that is in use, and no other; of a port that is not in use it says
-- so and changes nothing in use.
pub release_port-Releases :
    (p : ℕ) (a : PortAllocator)
    → Releases (is_allocated a) (is_allocated (release_port p a).1) p (release_port p a).0
unfolding release_port is_allocated
release_port-Releases p a = elim (Bool-cases (contains a.allocated_ports p)) [
  | inl used ↦ rw used (released used (λ q. contains-without p q a.allocated_ports))
  | inr free ↦ rw free (refused free (λ q. refl))
]

-- With no port preferred, a valid allocator grants one exactly while fewer ports are allocated than
-- the range has.
pub allocate_next-is_ok :
    (a : PortAllocator)
    → IsValid a
    → (is_ok (allocate_port none a).0 ≡ true) ↔ (allocated_count a + a.min_port ≤ a.max_port)
unfolding allocate_port allocate_next take_front allocated_count available_count
allocate_next-is_ok a v = grind (arith, v.total)
