-- ===== src/Connection/Manager/Lifecycle.antt =====
-- The life of each connection of connection.rs, seen apart from all others.
use crabby_proxy.Prelude.{
  ℕ, ◌≡◌, ◌≢◌, refl, Bool, true, false, Option, none, some, List, [], ◌∷◌, ◌==◌, if◌then◌else◌,
  is_some, inl, inr, arith, ap, sym, subst, Bool-cases, Result, ok, err,
}
use crabby_proxy.Prelude.HashMap
use crabby_proxy.Prelude.HashMap.{get-insert, get-remove, map_laws}
use crabby_proxy.Connection.Types.{
  ConnectionState, pending, approved, ConnectionRequest, ConnectionError, not_found, invalid_state,
}
use crabby_proxy.Connection.Manager.{
  ConnectionManager, Call, adds, approves, rejects, activates, closes, call, run, new, new_request,
  add_pending, approve_connection, reject_connection, activate_connection, close_connection,
}

-- What the manager knows of one identity: the state of its request, and whether it is in use.
pub record Life : Type 0 where
  pub request : Option ConnectionState
  pub live : Bool

abbrev state_of : Option ConnectionRequest → Option ConnectionState
state_of none = none
state_of (some r) = some r.state

abbrev pub life : ConnectionManager → ℕ → Life
life m id = record {
  request = state_of (HashMap.get id m.pending);
  live = is_some (HashMap.get id m.active);
}

-- The intended life: a request is added, approved and activated, or rejected; a decision on a
-- request in any other state is an error. Rejecting and activating take the request away.
abbrev pub next : Call → Life → Life
next (adds id addr type tx) l = record l { request = some pending }
next (approves id) l = elim l.request [
  | some pending ↦ record l { request = some approved }
  | other ↦ l
]
next (rejects id reason) l = record l { request = none }
next (activates now id) l = elim l.request [
  | some approved ↦ record { request = none; live = true }
  | other ↦ record l { request = none }
]
next (closes id) l = record l { live = false }

abbrev pub answer : Call → Life → Result (Unit {0}) ConnectionError
answer (adds id addr type tx) l = ok tt
answer (approves id) l = elim l.request [
  | none ↦ err not_found
  | some pending ↦ ok tt
  | _ ↦ err invalid_state
]
answer (rejects id reason) l = elim l.request [
  | none ↦ err not_found
  | some pending ↦ ok tt
  | _ ↦ err invalid_state
]
answer (activates now id) l = elim l.request [
  | none ↦ err not_found
  | some approved ↦ ok tt
  | _ ↦ err invalid_state
]
answer (closes id) l = if l.live then ok tt else err not_found

abbrev pub target : Call → ℕ
target (adds id addr type tx) = id
target (approves id) = id
target (rejects id reason) = id
target (activates now id) = id
target (closes id) = id

-- Every call of the manager answers as the life of the one connection that it names decides: approving
-- and rejecting want a pending request, activating an approved one, closing a connection in use.
pub call-answer : (c : Call) (m : ConnectionManager) → (call c m).0 ≡ answer c (life m (target c))
unfolding call approve_connection reject_connection activate_connection close_connection
call-answer (adds id addr type tx) m = refl
call-answer c m = ground arith

-- Every call moves the connection that it names as `next` says, and no other.
pub life-call :
    (c : Call) (m : ConnectionManager) (id : ℕ)
    → life (call c m).1 id ≡ (if target c == id then next c (life m id) else life m id)
unfolding call add_pending new_request approve_connection reject_connection activate_connection
    close_connection
life-call (adds j addr type tx) m id = simp map_laws (ground arith)
life-call (approves j) m id = grind (arith, get-insert)
life-call (rejects j reason) m id = ground (arith, get-remove j id m.pending)
life-call (activates now j) m id =
    ground (arith, get-remove j id m.pending, get-insert j id now m.active)
life-call (closes j) m id = ground (arith, get-remove j id m.active)

-- A history that approves nothing for an identity.
abbrev pub NoApproval : ℕ → List Call → Type 0
NoApproval id [] = Unit {0}
NoApproval id (c ∷ cs) = (c ≢ approves id) × NoApproval id cs

abbrev Unapproved : Life → Type 0
Unapproved l = (l.live ≡ false) × (l.request ≢ some approved)

next-Unapproved :
    (c : Call) (id : ℕ) (l : Life)
    → c ≢ approves id
    → target c ≡ id
    → Unapproved l
    → Unapproved (next c l)
next-Unapproved (adds j addr type tx) id l n e u = ground arith
next-Unapproved (approves j) id l n e u = absurd (n (ap approves e))
next-Unapproved (rejects j reason) id l n e u = ground arith
next-Unapproved (activates now j) id l n e u = ground arith
next-Unapproved (closes j) id l n e u = ground arith

step-Unapproved :
    (c : Call) (m : ConnectionManager) (id : ℕ)
    → c ≢ approves id
    → Unapproved (life m id)
    → Unapproved (life (call c m).1 id)
step-Unapproved c m id n u =
    subst Unapproved (sym (life-call c m id)) (elim (Bool-cases (target c == id)) [
      | inl here ↦ rw here (next-Unapproved c id (life m id) n (ground arith) u)
      | inr there ↦ rw there u
    ])

run-Unapproved :
    (cs : List Call) (m : ConnectionManager) (id : ℕ)
    → NoApproval id cs
    → Unapproved (life m id)
    → Unapproved (life (run cs m).0 id)
unfolding run
run-Unapproved [] m id n u = u
run-Unapproved (c ∷ cs) m id n u =
    run-Unapproved cs (call c m).1 id n.1 (step-Unapproved c m id n.0 u)

-- In a history from the new manager that never approves an identity, the connection of that identity is
-- not in use.
pub live_needs_approval :
    (cs : List Call) (id : ℕ) → NoApproval id cs → (life (run cs new).0 id).live ≡ false
unfolding new HashMap.get
live_needs_approval cs id n = (run-Unapproved cs new id n (refl, λ e. cc)).0

abbrev is_approval : Call → Bool
is_approval (approves id) = true
is_approval _ = false

-- A call that is answered `NotFound` leaves the manager as it was and sends no decision.
pub not_found_changes_nothing :
    (c : Call) (m : ConnectionManager)
    → (call c m).0 ≡ err not_found
    → ((call c m).1 ≡ m) × ((call c m).2 ≡ [])
unfolding call approve_connection reject_connection activate_connection close_connection
not_found_changes_nothing (adds id addr type tx) m e = cc
not_found_changes_nothing c m e = ground arith

-- A call that is answered `InvalidState` sends no decision; approving leaves the state of the request,
-- but rejecting and activating have removed the request.
pub invalid_state_drops :
    (c : Call) (m : ConnectionManager)
    → (call c m).0 ≡ err invalid_state
    → ((call c m).2 ≡ [])
      × ((life (call c m).1 (target c)).request
          ≡ (if is_approval c then (life m (target c)).request else none))
unfolding call approve_connection reject_connection activate_connection close_connection
invalid_state_drops (adds id addr type tx) m e = cc
invalid_state_drops (approves id) m e = ground arith
invalid_state_drops (rejects id reason) m e = ground (arith, get-remove id id m.pending)
invalid_state_drops (activates now id) m e = ground (arith, get-remove id id m.pending)
invalid_state_drops (closes id) m e = ground arith
