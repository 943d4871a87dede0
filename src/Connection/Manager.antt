-- ===== src/Connection/Manager.antt =====
-- connection.rs: the requests that wait for a decision, and the connections in use. The number of
-- a `oneshot` sender with the decision sent through it is part of the result of a call; whether
-- the receiver is still there is not known, since the program ignores the result of `send`.
pub mod Lifecycle
pub mod Decisions
use crabby_proxy.Prelude.{
  ℕ, Bool, true, false, not, Option, none, some, List, [], ◌∷◌, ◌++◌, if◌then◌else◌, Result, ok,
  err,
}
use crabby_proxy.Prelude.HashMap
use crabby_proxy.Net.{SocketAddr}
use crabby_proxy.Connection.Types.{
  ConnectionState, ConnectionType, ConnectionApproval, ConnectionError, ConnectionRequest,
  not_found, invalid_state,
}

pub record ConnectionManager : Type 0 where
  pub pending : List (ℕ × ConnectionRequest)
  pub active : List (ℕ × ℕ)

-- A decision on its way through the sender of a request.
abbrev pub Sent : Type 0
Sent = ℕ × ConnectionApproval

unfoldable pub new : ConnectionManager
new = record { pending = []; active = [] }

-- `ConnectionRequest::new`; `id` is the new `Uuid`.
unfoldable pub new_request : ℕ → SocketAddr → ConnectionType → Option ℕ → ConnectionRequest
new_request id client_addr connection_type decision_tx = record {
  id = id;
  client_addr = client_addr;
  connection_type = connection_type;
  state = ConnectionState.pending;
  decision_tx = decision_tx;
}

-- `matches!(state, ConnectionState::Pending)` and `matches!(state, ConnectionState::Approved)`.
abbrev pub is_pending : ConnectionState → Bool
is_pending ConnectionState.pending = true
is_pending _ = false

abbrev pub is_approved : ConnectionState → Bool
is_approved ConnectionState.approved = true
is_approved _ = false

abbrev pub send : Option ℕ → ConnectionApproval → List Sent
send none decision = []
send (some tx) decision = (tx, decision) ∷ []

unfoldable pub add_pending : ConnectionRequest → ConnectionManager → ConnectionManager
add_pending request m = record m { pending = HashMap.insert request.id request m.pending }

abbrev pub Reply : Type 0
Reply = Result (Unit {0}) ConnectionError × ConnectionManager × List Sent

-- The request is changed in place, through `get_mut`.
unfoldable pub approve_connection : ℕ → ConnectionManager → Reply
approve_connection id m = elim (HashMap.get id m.pending) [
  | none ↦ (err not_found, m, [])
  | some request ↦ if not (is_pending request.state) then (err invalid_state, m, []) else (
    ok tt,
    record m {
      pending =
          HashMap.insert id
            (record request { state = ConnectionState.approved; decision_tx = none }) m.pending;
    },
    send request.decision_tx ConnectionApproval.approved,
  )
]

-- The request is out of the map before its state is tested.
unfoldable pub reject_connection : ℕ → List ℕ → ConnectionManager → Reply
reject_connection id rejection_reason m = elim (HashMap.get id m.pending) [
  | none ↦ (err not_found, m, [])
  | some request ↦
      let m' = record m { pending = HashMap.remove id m.pending } in
      if not (is_pending request.state)
      then (err invalid_state, m', [])
      else (ok tt, m', send request.decision_tx (ConnectionApproval.rejected rejection_reason))
]

-- `now` is `Instant::now()`.
unfoldable pub activate_connection : ℕ → ℕ → ConnectionManager → Reply
activate_connection now id m = elim (HashMap.get id m.pending) [
  | none ↦ (err not_found, m, [])
  | some request ↦
      let m' = record m { pending = HashMap.remove id m.pending } in
      if not (is_approved request.state)
      then (err invalid_state, m', [])
      else (ok tt, record m' { active = HashMap.insert id now m'.active }, [])
]

unfoldable pub close_connection : ℕ → ConnectionManager → Reply
close_connection id m = elim (HashMap.get id m.active) [
  | none ↦ (err not_found, m, [])
  | some since ↦ (ok tt, record m { active = HashMap.remove id m.active }, [])
]

-- The calls of a client of the manager. A request is made by `ConnectionRequest::new`, the one
-- constructor that the source has, and added.
pub data Call : Type 0 where
  adds : ℕ → SocketAddr → ConnectionType → Option ℕ → Call
  approves : ℕ → Call
  rejects : ℕ → List ℕ → Call
  activates : ℕ → ℕ → Call
  closes : ℕ → Call

unfoldable pub call : Call → ConnectionManager → Reply
call (adds id client_addr connection_type decision_tx) m =
    (ok tt, add_pending (new_request id client_addr connection_type decision_tx) m, [])
call (approves id) m = approve_connection id m
call (rejects id reason) m = reject_connection id reason m
call (activates now id) m = activate_connection now id m
call (closes id) m = close_connection id m

-- A history: the manager after it, and all decisions sent, in order.
unfoldable pub run : List Call → ConnectionManager → ConnectionManager × List Sent
run [] m = (m, [])
run (c ∷ cs) m =
    let (r, m', sent) = call c m in let (m'', later) = run cs m' in (m'', sent ++ later)
