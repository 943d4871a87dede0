-- ===== src/Tests/Connections.antt =====
-- connection.rs: a request that is approved and activated, and one that is activated too soon.
use crabby_proxy.Prelude.{
  List, length, ◌+◌, ◌≤◌, ◌≡◌, ◌==◌, refl, none, some, [], ◌∷◌, arith, if◌then◌else◌,
}
use crabby_proxy.Prelude.HashMap
use crabby_proxy.Net.{v4}
use crabby_proxy.Connection.Types.{reverse_tunnel, web_service}
use crabby_proxy.Connection.Manager.{
  add_pending, new_request, activate_connection, ConnectionManager, new, Call, adds, approves,
  rejects, activates, call, run,
}
use crabby_proxy.Connection.Manager.Lifecycle.{
  life, next, answer, call-answer, life-call, invalid_state_drops,
}
use crabby_proxy.Connection.Manager.Decisions.{granted, added, open_for, decided_at_most_once}

abbrev addition : Call
addition = adds 5 (v4 (10 ∷ 0 ∷ 0 ∷ 7 ∷ []) 22) (reverse_tunnel web_service none) (some 70)

abbrev waiting : ConnectionManager
waiting = (run (addition ∷ []) new).0

call-answer_example : (call (approves 5) waiting).0 ≡ answer (approves 5) (life waiting 5)
call-answer_example = call-answer (approves 5) waiting

life-call_example :
    life (call (approves 5) waiting).1 6
    ≡ (if 5 == 6 then next (approves 5) (life waiting 6) else life waiting 6)
life-call_example = life-call (approves 5) waiting 6

invalid_state_drops_example :
    ((call (activates 0 5) waiting).2 ≡ [])
    × ((life (call (activates 0 5) waiting).1 5).request ≡ none)
unfolding run call new add_pending new_request activate_connection HashMap.get HashMap.insert
    HashMap.remove
invalid_state_drops_example = invalid_state_drops (activates 0 5) waiting refl

abbrev history : List Call
history = addition ∷ approves 5 ∷ approves 5 ∷ rejects 5 [] ∷ []

decided_at_most_once_example :
    length (granted 5 history new) + open_for (life (run history new).0 5) ≤ 1
unfolding added
decided_at_most_once_example = decided_at_most_once 5 history (omega arith)
