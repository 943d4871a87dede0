-- ===== src/Connection/Manager/Decisions.antt =====
-- How often connection.rs decides on a request.
use crabby_proxy.Prelude.{
  ℕ, ◌+◌, ◌≤◌, ◌≡◌, refl, false, some, List, [], ◌∷◌, ◌++◌, ◌==◌, if◌then◌else◌, is_ok, length,
  length-append, arith, Bool-cases, inl, inr, ap, ◌∙◌,
}
use crabby_proxy.Prelude.HashMap
use crabby_proxy.Connection.Types.{pending, ConnectionApproval}
use crabby_proxy.Connection.Manager.{
  ConnectionManager, Call, adds, approves, rejects, activates, closes, call, run, new,
}
use crabby_proxy.Connection.Manager.Lifecycle.{
  Life, life, next, answer, target, call-answer, life-call,
}

-- The decision that a call asks for, if it names the identity `id`.
abbrev pub decision_on : ℕ → Call → List ConnectionApproval
decision_on id (approves j) = if j == id then ConnectionApproval.approved ∷ [] else []
decision_on id (rejects j reason) = if j == id then ConnectionApproval.rejected reason ∷ [] else []
decision_on id _ = []

-- The decisions on `id` that the manager grants in a history: those whose calls are answered `Ok`.
pub granted : ℕ → List Call → ConnectionManager → List ConnectionApproval
granted id [] m = []
granted id (c ∷ cs) m =
    let later = granted id cs (call c m).1 in
    if is_ok (call c m).0 then decision_on id c ++ later else later

abbrev pub offer : ℕ → Call → ℕ
offer id (adds j addr type tx) = if j == id then 1 else 0
offer id _ = 0

-- How many requests with the identity `id` come in a history.
unfoldable pub added : ℕ → List Call → ℕ
added id [] = 0
added id (c ∷ cs) = offer id c + added id cs

-- 1 if a decision on the connection is still open.
abbrev pub open_for : Life → ℕ
open_for l = elim l.request [ some pending ↦ 1 | other ↦ 0 ]

-- A granted decision closes what was open.
answer-open_for :
    (c : Call) (id : ℕ) (l : Life)
    → (if is_ok (answer c l) then length (decision_on id c) else 0)
        + open_for (if target c == id then next c l else l)
      ≤ open_for l + offer id c
answer-open_for c id l = ground arith

decision_on-other : (c : Call) (id : ℕ) → (target c == id) ≡ false → decision_on id c ≡ []
decision_on-other (adds j addr type tx) id e = refl
decision_on-other (approves j) id e = rw e refl
decision_on-other (rejects j reason) id e = rw e refl
decision_on-other (activates now j) id e = refl
decision_on-other (closes j) id e = refl

-- What a call grants on `id`.
abbrev granted_by : ℕ → Call → ConnectionManager → ℕ
granted_by id c m = if is_ok (call c m).0 then length (decision_on id c) else 0

granted_by-answer :
    (c : Call) (m : ConnectionManager) (id : ℕ)
    → granted_by id c m ≡ (if is_ok (answer c (life m id)) then length (decision_on id c) else 0)
granted_by-answer c m id = elim (Bool-cases (target c == id)) [
  | inl here ↦
      let same : target c ≡ id = ground (arith, here) in
      ap (λ r. if is_ok r then length (decision_on id c) else 0)
        (call-answer c m ∙ ap (λ j. answer c (life m j)) same)
  | inr there ↦ rw (decision_on-other c id there) (ground arith)
]

call-open_for :
    (c : Call) (m : ConnectionManager) (id : ℕ)
    → granted_by id c m + open_for (life (call c m).1 id) ≤ open_for (life m id) + offer id c
call-open_for c m id = omega (
  arith,
  granted_by-answer c m id,
  ap open_for (life-call c m id),
  answer-open_for c id (life m id),
)

length-granted :
    (id : ℕ) (c : Call) (cs : List Call) (m : ConnectionManager)
    → length (granted id (c ∷ cs) m) ≡ granted_by id c m + length (granted id cs (call c m).1)
unfolding granted
length-granted id c cs m =
    ground (arith, length-append (decision_on id c) (granted id cs (call c m).1))

run-granted :
    (id : ℕ) (cs : List Call) (m : ConnectionManager)
    → length (granted id cs m) + open_for (life (run cs m).0 id)
      ≤ open_for (life m id) + added id cs
unfolding run granted added
run-granted id [] m = omega arith
run-granted id (c ∷ cs) m =
    omega (arith, length-granted id c cs m, call-open_for c m id, run-granted id cs (call c m).1)

-- In a history from the new manager in which at most one request comes with the identity `id`, at most
-- one of the calls that approve or reject `id` is answered `Ok`; and if the request still waits for its
-- decision at the end, none was.
pub decided_at_most_once :
    (id : ℕ) (cs : List Call)
    → added id cs ≤ 1
    → length (granted id cs new) + open_for (life (run cs new).0 id) ≤ 1
unfolding new HashMap.get
decided_at_most_once id cs h = omega (arith, run-granted id cs new)
