-- ===== src/Net/Read/Settled.antt =====
-- A peek at a stream to which nothing more comes before the next pause: it changes nothing.
use crabby_proxy.Prelude.{
  ℕ, ◌≡◌, refl, ap, ◌∙◌, true, some, List, [], ◌∷◌, leb, length, take, ok, arith,
}
use crabby_proxy.Net.{Stream, Event, arrive, pause, fail}
use crabby_proxy.Net.Io.{done, timeout, timed}
use crabby_proxy.Net.Read.{peek, peek_outcome, peek_stream, restock, settle}
use crabby_proxy.Net.Read.Delivery.{await_enough}

-- All that comes before the next pause has arrived, and no failure has.
abbrev pub IsSettled : List Event → Type 0
IsSettled [] = Unit {0}
IsSettled (pause t ∷ es) = Unit {0}
IsSettled (arrive bs ∷ es) = ⊥
IsSettled (fail e ∷ es) = ⊥

settle-IsSettled : (ready : List ℕ) (es : List Event) → IsSettled es → settle ready es ≡ (ready, es)
unfolding settle
settle-IsSettled ready [] h = refl
settle-IsSettled ready (pause t ∷ es) h = refl
settle-IsSettled ready (arrive bs ∷ es) h = absurd h
settle-IsSettled ready (fail e ∷ es) h = absurd h

restock-IsSettled :
    (s : Stream) → IsSettled s.incoming → restock s.ready s.incoming s.deadline s ≡ s
unfolding restock
restock-IsSettled s h =
    ap (λ r. record s { ready = r.0; incoming = r.1 }) (settle-IsSettled s.ready s.incoming h)

pub peek-IsSettled :
    (n : ℕ) (s : Stream) (b : ℕ) (bs : List ℕ)
    → IsSettled s.incoming
    → s.ready ≡ b ∷ bs
    → peek n s ≡ (done (take n (b ∷ bs)), s)
unfolding peek peek_stream peek_outcome
peek-IsSettled n s b bs h e =
    let some_ready : leb 1 (length (b ∷ bs)) ≡ true = ground arith in
    ap (λ a. (peek_outcome n a, peek_stream a s))
      (await_enough 1 s.deadline s.ready s.incoming
        (ap (λ (r : List ℕ). leb 1 (length r)) e ∙ some_ready))
    ∙ ap (λ t. (done (take n s.ready), t)) (restock-IsSettled s h)
    ∙ ap (λ r. (done (take n r), s)) e

-- The same under a time limit.
pub timeout-IsSettled :
    {F : Type 0} (ms n : ℕ) (s : Stream) (b : ℕ) (bs : List ℕ)
    → IsSettled s.incoming
    → s.ready ≡ b ∷ bs
    → timeout {F = F} ms (peek n) s ≡ (done (some (ok (take n (b ∷ bs)))), s)
timeout-IsSettled {F} ms n s b bs h e =
    ap (λ r. (timed {F = F} r.0, record r.1 { deadline = s.deadline }))
      (peek-IsSettled n (record s { deadline = some ms }) b bs h e)
