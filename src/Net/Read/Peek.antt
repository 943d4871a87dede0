-- ===== src/Net/Read/Peek.antt =====
-- Peeking at bytes that have arrived.
use crabby_proxy.Prelude.{
  [], append-nil, sym, ℕ, ◌≡◌, refl, ap, ◌∙◌, List, ◌∷◌, take, arith, leb, length, true,
}
use crabby_proxy.Net.{plain, Stream}
use crabby_proxy.Net.Io.{done}
use crabby_proxy.Net.Common.{peek_or_read, peek_or_read_as}
use crabby_proxy.Net.Read.Steps.{Delivers, Moves}
use crabby_proxy.Net.Read.{peek, peek_outcome, peek_stream, restock}
use crabby_proxy.Net.Read.Delivery.{
  delivered, await_enough, settle-delivered, settle-NoFail, settle-pauses, After,
}

-- At a byte that is ready, `peek` returns what is ready and takes nothing, whatever the deadline.
pub peek_ready :
    (n : ℕ) (s : Stream) (b : ℕ) (bs : List ℕ)
    → s.ready ≡ b ∷ bs
    → (t : Stream) × (peek n s ≡ (done (take n (b ∷ bs)), t)) × After s t (delivered s)
unfolding peek peek_stream peek_outcome restock delivered
peek_ready n s b bs e =
    let some_ready : leb 1 (length (b ∷ bs)) ≡ true = ground arith in
    (
      restock s.ready s.incoming s.deadline s,
      ap (λ a. (peek_outcome n a, peek_stream a s))
            (await_enough 1 s.deadline s.ready s.incoming
              (ap (λ (r : List ℕ). leb 1 (length r)) e ∙ some_ready))
          ∙ ap (λ (r : List ℕ). (done (take n r), restock s.ready s.incoming s.deadline s)) e,
      record {
        left = settle-delivered s.ready s.incoming;
        untouched = record {
          kind = refl;
          sent = refl;
          fates = refl;
          deadline = refl;
          is_shut = refl;
          calm = settle-NoFail s.ready s.incoming;
          sooner = omega (arith, settle-pauses s.ready s.incoming);
        };
      },
    )

pub peek_or_read_plain : (n : ℕ) (s : Stream) → s.kind ≡ plain → peek_or_read n s ≡ peek n s
unfolding peek_or_read
peek_or_read_plain n s e = ap (λ k. peek_or_read_as k n s) e

-- The same as a step of a dialogue, for a plain stream.
pub peek_step :
    (n : ℕ) (s : Stream) (b : ℕ) (bs all : List ℕ)
    → s.kind ≡ plain
    → s.ready ≡ b ∷ bs
    → Delivers s all
    → (t : Stream) × (peek_or_read n s ≡ (done (take n (b ∷ bs)), t)) × Moves s t all []
peek_step n s b bs all k e d =
    let (t, p, a) = peek_ready n s b bs e in
    (
      t,
      peek_or_read_plain n s k ∙ p,
      record {
        delivers = record {
          idle = a.untouched.deadline ∙ d.idle;
          writable = a.untouched.fates ∙ d.writable;
          all = a.left ∙ d.all;
        };
        wrote = a.untouched.sent ∙ sym (append-nil s.sent);
        kind = a.untouched.kind;
        calm = a.untouched.calm;
        sooner = a.untouched.sooner;
      },
    )
