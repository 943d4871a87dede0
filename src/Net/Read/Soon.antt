-- ===== src/Net/Read/Soon.antt =====
-- A timed peek at bytes that arrive within the time.
use crabby_proxy.Prelude.{
  ℕ, ◌-◌, ◌≤◌, ◌<◌, ◌≡◌, refl, sym, ap, ◌∙◌, Option, some, List, [], ◌∷◌, ◌++◌, ltb, take, true,
  append-nil, arith, Result, ok,
}
use crabby_proxy.Net.{IoError, Stream, Event, arrive, pause, fail, plain}
use crabby_proxy.Net.Io.{Outcome, done, timeout, timed}
use crabby_proxy.Net.Common.{peek_or_read}
use crabby_proxy.Net.Read.{await, bytes, peek, peek_outcome, peek_stream, restock}
use crabby_proxy.Net.Read.Delivery.{
  delivered, delivered_from, NoFail, pauses, await_enough, settle-delivered, settle-NoFail,
  settle-pauses,
}
use crabby_proxy.Net.Read.Peek.{peek_or_read_plain}
use crabby_proxy.Net.Read.Steps.{Delivers, Moves}

-- The first byte has arrived, and perhaps more.
record Soon (d : ℕ) (ready : List ℕ) (es : List Event) (b : ℕ) (bs : List ℕ) : Type 0 where
  more : List ℕ
  later : List Event
  time : ℕ
  got : await 1 (some d) ready es ≡ bytes (b ∷ more) later (some time)
  all : (b ∷ more) ++ delivered_from later ≡ b ∷ bs
  calm : NoFail later
  sooner : pauses later ≤ pauses es

await-Soon :
    (d : ℕ) (ready : List ℕ) (es : List Event) (b : ℕ) (bs : List ℕ)
    → NoFail es
    → pauses es < d
    → ready ++ delivered_from es ≡ b ∷ bs
    → Soon d ready es b bs
unfolding await delivered_from pauses
await-Soon d (r ∷ rs) es b bs c h e =
    let same : r ≡ b = cc in
    record {
      more = rs;
      later = es;
      time = d;
      got =
          await_enough 1 (some d) (r ∷ rs) es (ground arith)
          ∙ ap (λ x. bytes (x ∷ rs) es (some d)) same;
      all = ap (λ x. x ∷ (rs ++ delivered_from es)) (sym same) ∙ e;
      calm = c;
      sooner = omega arith;
    }
await-Soon d [] [] b bs c h e = cc
await-Soon d [] (arrive xs ∷ es) b bs c h e =
    let w = await-Soon d xs es b bs c h e in
    record {
      more = w.more;
      later = w.later;
      time = w.time;
      got = w.got;
      all = w.all;
      calm = w.calm;
      sooner = w.sooner;
    }
await-Soon d [] (pause t ∷ es) b bs c h e =
    let w = await-Soon (d - t) [] es b bs c (omega (arith, h)) e in
    let in_time : ltb t d ≡ true = ground (arith, h) in
    record {
      more = w.more;
      later = w.later;
      time = w.time;
      got = rw in_time w.got;
      all = w.all;
      calm = w.calm;
      sooner = omega (arith, w.sooner);
    }
await-Soon d [] (fail x ∷ es) b bs c h e = absurd c

-- `timeout(ms, stream.peek(..))` at a stream whose bytes take less time.
pub timed_peek :
    {F : Type 0} (ms n : ℕ) (s : Stream) (b : ℕ) (bs : List ℕ)
    → s.kind ≡ plain
    → NoFail s.incoming
    → pauses s.incoming < ms
    → Delivers s (b ∷ bs)
    → (more : List ℕ) × (t : Stream) × (timeout {F = F} ms (peek_or_read n) s
        ≡ (done (some (ok (take n (b ∷ more)))), t))
      × (timeout {F = F} ms (peek n) s ≡ (done (some (ok (take n (b ∷ more)))), t))
      × Moves s t (b ∷ bs) []
unfolding peek peek_outcome peek_stream restock delivered
timed_peek {F} ms n s b bs k c h d =
    let w = await-Soon ms s.ready s.incoming b bs c h d.all in
    let limited = record s { deadline = some ms } in
    let t = restock (b ∷ w.more) w.later (some w.time) limited in
    let looked : peek n limited ≡ (done (take n (b ∷ w.more)), t) =
      ap (λ a. (peek_outcome n a, peek_stream a limited)) w.got in
    let end = record t { deadline = s.deadline } in
    let wrap : Outcome IoError (List ℕ) × Stream
        → Outcome F (Option (Result (List ℕ) IoError)) × Stream =
      λ r. (timed {F = F} r.0, record r.1 { deadline = s.deadline }) in
    (
      w.more,
      end,
      ap wrap (peek_or_read_plain n limited k ∙ looked),
      ap wrap looked,
      record {
        delivers = record {
          idle = d.idle;
          writable = d.writable;
          all = settle-delivered (b ∷ w.more) w.later ∙ w.all;
        };
        wrote = sym (append-nil s.sent);
        kind = refl;
        calm = λ _. settle-NoFail (b ∷ w.more) w.later w.calm;
        sooner = omega (arith, settle-pauses (b ∷ w.more) w.later, w.sooner);
      },
    )
