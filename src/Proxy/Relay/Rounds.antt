-- ===== src/Proxy/Relay/Rounds.antt =====
-- proxy/relay.rs, `handShake`: the rounds of its loop.
use crabby_proxy.Prelude.{
  ℕ, zero, suc, ◌<◌, ◌≡◌, ◌⊎◌, inl, inr, refl, sym, ap, ◌∙◌, Option, none, some, Option-cases, List,
  [], ◌∷◌, ◌++◌, length, length-append, append_assoc, append-nil, arith,
}
use crabby_proxy.Net.{Stream}
use crabby_proxy.Net.Io.{Io, Outcome, done, pure}
use crabby_proxy.Net.Read.Delivery.{delivered, NoFail, Untouched}
use crabby_proxy.Net.Read.Chunk.{read_cases}
use crabby_proxy.Error.{ProxyError}
use crabby_proxy.Utils.{read_from_stream}
use crabby_proxy.Proxy.Relay.{body_start, read_reply}
use crabby_proxy.Proxy.Relay.Buffer.{Leaves, body_start-Leaves}

-- One read, at the end of the stream or before it.
pub record Got (s : Stream) : Type 0 where
  pub tmp : List ℕ
  pub after : Stream
  pub got : read_from_stream 256 s ≡ (done tmp, after)
  pub all : tmp ++ delivered after ≡ delivered s
  pub calm : NoFail after.incoming
  pub untouched : Untouched s after
  pub progress : (delivered s ≡ []) ⊎ (length (delivered after) < length (delivered s))

pub read_from_stream-Got : (s : Stream) → s.deadline ≡ none → NoFail s.incoming → Got s
unfolding read_from_stream
read_from_stream-Got s idle calm = elim (read_cases 255 s idle calm) [
  | inl a ↦ record {
    tmp = [];
    after = a.after;
    got = rw a.got refl;
    all = a.over ∙ sym a.all;
    calm = a.calm;
    untouched = a.untouched;
    progress = inl a.all;
  }
  | inr c ↦ record {
    tmp = c.head ∷ c.tail;
    after = c.after;
    got = rw c.got refl;
    all = c.all;
    calm = c.calm;
    untouched = c.untouched;
    progress = inr (
        omega (
          arith,
          sym (length-append (c.head ∷ c.tail) (delivered c.after)) ∙ ap (λ xs. length xs) c.all,
        ));
  }
]

module _ (fuel : ℕ) (buffer : List ℕ) (s : Stream) (g : Got s) where
  on_read : Option ℕ → Outcome ProxyError (List ℕ × ℕ) × Stream
  on_read o =
      (elim o as (λ _. Io ProxyError (List ℕ × ℕ)) [
        | some index ↦ pure (buffer ++ g.tmp, index)
        | none ↦ read_reply fuel (buffer ++ g.tmp)
      ])
        g.after

  read_reply-step : read_reply (suc fuel) buffer s ≡ on_read (body_start (buffer ++ g.tmp))
  unfolding read_reply on_read
  read_reply-step = rw g.got refl

  read_reply-leave :
      (index : ℕ)
      → body_start (buffer ++ g.tmp) ≡ some index
      → read_reply (suc fuel) buffer s ≡ (done (buffer ++ g.tmp, index), g.after)
  unfolding on_read
  read_reply-leave index e = read_reply-step ∙ ap on_read e

  pub read_reply-on :
      body_start (buffer ++ g.tmp) ≡ none
      → read_reply (suc fuel) buffer s ≡ read_reply fuel (buffer ++ g.tmp) g.after
  unfolding on_read
  read_reply-on e = read_reply-step ∙ ap on_read e

  pub split_all : buffer ++ g.tmp ++ delivered g.after ≡ buffer ++ delivered s
  split_all = append_assoc buffer g.tmp (delivered g.after) ∙ ap (λ xs. buffer ++ xs) g.all

-- The loop has left with a part of `all`, and has written nothing.
pub record Left (fuel : ℕ) (buffer : List ℕ) (s : Stream) : Type 0 where
  pub held : List ℕ
  pub index : ℕ
  pub unread : List ℕ
  pub after : Stream
  pub got : read_reply fuel buffer s ≡ (done (held, index), after)
  pub leaves : Leaves held index
  pub all : held ++ unread ≡ buffer ++ delivered s
  pub sent : after.sent ≡ s.sent

pub read_reply-Left :
    (fuel : ℕ) (buffer : List ℕ) (s : Stream) (index : ℕ)
    → s.deadline ≡ none
    → NoFail s.incoming
    → body_start (buffer ++ delivered s) ≡ some index
    → body_start buffer ≡ none
    → length (delivered s) < fuel
    → Left fuel buffer s
read_reply-Left zero buffer s index idle calm found not_yet h = absurd (omega arith)
read_reply-Left (suc fuel) buffer s index idle calm found not_yet h =
    let g = read_from_stream-Got s idle calm in
    elim (Option-cases (body_start (buffer ++ g.tmp))) [
      | inr (i, e) ↦ record {
        held = buffer ++ g.tmp;
        index = i;
        unread = delivered g.after;
        after = g.after;
        got = read_reply-leave fuel buffer s g i e;
        leaves = body_start-Leaves (buffer ++ g.tmp) i e;
        all = split_all fuel buffer s g;
        sent = g.untouched.sent;
      }
      | inl e ↦ elim g.progress [
        | inl over ↦
            let never : some index ≡ none =
              sym found
              ∙ ap body_start (ap (λ xs. buffer ++ xs) over ∙ append-nil buffer)
              ∙ not_yet in
            absurd (cc)
        | inr less ↦
            let l =
              read_reply-Left fuel (buffer ++ g.tmp) g.after index (g.untouched.deadline ∙ idle)
                g.calm (ap body_start (split_all fuel buffer s g) ∙ found) e (omega arith) in
            record {
              held = l.held;
              index = l.index;
              unread = l.unread;
              after = l.after;
              got = read_reply-on fuel buffer s g e ∙ l.got;
              leaves = l.leaves;
              all = l.all ∙ split_all fuel buffer s g;
              sent = l.sent ∙ g.untouched.sent;
            }
      ]
    ]
