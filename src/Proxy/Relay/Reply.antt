-- ===== src/Proxy/Relay/Reply.antt =====
-- proxy/relay.rs, `handShake`: what it comes to, by what the other proxy replies.
use crabby_proxy.Prelude.{
  contains, ℕ, zero, suc, ◌<◌, ◌≡◌, ◌≢◌, inl, inr, refl, sym, ap, ◌∙◌, subst, Bool, true, none,
  some, Option-cases, Bool-cases, List, [], ◌∷◌, ◌++◌, leb, if◌then◌else◌, length, take,
  append_assoc, arith,
}
use crabby_proxy.Text.{starts_with}
use crabby_proxy.Text.Split.Pieces.{contains-Lacks}
use crabby_proxy.Net.{Stream}
use crabby_proxy.Net.Io.{continue, Outcome, done, failed, elapsed}
use crabby_proxy.Net.Read.{write}
use crabby_proxy.Net.Read.Delivery.{delivered, NoFail}
use crabby_proxy.Error.{ProxyError}
use crabby_proxy.Utils.{write_to_stream}
use crabby_proxy.Proxy.Protocol.{ProxyTarget}
use crabby_proxy.Proxy.Relay.{
  blank_line, body_start, read_reply, reply_body, hand_shake, status_ok, invalid_response,
  connect_request,
}
use crabby_proxy.Proxy.Relay.Buffer.{
  Leaves, body_start-Leaves, body_start-append, starts_with-contains, Blank-contains,
}
use crabby_proxy.Proxy.Relay.Rounds.{
  Left, read_from_stream-Got, read_reply-Left, read_reply-on, split_all,
}

written : ℕ → List ℕ → Stream → Stream
written room buf s = record s { sent = s.sent ++ take room buf }

write_to_stream-written :
    (room : ℕ) (buf : List ℕ) (s : Stream)
    → s.fates ≡ []
    → write_to_stream room buf s ≡ (done tt, written room buf s)
unfolding write_to_stream write written
write_to_stream-written room buf s w = rw w refl

verdict : Bool → Outcome ProxyError (List ℕ)
verdict good = if good then done [] else failed invalid_response

reply_body-lem :
    (held : List ℕ) (index : ℕ) (s : Stream)
    → Leaves held index
    → reply_body (held, index) s ≡ (verdict (starts_with held status_ok), s)
unfolding reply_body verdict
reply_body-lem held index s l =
    let inside : leb index (length held) ≡ true = ground (arith, l.inside) in
    elim (Bool-cases (starts_with held status_ok)) [
      | inl good ↦ rw (good, inside) refl
      | inr bad ↦ rw bad refl
    ]

hand_shake-Left :
    (pooled : List ℕ) (room fuel : ℕ) (target : ProxyTarget) (s : Stream)
    → s.fates ≡ []
    → (l : Left fuel [] (written room (pooled ++ connect_request target) s))
    → hand_shake pooled room fuel target s ≡ (verdict (starts_with l.held status_ok), l.after)
unfolding hand_shake
hand_shake-Left pooled room fuel target s w l =
    rw (write_to_stream-written room (pooled ++ connect_request target) s w, l.got)
      (reply_body-lem l.held l.index l.after l.leaves)

-- The part of a reply that the loop holds tells its status.
held-status :
    (held unread all : List ℕ) (index : ℕ)
    → Leaves held index
    → held ++ unread ≡ all
    → starts_with held status_ok ≡ starts_with all status_ok
unfolding contains
held-status held unread all index l e =
    sym (
      starts_with-contains 13 status_ok held unread (contains-Lacks 13 status_ok refl)
        (Blank-contains held l.blank))
    ∙ ap (λ xs. starts_with xs status_ok) e

pub record Answered (pooled : List ℕ) (room : ℕ) (target : ProxyTarget) (s : Stream)
    (end : Outcome ProxyError (List ℕ) × Stream) : Type 0 where
  pub outcome :
      end.0 ≡ (if starts_with (delivered s) status_ok then done [] else failed invalid_response)
  pub sent : end.1.sent ≡ s.sent ++ take room (pooled ++ connect_request target)

-- `handShake` over a connection whose peer neither fails nor closes before it has sent a header (at least
-- one byte, then "\r\n\r\n"), with writes that succeed and no `timeout` around it, ends when it is given one
-- round more than the reply has bytes, however the reply is cut into pieces. It has then written what the
-- block of the pool held and the request for the target, as far as one write takes them, and it answers with
-- an empty body if the reply begins with "HTTP/1.1 200 OK" and with `BadGateway` otherwise, whatever else
-- the reply holds.
pub hand_shake-Answered :
    (pooled : List ℕ) (room fuel : ℕ) (target : ProxyTarget) (s : Stream) (first : ℕ)
    (header rest : List ℕ)
    → s.deadline ≡ none
    → NoFail s.incoming
    → s.fates ≡ []
    → delivered s ≡ first ∷ header ++ blank_line ++ rest
    → length (delivered s) < fuel
    → Answered pooled room target s (hand_shake pooled room fuel target s)
unfolding written verdict
hand_shake-Answered pooled room fuel target s first header rest idle calm w e h =
    let s1 : Stream = written room (pooled ++ connect_request target) s in
    let same : delivered s1 ≡ delivered s = unfold delivered in refl in
    let fresh : body_start [] ≡ none = unfold body_start in refl in
    let (index, found) = body_start-append first header rest in
    let l =
      read_reply-Left fuel [] s1 index idle calm (ap body_start (same ∙ e) ∙ found) fresh
        (omega (arith, h, ap (λ xs. length xs) same)) in
    let over = hand_shake-Left pooled room fuel target s w l in
    record {
      outcome =
          ap (λ r. r.0) over
          ∙ ap verdict (held-status l.held l.unread (delivered s) l.index l.leaves (l.all ∙ same));
      sent = ap (λ r. r.1.sent) over ∙ l.sent;
    }

-- The reply holds no blank line.
abbrev pub NoBlank : List ℕ → Type 0
NoBlank xs = (front rest : List ℕ) → xs ≢ front ++ blank_line ++ rest

NoBlank-part :
    (held unread : List ℕ) (index : ℕ) → NoBlank (held ++ unread) → body_start held ≡ some index → ⊥
NoBlank-part held unread index n e =
    let b = (body_start-Leaves held index e).blank in
    n b.front (b.rest ++ unread)
      (ap (λ xs. xs ++ unread) b.all ∙ append_assoc (b.front ++ blank_line) b.rest unread)

read_reply-waits :
    (fuel : ℕ) (buffer : List ℕ) (s : Stream)
    → s.deadline ≡ none
    → NoFail s.incoming
    → NoBlank (buffer ++ delivered s)
    → (read_reply fuel buffer s).0 ≡ elapsed
read_reply-waits zero buffer s idle calm n = unfold read_reply in refl
read_reply-waits (suc fuel) buffer s idle calm n =
    let g = read_from_stream-Got s idle calm in
    let all : buffer ++ g.tmp ++ delivered g.after ≡ buffer ++ delivered s =
      split_all fuel buffer s g in
    let n' : NoBlank (buffer ++ g.tmp ++ delivered g.after) = subst NoBlank (sym all) n in
    elim (Option-cases (body_start (buffer ++ g.tmp))) [
      | inl e ↦
          ap (λ r. r.0) (read_reply-on fuel buffer s g e)
          ∙ read_reply-waits fuel (buffer ++ g.tmp) g.after (g.untouched.deadline ∙ idle) g.calm n'
      | inr (i, e) ↦ absurd (NoBlank-part (buffer ++ g.tmp) (delivered g.after) i n' e)
    ]

-- `handShake` over a connection whose peer closes without a failure before it has sent "\r\n\r\n", with
-- writes that succeed and no `timeout` around it, does not end, however many rounds it is given.
pub hand_shake-waits :
    (pooled : List ℕ) (room fuel : ℕ) (target : ProxyTarget) (s : Stream)
    → s.deadline ≡ none
    → NoFail s.incoming
    → s.fates ≡ []
    → NoBlank (delivered s)
    → (hand_shake pooled room fuel target s).0 ≡ elapsed
unfolding hand_shake written
hand_shake-waits pooled room fuel target s idle calm w n =
    let s1 : Stream = written room (pooled ++ connect_request target) s in
    let same : delivered s ≡ delivered s1 = unfold delivered in refl in
    let never = read_reply-waits fuel [] s1 idle calm (subst NoBlank same n) in
    rw (write_to_stream-written room (pooled ++ connect_request target) s w)
      (ap (λ o. (continue o reply_body (read_reply fuel [] s1).1).0) never)
