-- ===== src/Stream/Relay.antt =====
-- stream.rs, `relay_with_logging`: a relay hands on every byte and ends.
use crabby_proxy.Prelude.{
  ℕ, zero, suc, ◌+◌, ◌%◌, ◌^◌, ◌<◌, ◌≡◌, refl, sym, ap, ◌∙◌, subst, inl, inr, true, none, List, [],
  ◌∷◌, ◌++◌, length, length-append, append_assoc, append-nil, arith,
}
use crabby_proxy.Net.{Stream}
use crabby_proxy.Net.Read.{write_all, write_fate, shutdown, shut_fate}
use crabby_proxy.Net.Read.Delivery.{NoFail, delivered}
use crabby_proxy.Net.Read.Steps.{delivered-lt-fuel_of}
use crabby_proxy.Net.Read.Chunk.{Chunk, AtEnd, read_cases}
use crabby_proxy.Net.Common.{fuel_of}
use crabby_proxy.Stream.{
  running, finished, TunnelStream, new, round, rounds, round_of, pass_on, wrote, close_sink,
  relay_with_logging,
}

-- A relay that has begun, with `total` bytes counted.
unfoldable pub at : ℕ → Stream → Stream → TunnelStream
at total source sink = record { source = source; sink = sink; status = running total }

-- The relay is over, and `bs` stands behind what was written before.
pub record Relayed (t : TunnelStream) (base bs : List ℕ) (count : ℕ) : Type 0 where
  pub counted : t.status ≡ finished count
  pub wrote : t.sink.sent ≡ base ++ bs
  pub is_shut : t.sink.is_shut ≡ true

pub rounds-finished :
    (size n count : ℕ) (t : TunnelStream) → t.status ≡ finished count → rounds size n t ≡ t
unfolding rounds round
rounds-finished size zero count t e = refl
rounds-finished size (suc n) count t e =
    let still : round_of size t.status t ≡ t = ap (λ s. round_of size s t) e in
    ap (λ u. rounds size n u) still ∙ rounds-finished size n count t e

-- The sink is shut at the end of the source.
ended : ℕ → Stream → Stream → TunnelStream
ended total source sink = record {
  source = source;
  sink = record sink { is_shut = true };
  status = finished total;
}

round-end :
    (room total : ℕ) (source sink : Stream)
    → sink.fates ≡ []
    → (a : AtEnd room source) → round (suc room) (at total source sink) ≡ ended total a.after sink
unfolding round shutdown at ended
round-end room total source sink w a =
    ap (λ r. pass_on total (at total source sink) r) a.got
    ∙ ap (λ fs. close_sink total (at total a.after sink) (shut_fate fs sink)) w

round-Chunk :
    (room total : ℕ) (source sink : Stream)
    → sink.fates ≡ []
    → (c : Chunk room source)
    → round (suc room) (at total source sink)
      ≡ at
          ((total + length (c.head ∷ c.tail)) % 2 ^ 64)
          c.after
          (record sink { sent = sink.sent ++ (c.head ∷ c.tail) })
unfolding round write_all at
round-Chunk room total source sink w c =
    ap (λ r. pass_on total (at total source sink) r) c.got
    ∙ ap
        (λ fs.
          wrote total (length (c.head ∷ c.tail)) (at total c.after sink)
            (write_fate (c.head ∷ c.tail) fs sink))
        w

mod_lt : (n : ℕ) → n % 2 ^ 64 < 2 ^ 64
mod_lt n = omega arith

count_end :
    (total : ℕ) (bs : List ℕ) → total < 2 ^ 64 → bs ≡ [] → total ≡ (total + length bs) % 2 ^ 64
count_end total bs h e = let size : length bs ≡ 0 = ap (λ xs. length xs) e in omega (arith, size)

count_chunk :
    (total a b c : ℕ) → a + b ≡ c → ((total + a) % 2 ^ 64 + b) % 2 ^ 64 ≡ (total + c) % 2 ^ 64
count_chunk total a b c e = omega arith

shorter : (bs : List ℕ) (k m n : ℕ) → suc (length bs) + k ≡ m → m < suc n → k < n
shorter bs k m n e h = omega arith

rounds_lem :
    (room n total : ℕ) (source sink : Stream)
    → source.deadline ≡ none
    → NoFail source.incoming
    → sink.fates ≡ []
    → length (delivered source) < n
    → total < 2 ^ 64
    → Relayed
        (rounds (suc room) n (at total source sink))
        sink.sent
        (delivered source)
        ((total + length (delivered source)) % 2 ^ 64)
unfolding rounds at ended
rounds_lem room zero total source sink idle calm w f h = absurd (omega arith)
rounds_lem room (suc n) total source sink idle calm w f h =
    elim (read_cases room source idle calm) [
      | inl a ↦
          let over : rounds (suc room) n (round (suc room) (at total source sink))
              ≡ ended total a.after sink =
            ap (λ t. rounds (suc room) n t) (round-end room total source sink w a)
            ∙ rounds-finished (suc room) n total _ refl in
          record {
            counted =
                ap (λ t. t.status) over ∙ ap finished (count_end total (delivered source) h a.all);
            wrote =
                ap (λ t. t.sink.sent) over
                ∙ sym (append-nil sink.sent)
                ∙ ap (λ xs. sink.sent ++ xs) (sym a.all);
            is_shut = ap (λ t. t.sink.is_shut) over;
          }
      | inr c ↦
          let chunk : List ℕ = c.head ∷ c.tail in
          let size : length chunk + length (delivered c.after) ≡ length (delivered source) =
            sym (length-append chunk (delivered c.after)) ∙ ap (λ xs. length xs) c.all in
          let on = ap (λ t. rounds (suc room) n t) (round-Chunk room total source sink w c) in
          let r =
            rounds_lem room n ((total + length chunk) % 2 ^ 64) c.after
              (record sink { sent = sink.sent ++ chunk }) (c.untouched.deadline ∙ idle) c.calm w
              (shorter c.tail _ _ n size f) (mod_lt _) in
          record {
            counted =
                ap (λ t. t.status) on
                ∙ r.counted
                ∙ ap finished (count_chunk total (length chunk) _ _ size);
            wrote =
                ap (λ t. t.sink.sent) on
                ∙ r.wrote
                ∙ append_assoc sink.sent chunk (delivered c.after)
                ∙ ap (λ xs. sink.sent ++ xs) c.all;
            is_shut = ap (λ t. t.sink.is_shut) on ∙ r.is_shut;
          }
    ]

-- The rounds from the first on.
pub rounds-Relayed :
    (room n : ℕ) (source sink : Stream)
    → source.deadline ≡ none
    → NoFail source.incoming
    → sink.fates ≡ []
    → length (delivered source) < n
    → Relayed
        (rounds (suc room) n (new source sink))
        sink.sent
        (delivered source)
        (length (delivered source) % 2 ^ 64)
unfolding new at
rounds-Relayed room n source sink idle calm w h =
    let size : ℕ = length (delivered source) in
    let zero_first : (0 + size) % 2 ^ 64 ≡ size % 2 ^ 64 =
      ap (λ (k : ℕ). k % 2 ^ 64) (omega arith) in
    subst
      (λ count. Relayed (rounds (suc room) n (at 0 source sink)) sink.sent (delivered source) count)
      zero_first (rounds_lem room n 0 source sink idle calm w h (omega arith))

-- `relay_with_logging` from a source that closes without a failure to a sink whose writes succeed, with no
-- `timeout` around it, ends; it has written all the bytes that the source delivers, in their order, has
-- shut the sink, and returns their number modulo 2 ^ 64.
pub relay_with_logging-Relayed :
    (source sink : Stream)
    → source.deadline ≡ none
    → NoFail source.incoming
    → sink.fates ≡ []
    → Relayed
        (relay_with_logging (new source sink))
        sink.sent
        (delivered source)
        (length (delivered source) % 2 ^ 64)
unfolding relay_with_logging new
relay_with_logging-Relayed source sink idle calm w =
    rounds-Relayed 1023 (fuel_of source) source sink idle calm w (delivered-lt-fuel_of source)
