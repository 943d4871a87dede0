-- ===== src/Stream/Join.antt =====
-- stream.rs, `create_bidirectional_tunnel`: the two relays of a tunnel, in any order of their rounds.
use crabby_proxy.Prelude.{
  ℕ, suc, ◌%◌, ◌^◌, ◌≤◌, ◌<◌, ◌≡◌, refl, sym, ap, subst, Bool, true, false, none, some, List, [],
  ◌∷◌, length, arith,
}
use crabby_proxy.Net.{Stream, IoError}
use crabby_proxy.Net.Read.Delivery.{NoFail, delivered}
use crabby_proxy.Stream.{
  join_rounds, Status, running, finished, broken, Tunnel, new, round, bidirectional, try_join,
  joined,
}
use crabby_proxy.Stream.Relay.{Relayed, rounds-Relayed}
use crabby_proxy.Stream.Due.{Due, Due-finished, Due-broken, Due-later, Due-over}

-- How often the relay that reads the first stream runs, and how often the other.
abbrev pub turns : Bool → List Bool → ℕ
turns b [] = 0
turns true (true ∷ schedule) = suc (turns true schedule)
turns true (false ∷ schedule) = turns true schedule
turns false (true ∷ schedule) = turns false schedule
turns false (false ∷ schedule) = suc (turns false schedule)

-- No `timeout`, no failure to come, and writes succeed.
pub record IsCalm (s : Stream) : Type 0 where
  pub idle : s.deadline ≡ none
  pub calm : NoFail s.incoming
  pub writable : s.fates ≡ []

-- One relay has failed, both have ended, or the tunnel goes on.
data Joint (a b : Status) : Type 0 where
  first_broken : (e : IoError) → a ≡ broken e → Joint a b
  second_broken : (e : IoError) → b ≡ broken e → Joint a b
  both : (i j : ℕ) → a ≡ finished i → b ≡ finished j → Joint a b
  on : joined a b ≡ none → Joint a b

joint : (a b : Status) → Joint a b
joint (broken e) b = first_broken e refl
joint (running i) (broken e) = second_broken e refl
joint (finished i) (broken e) = second_broken e refl
joint (finished i) (finished j) = both i j refl refl
joint (running i) (running j) = on refl
joint (running i) (finished j) = on refl
joint (finished i) (running j) = on refl

join_rounds-over :
    (size : ℕ) (which : Bool) (schedule : List Bool) (t : Tunnel) (i j : ℕ)
    → t.first.status ≡ finished i
    → t.second.status ≡ finished j
    → join_rounds size (which ∷ schedule) t ≡ t
unfolding join_rounds
join_rounds-over size which schedule t i j e f = rw (e, f) refl

join_rounds-first :
    (size : ℕ) (schedule : List Bool) (t : Tunnel)
    → joined t.first.status t.second.status ≡ none
    → join_rounds size (true ∷ schedule) t
      ≡ join_rounds size schedule (record t { first = round size t.first })
unfolding join_rounds
join_rounds-first size schedule t e =
    ap
      (λ j. elim j as (λ _. Tunnel) [
        | some over ↦ t
        | none ↦ join_rounds size schedule (record t { first = round size t.first })
      ])
      e

join_rounds-second :
    (size : ℕ) (schedule : List Bool) (t : Tunnel)
    → joined t.first.status t.second.status ≡ none
    → join_rounds size (false ∷ schedule) t
      ≡ join_rounds size schedule (record t { second = round size t.second })
unfolding join_rounds
join_rounds-second size schedule t e =
    ap
      (λ j. elim j as (λ _. Tunnel) [
        | some over ↦ t
        | none ↦ join_rounds size schedule (record t { second = round size t.second })
      ])
      e

-- What both relays of a tunnel come to.
pub record Exchanged (t : Tunnel) (base1 bs1 : List ℕ) (count1 : ℕ) (base2 bs2 : List ℕ)
    (count2 : ℕ) : Type 0 where
  pub first : Relayed t.first base1 bs1 count1
  pub second : Relayed t.second base2 bs2 count2

module _ (size : ℕ) (base1 bs1 : List ℕ) (count1 : ℕ) (base2 bs2 : List ℕ) (count2 : ℕ) where
  Ended : Tunnel → Type 0
  Ended t = Exchanged t base1 bs1 count1 base2 bs2 count2

  already :
      (which : Bool) (schedule : List Bool) (t : Tunnel) (i j m n : ℕ)
      → t.first.status ≡ finished i
      → t.second.status ≡ finished j
      → Due size base1 bs1 count1 m t.first
      → Due size base2 bs2 count2 n t.second
      → Ended (join_rounds size (which ∷ schedule) t)
  unfolding Ended
  already which schedule t i j m n x y d1 d2 =
      subst (λ u. Ended u) (sym (join_rounds-over size which schedule t i j x y))
        (record {
          first = Due-finished size base1 bs1 count1 m i t.first x d1;
          second = Due-finished size base2 bs2 count2 n j t.second y d2;
        })

  join_rounds_lem :
      (schedule : List Bool) (t : Tunnel) (m n : ℕ)
      → Due size base1 bs1 count1 m t.first
      → Due size base2 bs2 count2 n t.second
      → m ≤ turns true schedule
      → n ≤ turns false schedule
      → Ended (join_rounds size schedule t)
  unfolding Ended
  join_rounds_lem [] t m n d1 d2 h1 h2 =
      unfold join_rounds in
      record {
        first = Due-over size base1 bs1 count1 m t.first h1 d1;
        second = Due-over size base2 bs2 count2 n t.second h2 d2;
      }
  join_rounds_lem (true ∷ schedule) t m n d1 d2 h1 h2 =
      elim (joint t.first.status t.second.status) [
        | first_broken e x ↦ absurd (Due-broken size base1 bs1 count1 m e t.first x d1)
        | second_broken e x ↦ absurd (Due-broken size base2 bs2 count2 n e t.second x d2)
        | both i j x y ↦ already true schedule t i j m n x y d1 d2
        | on x ↦
            let (l, below, d) = Due-later size base1 bs1 count1 m _ t.first h1 d1 in
            subst (λ u. Ended u) (sym (join_rounds-first size schedule t x))
              (join_rounds_lem schedule (record t { first = round size t.first }) l n d d2 below h2)
      ]
  join_rounds_lem (false ∷ schedule) t m n d1 d2 h1 h2 =
      elim (joint t.first.status t.second.status) [
        | first_broken e x ↦ absurd (Due-broken size base1 bs1 count1 m e t.first x d1)
        | second_broken e x ↦ absurd (Due-broken size base2 bs2 count2 n e t.second x d2)
        | both i j x y ↦ already false schedule t i j m n x y d1 d2
        | on x ↦
            let (l, below, d) = Due-later size base2 bs2 count2 n _ t.second h2 d2 in
            subst (λ u. Ended u) (sym (join_rounds-second size schedule t x))
              (join_rounds_lem schedule (record t { second = round size t.second }) m l d1 d h1
                below)
      ]

-- The buffers of the relays have at least one byte.
pub join_rounds-Exchanged :
    (room : ℕ) (schedule : List Bool) (s1 s2 : Stream)
    → IsCalm s1
    → IsCalm s2
    → length (delivered s1) < turns true schedule
    → length (delivered s2) < turns false schedule
    → Exchanged
        (join_rounds (suc room) schedule (bidirectional s1 s2))
        s2.sent
        (delivered s1)
        (length (delivered s1) % 2 ^ 64)
        s1.sent
        (delivered s2)
        (length (delivered s2) % 2 ^ 64)
unfolding bidirectional Ended
join_rounds-Exchanged room schedule s1 s2 c1 c2 h1 h2 =
    join_rounds_lem (suc room) s2.sent (delivered s1) _ s1.sent (delivered s2) _ schedule
      (record { first = new s1 s2; second = new s2 s1 }) (turns true schedule)
      (turns false schedule)
      (unfold Due in rounds-Relayed room _ s1 s2 c1.idle c1.calm c2.writable h1)
      (unfold Due in rounds-Relayed room _ s2 s1 c2.idle c2.calm c1.writable h2) (omega arith)
      (omega arith)

-- A tunnel between two streams whose peers close without a failure, with writes that succeed and no
-- `timeout` around it, hands the bytes of each to the other, all of them and in their order, shuts
-- both, and counts them modulo 2 ^ 64, in whatever order its relays run, if each has more turns than its
-- source has bytes.
pub try_join-Exchanged :
    (schedule : List Bool) (s1 s2 : Stream)
    → IsCalm s1
    → IsCalm s2
    → length (delivered s1) < turns true schedule
    → length (delivered s2) < turns false schedule
    → Exchanged
        (try_join schedule (bidirectional s1 s2))
        s2.sent
        (delivered s1)
        (length (delivered s1) % 2 ^ 64)
        s1.sent
        (delivered s2)
        (length (delivered s2) % 2 ^ 64)
unfolding try_join
try_join-Exchanged schedule s1 s2 c1 c2 h1 h2 =
    join_rounds-Exchanged 1023 schedule s1 s2 c1 c2 h1 h2
