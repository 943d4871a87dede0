-- ===== src/Stream/Due.antt =====
-- stream.rs, `TunnelStream::relay_with_logging`: the rounds that a relay still needs.
use crabby_proxy.Prelude.{ℕ, zero, suc, ◌≤◌, ◌≡◌, refl, sym, ap, ◌∙◌, subst, List, arith}
use crabby_proxy.Net.{IoError}
use crabby_proxy.Stream.{finished, broken, TunnelStream, round, round_of, rounds}
use crabby_proxy.Stream.Relay.{Relayed, rounds-finished}

pub rounds-broken :
    (size n : ℕ) (e : IoError) (t : TunnelStream) → t.status ≡ broken e → rounds size n t ≡ t
unfolding rounds round
rounds-broken size zero e t h = refl
rounds-broken size (suc n) e t h =
    let still : round_of size t.status t ≡ t = ap (λ s. round_of size s t) h in
    ap (λ u. rounds size n u) still ∙ rounds-broken size n e t h

module _ (size : ℕ) (base bs : List ℕ) (count : ℕ) where
  -- `n` rounds finish the relay.
  unfoldable pub Due : ℕ → TunnelStream → Type 0
  Due n t = Relayed (rounds size n t) base bs count

  pub Due-round : (n : ℕ) (t : TunnelStream) → Due (suc n) t → Due n (round size t)
  unfolding rounds Due
  Due-round n t d = d

  pub Due-zero-round : (t : TunnelStream) → Due 0 t → Due 0 (round size t)
  unfolding rounds round Due
  Due-zero-round t d =
      subst (λ u. Relayed u base bs count) (sym (ap (λ s. round_of size s t) d.counted)) d

  pub Due-finished :
      (n k : ℕ) (t : TunnelStream) → t.status ≡ finished k → Due n t → Relayed t base bs count
  unfolding Due
  Due-finished n k t e d = subst (λ u. Relayed u base bs count) (rounds-finished size n k t e) d

  pub Due-broken : (n : ℕ) (e : IoError) (t : TunnelStream) → t.status ≡ broken e → Due n t → ⊥
  unfolding Due
  Due-broken n e t h d =
      let still : t.status ≡ finished count =
        ap (λ u. u.status) (sym (rounds-broken size n e t h)) ∙ d.counted in
      absurd (cc)

  pub Due-later :
      (m k : ℕ) (t : TunnelStream) → m ≤ suc k → Due m t → (l : ℕ) × (l ≤ k) × Due l (round size t)
  Due-later zero k t h d = (0, omega arith, Due-zero-round t d)
  Due-later (suc m) k t h d = (m, omega arith, Due-round m t d)

  pub Due-over : (m : ℕ) (t : TunnelStream) → m ≤ 0 → Due m t → Relayed t base bs count
  unfolding Due rounds
  Due-over zero t h d = d
  Due-over (suc m) t h d = absurd (omega arith)
