-- ===== src/Net/Read/Steps.antt =====
-- Calls on a stream that delivers known bytes and takes what is written, one after the other.
use crabby_proxy.Prelude.{
  ℕ, zero, suc, ◌≤◌, ◌<◌, ◌≡◌, ◌≢◌, refl, sym, ap, ◌∙◌, Bool, true, false, none, List, [], ◌∷◌,
  ◌++◌, ==_ne, length, length-append, append_assoc, append-nil, arith,
}
use crabby_proxy.Net.{IoError, Event, arrive, pause, fail, Stream}
use crabby_proxy.Net.Io.{Io, done, pure}
use crabby_proxy.Net.Read.{read_exact, write_all, write_fate}
use crabby_proxy.Net.Read.Delivery.{delivered, delivered_from, read_exact_lem, NoFail, pauses}
use crabby_proxy.Net.Common.{until_nul, read_user_id, fuel_of, bytes_from}

-- No `timeout` is around the code, writes succeed, and the peer delivers `bs`.
pub record Delivers (s : Stream) (bs : List ℕ) : Type 0 where
  pub idle : s.deadline ≡ none
  pub writable : s.fates ≡ []
  pub all : delivered s ≡ bs

-- From `s` to `t` the bytes up to `rest` were read and `out` was written, and no failure came up.
pub record Moves (s t : Stream) (rest out : List ℕ) : Type 0 where
  pub delivers : Delivers t rest
  pub wrote : t.sent ≡ s.sent ++ out
  pub kind : t.kind ≡ s.kind
  pub calm : NoFail s.incoming → NoFail t.incoming
  pub sooner : pauses t.incoming ≤ pauses s.incoming

pub Moves-refl : (s : Stream) (rest : List ℕ) → Delivers s rest → Moves s s rest []
Moves-refl s rest d = record {
  delivers = d;
  wrote = sym (append-nil s.sent);
  kind = refl;
  calm = λ c. c;
  sooner = omega arith;
}

pub read_step :
    (s : Stream) (bs rest : List ℕ)
    → Delivers s (bs ++ rest)
    → (t : Stream) × (read_exact (length bs) s ≡ (done bs, t)) × Moves s t rest []
read_step s bs rest d =
    let (t, e, a) = read_exact_lem s bs rest d.idle d.all in
    (
      t,
      e,
      record {
        delivers = record {
          idle = a.untouched.deadline ∙ d.idle;
          writable = a.untouched.fates ∙ d.writable;
          all = a.left;
        };
        wrote = a.untouched.sent ∙ sym (append-nil s.sent);
        kind = a.untouched.kind;
        calm = a.untouched.calm;
        sooner = a.untouched.sooner;
      },
    )

pub write_step :
    (s : Stream) (out rest : List ℕ)
    → Delivers s rest
    → (t : Stream) × (write_all out s ≡ (done tt, t)) × Moves s t rest out
unfolding write_all delivered
write_step s out rest d = (
  record s { sent = s.sent ++ out },
  ap (λ fs. write_fate out fs s) d.writable,
  record {
    delivers = record { idle = d.idle; writable = d.writable; all = d.all };
    wrote = refl;
    kind = refl;
    calm = λ c. c;
    sooner = omega arith;
  },
)

pub Moves-trans :
    (s t u : Stream) (rest rest' out out' : List ℕ)
    → Moves s t rest out
    → Moves t u rest' out'
    → Moves s u rest' (out ++ out')
Moves-trans s t u rest rest' out out' m n = record {
  delivers = n.delivers;
  wrote = n.wrote ∙ ap (λ x. x ++ out') m.wrote ∙ append_assoc s.sent out out';
  kind = n.kind ∙ m.kind;
  calm = λ c. n.calm (m.calm c);
  sooner = omega (arith, m.sooner, n.sooner);
}

delivered_from-le : (es : List Event) → length (delivered_from es) ≤ bytes_from es
unfolding delivered_from bytes_from
delivered_from-le [] = omega arith
delivered_from-le (arrive bs ∷ es) =
    omega (arith, delivered_from-le es, length-append bs (delivered_from es))
delivered_from-le (pause t ∷ es) = delivered_from-le es
delivered_from-le (fail e ∷ es) = omega arith

pub delivered-lt-fuel_of : (s : Stream) → length (delivered s) < fuel_of s
unfolding delivered fuel_of
delivered-lt-fuel_of s =
    omega (arith, length-append s.ready (delivered_from s.incoming), delivered_from-le s.incoming)

abbrev pub NoNul : List ℕ → Type 0
NoNul [] = Unit {0}
NoNul (c ∷ cs) = (c ≢ 0) × NoNul cs

until_nul_byte :
    (fuel : ℕ) (before : List ℕ) (s : Stream) (c : ℕ) (t : Stream)
    → read_exact 1 s ≡ (done (c ∷ []), t)
    → c ≢ 0
    → until_nul (suc fuel) before s ≡ until_nul fuel (before ++ c ∷ []) t
unfolding until_nul
until_nul_byte fuel before s c t e n = rw e (
    ap
      (λ (b : Bool).
        (elim b as (λ _. Io IoError (List ℕ)) [
          | true ↦ pure before
          | false ↦ until_nul fuel (before ++ c ∷ [])
        ])
          t)
      (==_ne c 0 n))

until_nul_lem :
    (fuel : ℕ) (user_id rest before : List ℕ) (s : Stream)
    → Delivers s (user_id ++ 0 ∷ rest)
    → NoNul user_id
    → length user_id < fuel
    → (t : Stream) × (until_nul fuel before s ≡ (done (before ++ user_id), t)) × Moves s t rest []
unfolding until_nul
until_nul_lem zero user_id rest before s d n h = absurd (omega arith)
until_nul_lem (suc fuel) [] rest before s d n h =
    let (t, e, m) = read_step s (0 ∷ []) rest d in (t, rw e (ground (arith, append-nil before)), m)
until_nul_lem (suc fuel) (c ∷ cs) rest before s d n h =
    let (t, e, m) = read_step s (c ∷ []) (cs ++ 0 ∷ rest) d in
    let (u, e', m') =
      until_nul_lem fuel cs rest (before ++ c ∷ []) t m.delivers n.1 (omega arith) in
    (
      u,
      until_nul_byte fuel before s c t e n.0
          ∙ e'
          ∙ ap (λ (xs : List ℕ). (done xs, u)) (append_assoc before (c ∷ []) cs),
      Moves-trans s t u _ _ _ _ m m',
    )

pub user_id_step :
    (s : Stream) (user_id rest : List ℕ)
    → Delivers s (user_id ++ 0 ∷ rest)
    → NoNul user_id
    → (t : Stream) × (read_user_id s ≡ (done user_id, t)) × Moves s t rest []
unfolding read_user_id
user_id_step s user_id rest d n = until_nul_lem (fuel_of s) user_id rest [] s d n (
    omega
      (arith, delivered-lt-fuel_of s, ap (λ xs. length xs) d.all, length-append user_id (0 ∷ rest)))
