-- ===== src/Proxy/Target/Sni/Scanned.antt =====
-- proxy/listener.rs, `parse_https_target_from_stream`: the target of a TLS client.
use crabby_proxy.Prelude.{
  ℕ, zero, suc, ◌+◌, ◌-◌, ◌≤◌, ◌<◌, ◌≡◌, ◌≢◌, inl, inr, refl, sym, subst, Option, Option-cases,
  Bool-cases, none, some, List, [], ◌∷◌, ltb, ◌==◌, length, take, arith,
}
use crabby_proxy.Text.{codes}
use crabby_proxy.Net.{Stream, plain}
use crabby_proxy.Net.Io.{done}
use crabby_proxy.Net.Common.{byte_at}
use crabby_proxy.Net.Read.Peek.{peek_step}
use crabby_proxy.Net.Read.Steps.{Delivers, Moves}
use crabby_proxy.Proxy.Protocol.{ProxyTarget}
use crabby_proxy.Proxy.Target.Sni.{
  sni_at, sni_scan, sni_target, extract_sni_from_tls, parse_https_target_from_stream,
}
use crabby_proxy.Proxy.Target.Sni.First.{FirstName, lt_or_eq, extract_sni_from_tls-FirstName}

-- Data with no name: it is short, it does not begin as a handshake, or no round of the scan finds one.
pub data NoName (bytes : List ℕ) : Type 0 where
  short : length bytes < 43 → NoName bytes
  no_handshake : byte_at 0 bytes ≢ 0x16 → NoName bytes
  not_found : ((i : ℕ) → i + 10 < length bytes → sni_at i bytes ≡ none) → NoName bytes

-- The target that the data stands for.
pub data TargetOf (bytes : List ℕ) : ProxyTarget → Type 0 where
  named :
      (host : List ℕ) → FirstName bytes host → TargetOf bytes (record { host = host; port = 443 })
  unnamed : NoName bytes → TargetOf bytes (record { host = codes "unknown.host"; port = 443 })

neither {ℓ} :
    {A : Type ℓ} (o rest : Option A)
    → (elim o as (λ _. Option A) [ some x ↦ some x | none ↦ rest ]) ≡ none
    → (o ≡ none) × (rest ≡ none)
neither none rest e = (refl, e)
neither (some x) rest e = cc

sni_scan-none :
    (rounds i : ℕ) (bytes : List ℕ)
    → sni_scan rounds i bytes ≡ none
    → (j : ℕ) → i ≤ j
    → j < i + rounds
    → sni_at j bytes ≡ none
unfolding sni_scan
sni_scan-none zero i bytes e j a b = absurd (omega (arith, a, b))
sni_scan-none (suc rounds) i bytes e j a b =
    let (none_here, later) = neither (sni_at i bytes) (sni_scan rounds (i + 1) bytes) e in
    elim (lt_or_eq i j a) [
      | inl same ↦ subst (λ k. sni_at k bytes ≡ none) same none_here
      | inr above ↦ sni_scan-none rounds (i + 1) bytes later j above (omega (arith, b))
    ]

extract_sni_from_tls-NoName : (bytes : List ℕ) → extract_sni_from_tls bytes ≡ none → NoName bytes
unfolding extract_sni_from_tls
extract_sni_from_tls-NoName bytes e = elim (Bool-cases (ltb (length bytes) 43)) [
  | inl less ↦ short (ground (arith, less))
  | inr enough ↦ elim (Bool-cases (byte_at 0 bytes == 0x16)) [
    | inr other ↦ no_handshake (ground (arith, other))
    | inl handshake ↦
        let scanned : sni_scan (length bytes - 10) 0 bytes ≡ none =
          ground (arith, e, enough, handshake) in
        not_found (λ i b.
          sni_scan-none (length bytes - 10) 0 bytes scanned i (omega arith) (omega (arith, b)))
  ]
]

sni_target-TargetOf : (bytes : List ℕ) → TargetOf bytes (sni_target (extract_sni_from_tls bytes))
unfolding sni_target
sni_target-TargetOf bytes = elim (Option-cases (extract_sni_from_tls bytes)) [
  | inl e ↦
      subst (λ o. TargetOf bytes (sni_target o)) (sym e)
        (unnamed (extract_sni_from_tls-NoName bytes e))
  | inr (host, e) ↦
      subst (λ o. TargetOf bytes (sni_target o)) (sym e)
        (named host (extract_sni_from_tls-FirstName bytes host e))
]

-- A target from the front of what has arrived, of which nothing is taken.
pub record Scanned (s : Stream) (all arrived : List ℕ) : Type 0 where
  pub target : ProxyTarget
  pub after : Stream
  pub got : parse_https_target_from_stream s ≡ (done target, after)
  pub kept : Moves s after all []
  pub target_of : TargetOf (take 512 arrived) target

-- For a client over plain TCP of which something has arrived, `parse_https_target_from_stream` yields a target
-- at port 443 and takes and writes nothing. The host is the one that the first 512 bytes of what has arrived
-- name as a TLS handshake; it is "unknown.host" only if these are fewer than 43, do not begin with 22, or hold
-- a name at no place that the scan looks at.
pub parse_https_target_from_stream-Scanned :
    (s : Stream) (b : ℕ) (bs all : List ℕ)
    → s.kind ≡ plain
    → s.ready ≡ b ∷ bs
    → Delivers s all
    → Scanned s all (b ∷ bs)
unfolding parse_https_target_from_stream
parse_https_target_from_stream-Scanned s b bs all k e d =
    let (t, p, m) = peek_step 512 s b bs all k e d in
    record {
      target = sni_target (extract_sni_from_tls (take 512 (b ∷ bs)));
      after = t;
      got = rw p refl;
      kept = m;
      target_of = sni_target-TargetOf (take 512 (b ∷ bs));
    }
