-- ===== src/Proxy/Target/Sni/First.antt =====
-- proxy/listener.rs, `extract_sni_from_tls`: which name the scan finds.
use crabby_proxy.Prelude.{
  ℕ, zero, suc, ◌+◌, ◌-◌, ◌≤◌, ◌<◌, ◌≡◌, ◌⊎◌, inl, inr, refl, subst, Bool, true, false, not, ◌&&◌,
  ◌||◌, Option, none, some, List, [], ◌∷◌, ltb, leb, ◌==◌, if◌then◌else◌, length, take, drop, arith,
}
use crabby_proxy.Text.{text_eq, text_eq_sound}
use crabby_proxy.Text.Utf8.{from_utf8}
use crabby_proxy.Net.Common.{byte_at}
use crabby_proxy.Proxy.Target.Sni.{sni_at, sni_scan, extract_sni_from_tls}

-- The name at `i`: four zeros stand there, its length is the byte at `i + 9`, and it lies within the data.
pub record NameAt (i : ℕ) (bytes host : List ℕ) : Type 0 where
  pub marked : take 4 (drop i bytes) ≡ 0 ∷ 0 ∷ 0 ∷ 0 ∷ []
  pub within : i + 10 + byte_at (i + 9) bytes ≤ length bytes
  pub named : from_utf8 (take (byte_at (i + 9) bytes) (drop (i + 10) bytes)) ≡ some host

if-some {ℓ} :
    {A : Type ℓ} (b : Bool) (o : Option A) (a : A)
    → (if b then o else none) ≡ some a
    → (b ≡ true) × (o ≡ some a)
if-some true o a e = (refl, e)
if-some false o a e = cc

else-some {ℓ} :
    {A : Type ℓ} (b : Bool) (o : Option A) (a : A)
    → (if b then none else o) ≡ some a
    → (b ≡ false) × (o ≡ some a)
else-some true o a e = cc
else-some false o a e = (refl, e)

pub lt_or_eq : (i j : ℕ) → i ≤ j → (i ≡ j) ⊎ (i + 1 ≤ j)
lt_or_eq i j h = ground arith

or_else {ℓ} :
    {A : Type ℓ} (o rest : Option A) (a : A)
    → (elim o as (λ _. Option A) [ some x ↦ some x | none ↦ rest ]) ≡ some a
    → (o ≡ some a) ⊎ ((o ≡ none) × (rest ≡ some a))
or_else none rest a e = inr (refl, e)
or_else (some x) rest a e = inl e

sni_at-NameAt : (i : ℕ) (bytes host : List ℕ) → sni_at i bytes ≡ some host → NameAt i bytes host
unfolding sni_at
sni_at-NameAt i bytes host e =
    let test : Bool =
      text_eq (take 4 (drop i bytes)) (0 ∷ 0 ∷ 0 ∷ 0 ∷ [])
      && ltb (i + 9) (length bytes)
      && leb (i + 10 + byte_at (i + 9) bytes) (length bytes) in
    let (t, named) = if-some test _ host e in
    record {
      marked = text_eq_sound (take 4 (drop i bytes)) (0 ∷ 0 ∷ 0 ∷ 0 ∷ []) (ground (arith, t));
      within = ground (arith, t);
      named = named;
    }

-- The scan over the rounds from `i` on.
record FirstFrom (i rounds : ℕ) (bytes host : List ℕ) : Type 0 where
  index : ℕ
  from : i ≤ index
  before : index < i + rounds
  found : sni_at index bytes ≡ some host
  first : (j : ℕ) → i ≤ j → j < index → sni_at j bytes ≡ none

sni_scan-FirstFrom :
    (rounds i : ℕ) (bytes host : List ℕ)
    → sni_scan rounds i bytes ≡ some host
    → FirstFrom i rounds bytes host
unfolding sni_scan
sni_scan-FirstFrom zero i bytes host e = cc
sni_scan-FirstFrom (suc rounds) i bytes host e =
    elim (or_else (sni_at i bytes) (sni_scan rounds (i + 1) bytes) host e) [
      | inl here ↦ record {
        index = i;
        from = omega arith;
        before = omega arith;
        found = here;
        first = λ j a b. absurd (omega (arith, a, b));
      }
      | inr (none_here, later) ↦
          let f = sni_scan-FirstFrom rounds (i + 1) bytes host later in
          record {
            index = f.index;
            from = omega (arith, f.from);
            before = omega (arith, f.before);
            found = f.found;
            first = λ j a b. elim (lt_or_eq i j a) [
              | inl same ↦ subst (λ k. sni_at k bytes ≡ none) same none_here
              | inr above ↦ f.first j above b
            ];
          }
    ]

guard_passed : (n b : ℕ) → (ltb n 43 || not (b == 0x16)) ≡ false → (43 ≤ n) × (b ≡ 0x16)
guard_passed n b h = (ground arith, ground arith)

-- What the data of a TLS handshake with a name must be.
pub record FirstName (bytes host : List ℕ) : Type 0 where
  pub index : ℕ
  pub is_handshake : byte_at 0 bytes ≡ 0x16
  pub long : 43 ≤ length bytes
  pub inside : index + 10 < length bytes
  pub name : NameAt index bytes host
  pub first : (j : ℕ) → j < index → sni_at j bytes ≡ none

-- A name that `extract_sni_from_tls` returns comes from at least 43 bytes that begin with 22; it stands behind the
-- first four zeros that are followed, nine bytes from their start, by the length of a text in
-- UTF-8 that lies within the data.
pub extract_sni_from_tls-FirstName :
    (bytes host : List ℕ) → extract_sni_from_tls bytes ≡ some host → FirstName bytes host
unfolding extract_sni_from_tls
extract_sni_from_tls-FirstName bytes host e =
    let short : Bool = ltb (length bytes) 43 || not (byte_at 0 bytes == 0x16) in
    let (guard, scanned) = else-some short _ host e in
    let f = sni_scan-FirstFrom (length bytes - 10) 0 bytes host scanned in
    record {
      index = f.index;
      is_handshake = (guard_passed _ _ guard).1;
      long = (guard_passed _ _ guard).0;
      inside = omega (arith, f.before);
      name = sni_at-NameAt f.index bytes host f.found;
      first = λ j b. f.first j (omega arith) b;
    }
