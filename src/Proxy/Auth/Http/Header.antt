-- ===== src/Proxy/Auth/Http/Header.antt =====
-- proxy/listener.rs, `extract_proxy_auth_header`: the header by the spelling of its name.
use crabby_proxy.Prelude.{
  ℕ, suc, ◌≡◌, refl, ap, ◌∙◌, Bool, true, false, Option, none, some, List, [], ◌∷◌, ◌++◌, length,
  drop, if◌then◌else◌, is_ok,
}
use crabby_proxy.Text.{codes, starts_with, starts_with-append}
use crabby_proxy.Text.Split.{
  strip, lines, trim, trim_start, trim_end, trim_start_matches, to_lowercase, is_whitespace,
}
use crabby_proxy.App.{AppState}
use crabby_proxy.Proxy.Auth.Credentials.{validate_auth_header}
use crabby_proxy.Proxy.Auth.Http.{header_in, extract_proxy_auth_header, is_authorized}

starts_with_nil : (xs : List ℕ) → starts_with xs [] ≡ true
unfolding starts_with
starts_with_nil [] = refl
starts_with_nil (x ∷ xs) = refl

if-none {ℓ} :
    {A : Type ℓ} (b : Bool) (v : A) (o : Option A)
    → (if b then some v else o) ≡ none
    → (b ≡ false) × (o ≡ none)
if-none true v o e = cc
if-none false v o e = (refl, e)

-- Lines before the header have no effect.
header_in-append :
    (before after : List (List ℕ))
    → header_in before ≡ none
    → header_in (before ++ after) ≡ header_in after
unfolding header_in
header_in-append [] after e = refl
header_in-append (line ∷ before) after e =
    let name : Bool = starts_with (to_lowercase line) (codes "proxy-authorization:") in
    let (other, rest) = if-none name _ (header_in before) e in
    rw other (header_in-append before after rest)

small_is_header :
    (v : List ℕ)
    → starts_with (to_lowercase (codes "proxy-authorization:" ++ v)) (codes "proxy-authorization:")
      ≡ true
unfolding starts_with to_lowercase
small_is_header v = starts_with_nil (to_lowercase v)

capital_is_header :
    (v : List ℕ)
    → starts_with (to_lowercase (codes "Proxy-Authorization:" ++ v)) (codes "proxy-authorization:")
      ≡ true
unfolding starts_with to_lowercase
capital_is_header v = starts_with_nil (to_lowercase v)

trim_end-first :
    (c : ℕ) (ends : List ℕ)
    → is_whitespace c ≡ false
    → (t : List ℕ) × ((elim ends as (λ _. List ℕ) [
      | [] ↦ if is_whitespace c then [] else c ∷ []
      | d ∷ ds ↦ c ∷ d ∷ ds
    ])
        ≡ c ∷ t)
trim_end-first c [] h = ([], rw h refl)
trim_end-first c (d ∷ ds) h = (d ∷ ds, refl)

trim_start-first : (c : ℕ) (cs : List ℕ) → is_whitespace c ≡ false → trim_start (c ∷ cs) ≡ c ∷ cs
unfolding trim_start
trim_start-first c cs h = rw h refl

-- Trimming leaves a first character that is no space.
trim-first :
    (c : ℕ) (cs : List ℕ) → is_whitespace c ≡ false → (t : List ℕ) × (trim (c ∷ cs) ≡ c ∷ t)
unfolding trim trim_end
trim-first c cs h =
    let (t, e) = trim_end-first c (trim_end cs) h in
    (t, ap (λ xs. trim_start xs) e ∙ trim_start-first c t h)

-- The name in small letters stays in front of the value.
small_value :
    (v : List ℕ)
    → (t : List ℕ) × (trim
          (trim_start_matches (codes "Proxy-Authorization:") (codes "proxy-authorization:" ++ v))
        ≡ b'p' ∷ t)
unfolding trim_start_matches starts_with is_whitespace
small_value v = trim-first b'p' (codes "roxy-authorization:" ++ v) refl

header_in-small :
    (v : List ℕ) (after : List (List ℕ))
    → (t : List ℕ) × (header_in ((codes "proxy-authorization:" ++ v) ∷ after) ≡ some (b'p' ∷ t))
unfolding header_in
header_in-small v after = let (t, e) = small_value v in (t, rw (small_is_header v) (ap some e))

refused :
    (decode : List ℕ → Option (List ℕ)) (state : AppState) (t : List ℕ)
    → is_ok (validate_auth_header decode (b'p' ∷ t) state) ≡ false
unfolding validate_auth_header starts_with
refused decode state t = refl

-- A client that spells the name of its first such header "proxy-authorization:", in small letters, is not
-- authorized, whatever the credentials.
pub is_authorized-small :
    (decode : List ℕ → Option (List ℕ)) (state : AppState) (request v : List ℕ)
    (before after : List (List ℕ))
    → lines request ≡ before ++ (codes "proxy-authorization:" ++ v) ∷ after
    → header_in before ≡ none
    → is_authorized decode state request ≡ false
unfolding is_authorized extract_proxy_auth_header
is_authorized-small decode state request v before after e none_before =
    let (t, small) = header_in-small v after in
    let found : extract_proxy_auth_header request ≡ some (b'p' ∷ t) =
      ap (λ ls. header_in ls) e ∙ header_in-append before _ none_before ∙ small in
    ap
      (λ o. elim o as (λ _. Bool) [
        | none ↦ false
        | some auth_header ↦ is_ok (validate_auth_header decode auth_header state)
      ])
      found
    ∙ refused decode state t

drop-append : (p v : List ℕ) → drop (length p) (p ++ v) ≡ v
drop-append [] v = refl
drop-append (c ∷ cs) v = drop-append cs v

strip_once :
    (fuel : ℕ) (p v : List ℕ)
    → starts_with (p ++ v) p ≡ true
    → starts_with v p ≡ false
    → strip (suc (suc fuel)) p (p ++ v) ≡ v
unfolding strip
strip_once fuel p v h k = rw h (rw (drop-append p v) (rw k refl))

capital_value :
    (v : List ℕ)
    → starts_with v (codes "Proxy-Authorization:") ≡ false
    → trim_start_matches (codes "Proxy-Authorization:") (codes "Proxy-Authorization:" ++ v) ≡ v
unfolding trim_start_matches
capital_value v h =
    strip_once (length (codes "oxy-Authorization:" ++ v)) (codes "Proxy-Authorization:") v
      (starts_with-append (codes "Proxy-Authorization:") v) h

-- The header is found under the name "Proxy-Authorization:", with the spaces around its value removed, behind
-- lines with no such header, if the value does not begin with the name again.
pub extract_proxy_auth_header-capital :
    (request v : List ℕ) (before after : List (List ℕ))
    → lines request ≡ before ++ (codes "Proxy-Authorization:" ++ v) ∷ after
    → header_in before ≡ none
    → starts_with v (codes "Proxy-Authorization:") ≡ false
    → extract_proxy_auth_header request ≡ some (trim v)
unfolding extract_proxy_auth_header
extract_proxy_auth_header-capital request v before after e none_before once =
    ap (λ ls. header_in ls) e ∙ header_in-append before _ none_before ∙ found
  where
    found : header_in ((codes "Proxy-Authorization:" ++ v) ∷ after) ≡ some (trim v)
    found =
        unfold header_in in
        rw (capital_is_header v) (ap (λ xs. some (trim xs)) (capital_value v once))
