-- ===== src/Text/Address.antt =====
-- `to_string` of `Ipv4Addr` and `Ipv6Addr`.
use crabby_proxy.Prelude.{
  ℕ, zero, suc, ◌+◌, ◌-◌, ◌*◌, ◌/◌, ◌%◌, ◌≡◌, refl, ◌&&◌, List, [], ◌∷◌, ◌++◌, ltb, ◌==◌,
  if◌then◌else◌, take, drop,
}
use crabby_proxy.Text.{codes, starts_with}
use crabby_proxy.Text.Decimal.{u16_to_string}

-- The parts with a separator between them.
join : ℕ → List (List ℕ) → List ℕ
join sep [] = []
join sep (part ∷ []) = part
join sep (part ∷ next ∷ rest) = part ++ sep ∷ join sep (next ∷ rest)

decimals : List ℕ → List (List ℕ)
decimals [] = []
decimals (b ∷ bs) = u16_to_string b ∷ decimals bs

-- Four bytes.
unfoldable pub ipv4_to_string : List ℕ → List ℕ
unfolding join decimals u16_to_string
ipv4_to_string bs = join b'.' (decimals bs)

hex_digit : ℕ → ℕ
hex_digit d = if ltb d 10 then b'0' + d else b'a' + (d - 10)

-- `{:x}` of a number of at most `k` hexadecimal digits.
hex : ℕ → ℕ → List ℕ
unfolding hex_digit
hex zero n = []
hex (suc k) n =
    let front = hex k (n / 16) in
    if ltb n 16 then hex_digit n ∷ [] else front ++ hex_digit (n % 16) ∷ []

-- Eight 16-bit segments, the high byte first.
segments : List ℕ → List ℕ
segments (hi ∷ lo ∷ bs) = (hi * 256 + lo) ∷ segments bs
segments _ = []

hexes : List ℕ → List (List ℕ)
unfolding hex
hexes [] = []
hexes (s ∷ ss) = hex 4 s ∷ hexes ss

-- A run of zero segments: where it starts, and how long it is.
pub record Span : Type 0 where
  pub start : ℕ
  pub len : ℕ

-- The first of the longest runs. `i` counts the segments, `current` is the run that ends here.
longest_zeros : ℕ → Span → Span → List ℕ → Span
longest_zeros i current longest [] = longest
longest_zeros i current longest (s ∷ ss) =
    let grown : Span = record {
      start = if current.len == 0 then i else current.start;
      len = current.len + 1;
    } in
    let reset : Span = record { start = 0; len = 0 } in
    longest_zeros (i + 1) (if s == 0 then grown else reset)
      (if (s == 0) && ltb longest.len grown.len then grown else longest) ss

compressed : Span → List ℕ → List ℕ
unfolding join hexes
compressed span ss =
    if ltb 1 span.len
    then join b':' (hexes (take span.start ss))
      ++ codes "::"
      ++ join b':' (hexes (drop (span.start + span.len) ss))
    else join b':' (hexes ss)

-- Sixteen bytes; an IPv4-mapped address ends in the dotted form.
unfoldable pub ipv6_to_string : List ℕ → List ℕ
unfolding segments longest_zeros compressed ipv4_to_string starts_with
ipv6_to_string bs =
    let none_yet : Span = record { start = 0; len = 0 } in
    if starts_with (segments bs) (0 ∷ 0 ∷ 0 ∷ 0 ∷ 0 ∷ 0xFFFF ∷ [])
    then codes "::ffff:" ++ ipv4_to_string (drop 12 bs)
    else compressed (longest_zeros 0 none_yet none_yet (segments bs)) (segments bs)

prints :
    (ipv4_to_string (192 ∷ 168 ∷ 0 ∷ 1 ∷ []) ≡ codes "192.168.0.1")
    × (ipv6_to_string
          (0x20 ∷ 0x01 ∷ 0x0d ∷ 0xb8 ∷ 0 ∷ 0 ∷ 0 ∷ 1 ∷ 0 ∷ 0 ∷ 0 ∷ 0 ∷ 0 ∷ 0 ∷ 0 ∷ 0x2f ∷ [])
        ≡ codes "2001:db8:0:1::2f")
    × (ipv6_to_string (0 ∷ 0 ∷ 0 ∷ 0 ∷ 0 ∷ 0 ∷ 0 ∷ 0 ∷ 0 ∷ 0 ∷ 0 ∷ 0 ∷ 0 ∷ 0 ∷ 0 ∷ 1 ∷ [])
        ≡ codes "::1")
    × (ipv6_to_string (0 ∷ 0 ∷ 0 ∷ 0 ∷ 0 ∷ 0 ∷ 0 ∷ 0 ∷ 0 ∷ 0 ∷ 255 ∷ 255 ∷ 10 ∷ 0 ∷ 0 ∷ 7 ∷ [])
        ≡ codes "::ffff:10.0.0.7")
unfolding ipv4_to_string ipv6_to_string
prints = (refl, refl, refl, refl)
