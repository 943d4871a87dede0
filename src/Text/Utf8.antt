-- ===== src/Text/Utf8.antt =====
-- `String::from_utf8` and `String::from_utf8_lossy`.
use crabby_proxy.Prelude.{
  ◌/◌, ◌%◌, if◌then◌else◌, Bool, true, ◌&&◌, ltb, ℕ, zero, suc, ◌+◌, ◌-◌, ◌*◌, ◌<◌, ◌≡◌, refl,
  Option, none, some, List, [], ◌∷◌, ◌++◌, map, leb, ◌==◌, if◌then◌else◌, arith,
}

-- Between two characters, or with so many bytes to come, the next of them in a range.
pub data Decoder : Type 0 where
  between : Decoder
  inside : ℕ → ℕ → ℕ → ℕ → Decoder

-- Where the decoder stands after a byte that begins a character, or `none` where none begins so.
lead : ℕ → Option Decoder
lead b =
    if leb 0xC2 b && leb b 0xDF
    then some (inside 0 (b - 0xC0) 0x80 0xBF)
    else if b == 0xE0
    then some (inside 1 0 0xA0 0xBF)
    else if b == 0xED
    then some (inside 1 0xD 0x80 0x9F)
    else if leb 0xE1 b && leb b 0xEF
    then some (inside 1 (b - 0xE0) 0x80 0xBF)
    else if b == 0xF0
    then some (inside 2 0 0x90 0xBF)
    else if b == 0xF4
    then some (inside 2 4 0x80 0x8F)
    else if leb 0xF1 b && leb b 0xF3
    then some (inside 2 (b - 0xF0) 0x80 0xBF)
    else none

-- What a byte completes (`none` is a character that is broken off), and where the decoder stands.
begin_char : ℕ → List (Option ℕ) × Decoder
begin_char b =
    if leb b 0x7F
    then (some b ∷ [], between)
    else elim (lead b) [ none ↦ (none ∷ [], between) | some d ↦ ([], d) ]

break_off : ℕ → List (Option ℕ) × Decoder
break_off b = let (out, d) = begin_char b in (none ∷ out, d)

feed : Decoder → ℕ → List (Option ℕ) × Decoder
feed between b = begin_char b
feed (inside zero acc lo hi) b =
    if leb lo b && leb b hi then (some (acc * 64 + (b - 0x80)) ∷ [], between) else break_off b
feed (inside (suc k) acc lo hi) b =
    if leb lo b && leb b hi then ([], inside k (acc * 64 + (b - 0x80)) 0x80 0xBF) else break_off b

-- The characters, with `none` for each maximal part of one that is broken off.
decode : Decoder → List ℕ → List (Option ℕ)
unfolding feed begin_char break_off lead
decode between [] = []
decode (inside k acc lo hi) [] = none ∷ []
decode d (b ∷ bs) = let (out, d') = feed d b in out ++ decode d' bs

all_some : List (Option ℕ) → Option (List ℕ)
all_some [] = some []
all_some (none ∷ cs) = none
all_some (some c ∷ cs) = elim (all_some cs) [ none ↦ none | some text ↦ some (c ∷ text) ]

-- U+FFFD stands for what is broken off.
or_replacement : Option ℕ → ℕ
or_replacement none = 0xFFFD
or_replacement (some c) = c

unfoldable pub from_utf8 : List ℕ → Option (List ℕ)
unfolding decode all_some
from_utf8 bs = all_some (decode between bs)

unfoldable pub from_utf8_lossy : List ℕ → List ℕ
unfolding decode or_replacement
from_utf8_lossy bs = map or_replacement (decode between bs)

-- The bytes of a text, as `as_bytes` has them.
unfoldable pub to_utf8 : List ℕ → List ℕ
to_utf8 [] = []
to_utf8 (c ∷ cs) =
    let rest = to_utf8 cs in
    if ltb c 0x80
    then c ∷ rest
    else if ltb c 0x800
    then (0xC0 + c / 64) ∷ (0x80 + c % 64) ∷ rest
    else if ltb c 0x10000
    then (0xE0 + c / 4096) ∷ (0x80 + c / 64 % 64) ∷ (0x80 + c % 64) ∷ rest
    else (0xF0 + c / 262144)
      ∷ (0x80 + c / 4096 % 64)
      ∷ (0x80 + c / 64 % 64)
      ∷ (0x80 + c % 64)
      ∷ rest

-- ASCII decodes to itself.
abbrev pub IsAscii : List ℕ → Type 0
IsAscii [] = Unit {0}
IsAscii (b ∷ bs) = (b < 0x80) × IsAscii bs

pub from_utf8-ascii : (bs : List ℕ) → IsAscii bs → from_utf8 bs ≡ some bs
unfolding from_utf8
from_utf8-ascii [] h = refl
from_utf8-ascii (b ∷ bs) h = ground (arith, from_utf8-ascii bs h.1)

pub from_utf8_lossy-ascii : (bs : List ℕ) → IsAscii bs → from_utf8_lossy bs ≡ bs
unfolding from_utf8_lossy
from_utf8_lossy-ascii [] h = refl
from_utf8_lossy-ascii (b ∷ bs) h = ground (arith, from_utf8_lossy-ascii bs h.1)

pub IsAscii-append : (xs ys : List ℕ) → IsAscii xs → IsAscii ys → IsAscii (xs ++ ys)
IsAscii-append [] ys h k = k
IsAscii-append (x ∷ xs) ys h k = (h.0, IsAscii-append xs ys h.1 k)

-- For a given text the test decides.
abbrev pub all_ascii : List ℕ → Bool
all_ascii [] = true
all_ascii (b ∷ bs) = ltb b 0x80 && all_ascii bs

pub all_ascii-IsAscii : (bs : List ℕ) → all_ascii bs ≡ true → IsAscii bs
all_ascii-IsAscii [] h = tt
all_ascii-IsAscii (b ∷ bs) h = (ground (arith, h), all_ascii-IsAscii bs (ground (arith, h)))

-- "é", "€" and "😀", then an overlong form, a surrogate, and two characters broken off.
decodes :
    (from_utf8 (0xC3 ∷ 0xA9 ∷ 0xE2 ∷ 0x82 ∷ 0xAC ∷ 0xF0 ∷ 0x9F ∷ 0x98 ∷ 0x80 ∷ [])
      ≡ some (0xE9 ∷ 0x20AC ∷ 0x1F600 ∷ []))
    × (from_utf8 (0xC0 ∷ 0x80 ∷ []) ≡ none)
    × (from_utf8 (0xED ∷ 0xA0 ∷ 0x80 ∷ []) ≡ none)
    × (from_utf8_lossy (b'a' ∷ 0xE2 ∷ 0x82 ∷ b'b' ∷ 0xF0 ∷ 0x9F ∷ [])
        ≡ b'a' ∷ 0xFFFD ∷ b'b' ∷ 0xFFFD ∷ [])
unfolding from_utf8 from_utf8_lossy
decodes = (refl, refl, refl, refl)
