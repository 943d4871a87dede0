-- ===== src/Text/Decimal.antt =====
-- `u16::to_string`, `u32::to_string` and `str::parse::<u16>`.
pub mod Overflow
use crabby_proxy.Prelude.{
  ℕ, zero, suc, ◌+◌, ◌-◌, ◌*◌, ◌/◌, ◌%◌, ◌≤◌, ◌<◌, ◌≡◌, ◌≢◌, refl, inl, inr, Bool-cases, ◌||◌,
  Option, none, some, List, [], ◌∷◌, ◌++◌, ltb, ◌==◌, if◌then◌else◌, arith,
}

decimal : ℕ → ℕ → List ℕ
decimal zero n = []
decimal (suc fuel) n =
    let front = decimal fuel (n / 10) in
    if ltb n 10 then (b'0' + n) ∷ [] else front ++ (b'0' + n % 10) ∷ []

unfoldable pub u16_to_string : ℕ → List ℕ
unfolding decimal
u16_to_string n = decimal 5 n

-- Ten digits hold every number below 2 ^ 32.
unfoldable pub u32_to_string : ℕ → List ℕ
unfolding decimal
u32_to_string n = decimal 10 n

-- The digits from the left; a value that leaves the range is an error, as is any other character.
scan : List ℕ → ℕ → Option ℕ
scan [] n = some n
scan (c ∷ cs) n =
    let rest = scan cs (n * 10 + (c - b'0')) in
    if ltb c b'0' || ltb b'9' c || ltb 65535 (n * 10 + (c - b'0')) then none else rest

-- At least one digit.
unfoldable pub digits : List ℕ → Option ℕ
unfolding scan
digits [] = none
digits (c ∷ cs) = scan (c ∷ cs) 0

-- One leading `+` is allowed.
unfoldable pub parse_u16 : List ℕ → Option ℕ
unfolding digits scan
parse_u16 [] = none
parse_u16 (c ∷ cs) = if c == b'+' then digits cs else digits (c ∷ cs)

append-cons-ne : (xs : List ℕ) (c : ℕ) → xs ++ c ∷ [] ≢ []
append-cons-ne [] c e = cc
append-cons-ne (x ∷ xs) c e = cc

scan-append : (xs ys : List ℕ) (n m : ℕ) → scan xs n ≡ some m → scan (xs ++ ys) n ≡ scan ys m
unfolding scan
scan-append [] ys n m e = ground arith
scan-append (c ∷ cs) ys n m e = ground (arith, scan-append cs ys (n * 10 + (c - b'0')) m)

-- 10 ^ k
abbrev ten_pow : ℕ → ℕ
ten_pow zero = 1
ten_pow (suc k) = 10 * ten_pow k

scan-decimal : (fuel n : ℕ) → n < ten_pow fuel → n < 65536 → scan (decimal fuel n) 0 ≡ some n
unfolding scan decimal
scan-decimal zero n h k = ground arith
scan-decimal (suc fuel) n h k = ground (
  arith,
  scan-decimal fuel (n / 10) (omega arith) (omega arith),
  scan-append (decimal fuel (n / 10)) ((b'0' + n % 10) ∷ []) 0 (n / 10),
)

-- The text of a number holds digits alone, and at least one of them.
abbrev pub AreDigits : List ℕ → Type 0
AreDigits [] = Unit {0}
AreDigits (c ∷ cs) = (b'0' ≤ c) × (c ≤ b'9') × AreDigits cs

AreDigits-append : (xs ys : List ℕ) → AreDigits xs → AreDigits ys → AreDigits (xs ++ ys)
AreDigits-append [] ys h k = k
AreDigits-append (c ∷ cs) ys h k = (h.0, h.1, AreDigits-append cs ys h.2 k)

decimal-AreDigits : (fuel n : ℕ) → AreDigits (decimal fuel n)
unfolding decimal
decimal-AreDigits zero n = tt
decimal-AreDigits (suc fuel) n = elim (Bool-cases (ltb n 10)) [
  | inl small ↦ rw small (omega arith, ground arith, tt)
  | inr large ↦ rw large (
      AreDigits-append (decimal fuel (n / 10)) _ (decimal-AreDigits fuel (n / 10))
        (omega arith, omega arith, tt))
]

pub u16_to_string-AreDigits : (n : ℕ) → AreDigits (u16_to_string n)
unfolding u16_to_string
u16_to_string-AreDigits n = decimal-AreDigits 5 n

parse_digits :
    (cs : List ℕ) (n : ℕ) → AreDigits cs → scan cs 0 ≡ some n → cs ≢ [] → parse_u16 cs ≡ some n
unfolding parse_u16 scan
parse_digits [] n d e h = absurd (h refl)
parse_digits (c ∷ cs) n d e h = ground arith

decimal-ne-nil : (fuel n : ℕ) → decimal (suc fuel) n ≢ []
unfolding decimal
decimal-ne-nil fuel n = elim (Bool-cases (ltb n 10)) [
  | inl small ↦ rw small (λ e. cc)
  | inr large ↦ rw large (append-cons-ne (decimal fuel (n / 10)) _)
]

-- Reading back what was printed.
pub parse_u16-u16_to_string : (n : ℕ) → n < 65536 → parse_u16 (u16_to_string n) ≡ some n
unfolding u16_to_string
parse_u16-u16_to_string n h =
    parse_digits (decimal 5 n) n (decimal-AreDigits 5 n) (scan-decimal 5 n (omega arith) h)
      (decimal-ne-nil 4 n)
