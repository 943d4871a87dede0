-- ===== src/Text/Decimal/Overflow.antt =====
-- Decimals of numbers that may be too large for a `u16`.
use crabby_proxy.Prelude.{
  ℕ, zero, suc, ◌+◌, ◌-◌, ◌^◌, ◌*◌, ◌/◌, ◌%◌, ◌≤◌, ◌<◌, ◌≡◌, ◌≢◌, refl, ◌∙◌, inl, inr, Bool-cases,
  none, some, List, [], ◌∷◌, ◌++◌, ltb, if◌then◌else◌, arith,
}
use crabby_proxy.Text.Decimal.{
  decimal, scan, digits, scan-append, scan-decimal, ten_pow, decimal-ne-nil, u32_to_string,
}

scan-none : (xs ys : List ℕ) (n : ℕ) → scan xs n ≡ none → scan (xs ++ ys) n ≡ none
unfolding scan
scan-none [] ys n e = cc
scan-none (c ∷ cs) ys n e = ground (arith, scan-none cs ys (n * 10 + (c - b'0')))

scan-large : (fuel n : ℕ) → n < ten_pow fuel → 65536 ≤ n → scan (decimal fuel n) 0 ≡ none
unfolding decimal scan
scan-large zero n h k = absurd (omega arith)
scan-large (suc fuel) n h k = elim (Bool-cases (ltb (n / 10) 65536)) [
  | inl fits ↦ ground (
    arith,
    scan-decimal fuel (n / 10) (omega arith) (ground arith),
    scan-append (decimal fuel (n / 10)) ((b'0' + n % 10) ∷ []) 0 (n / 10),
  )
  | inr large ↦ ground (
    arith,
    scan-large fuel (n / 10) (omega arith) (ground arith),
    scan-none (decimal fuel (n / 10)) ((b'0' + n % 10) ∷ []) 0,
  )
]

digits-scan : (cs : List ℕ) → cs ≢ [] → digits cs ≡ scan cs 0
unfolding digits
digits-scan [] n = absurd (n refl)
digits-scan (c ∷ cs) n = refl

-- Reading the text of a 32-bit number as a `u16`.
pub digits-u32_to_string :
    (n : ℕ) → n < 2 ^ 32 → digits (u32_to_string n) ≡ (if ltb n 65536 then some n else none)
unfolding u32_to_string
digits-u32_to_string n h = elim (Bool-cases (ltb n 65536)) [
  | inl fits ↦ rw fits (
      digits-scan (decimal 10 n) (decimal-ne-nil 9 n)
      ∙ scan-decimal 10 n (omega arith) (ground arith))
  | inr large ↦ rw large (
      digits-scan (decimal 10 n) (decimal-ne-nil 9 n)
      ∙ scan-large 10 n (omega arith) (ground arith))
]
