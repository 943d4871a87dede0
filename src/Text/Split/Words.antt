-- ===== src/Text/Split/Words.antt =====
-- The words of a text in printable ASCII.
use crabby_proxy.Prelude.{
  leb, ◌&&◌, ℕ, ◌≤◌, ◌<◌, ◌≡◌, ap, ◌∙◌, Bool, true, false, List, [], ◌∷◌, ◌++◌, append_assoc,
  append-nil, sym, arith,
}
use crabby_proxy.Text.Decimal.{AreDigits}
use crabby_proxy.Text.Utf8.{IsAscii}
use crabby_proxy.Text.Split.{words, add_word, is_whitespace}
use crabby_proxy.Text.Split.Pieces.{Lacks}

-- No spaces and no controls.
abbrev pub IsPrintable : List ℕ → Type 0
IsPrintable [] = Unit {0}
IsPrintable (c ∷ cs) = (33 ≤ c) × (c ≤ 126) × IsPrintable cs

printable_no_space : (c : ℕ) → 33 ≤ c → c ≤ 126 → is_whitespace c ≡ false
unfolding is_whitespace
printable_no_space c h k = ground arith

pub words-IsPrintable :
    (word xs ys : List ℕ)
    → IsPrintable xs
    → words word (xs ++ 32 ∷ ys) ≡ add_word (word ++ xs) (words [] ys)
unfolding words is_whitespace
words-IsPrintable word [] ys h = ap (λ w. add_word w (words [] ys)) (sym (append-nil word))
words-IsPrintable word (c ∷ cs) ys h =
    ap
      (λ (b : Bool). elim b as (λ _. List (List ℕ)) [
        | false ↦ words (word ++ c ∷ []) (cs ++ 32 ∷ ys)
        | true ↦ add_word word (words [] (cs ++ 32 ∷ ys))
      ])
      (printable_no_space c h.0 h.1)
    ∙ words-IsPrintable (word ++ c ∷ []) cs ys h.2
    ∙ ap (λ w. add_word w (words [] ys)) (append_assoc word (c ∷ []) cs)

pub IsPrintable-IsAscii : (xs : List ℕ) → IsPrintable xs → IsAscii xs
IsPrintable-IsAscii [] h = tt
IsPrintable-IsAscii (c ∷ cs) h = (omega (arith, h.1), IsPrintable-IsAscii cs h.2)

pub IsPrintable-Lacks : (sep : ℕ) (xs : List ℕ) → sep < 33 → IsPrintable xs → Lacks sep xs
IsPrintable-Lacks sep [] k h = tt
IsPrintable-Lacks sep (c ∷ cs) k h = (λ e. omega (arith, h.0, k, e), IsPrintable-Lacks sep cs k h.2)

pub IsPrintable-append : (xs ys : List ℕ) → IsPrintable xs → IsPrintable ys → IsPrintable (xs ++ ys)
IsPrintable-append [] ys h k = k
IsPrintable-append (c ∷ cs) ys h k = (h.0, h.1, IsPrintable-append cs ys h.2 k)

pub AreDigits-IsPrintable : (xs : List ℕ) → AreDigits xs → IsPrintable xs
AreDigits-IsPrintable [] h = tt
AreDigits-IsPrintable (c ∷ cs) h =
    (omega (arith, h.0), omega (arith, h.1), AreDigits-IsPrintable cs h.2)

-- For a given text the test decides.
abbrev pub all_printable : List ℕ → Bool
all_printable [] = true
all_printable (c ∷ cs) = leb 33 c && leb c 126 && all_printable cs

pub all_printable-IsPrintable : (cs : List ℕ) → all_printable cs ≡ true → IsPrintable cs
all_printable-IsPrintable [] h = tt
all_printable-IsPrintable (c ∷ cs) h =
    (ground (arith, h), ground (arith, h), all_printable-IsPrintable cs (ground (arith, h)))
