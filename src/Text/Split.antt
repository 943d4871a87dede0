-- ===== src/Text/Split.antt =====
-- `split`, `splitn(2, _)`, `lines`, `split_whitespace`, `trim`, `trim_start_matches` and
-- `to_lowercase`, on texts as lists of code points.
pub mod Pieces
pub mod Words
use crabby_proxy.Prelude.{
  ℕ, zero, suc, ◌+◌, Bool, true, false, ◌&&◌, ◌||◌, Option, none, some, List, [], ◌∷◌, ◌++◌, leb,
  ◌==◌, if◌then◌else◌, length, drop,
}
use crabby_proxy.Text.{starts_with}

-- The piece in hand goes before those that follow.
onto : ℕ → List (List ℕ) → List (List ℕ)
onto c [] = (c ∷ []) ∷ []
onto c (piece ∷ rest) = (c ∷ piece) ∷ rest

-- `s.split(sep)`: one piece more than there are separators.
unfoldable pub split : ℕ → List ℕ → List (List ℕ)
unfolding onto
split sep [] = [] ∷ []
split sep (c ∷ cs) = let rest = split sep cs in if c == sep then [] ∷ rest else onto c rest

-- `s.splitn(2, sep)`: the text up to the first separator, and, if there is one, all behind it.
unfoldable pub split_once : ℕ → List ℕ → List ℕ × Option (List ℕ)
split_once sep [] = ([], none)
split_once sep (c ∷ cs) =
    let (front, back) = split_once sep cs in if c == sep then ([], some cs) else (c ∷ front, back)

-- The Unicode property White_Space.
unfoldable pub is_whitespace : ℕ → Bool
is_whitespace c =
    leb 9 c && leb c 13
    || c == 0x20
    || c == 0x85
    || c == 0xA0
    || c == 0x1680
    || leb 0x2000 c && leb c 0x200A
    || c == 0x2028
    || c == 0x2029
    || c == 0x202F
    || c == 0x205F
    || c == 0x3000

-- The word in hand goes before those that follow, if it is one.
unfoldable pub add_word : List ℕ → List (List ℕ) → List (List ℕ)
add_word [] ws = ws
add_word (w ∷ word) ws = (w ∷ word) ∷ ws

unfoldable pub words : List ℕ → List ℕ → List (List ℕ)
unfolding add_word
words word [] = add_word word []
words word (c ∷ cs) = elim (is_whitespace c) [
  | false ↦ words (word ++ c ∷ []) cs
  | true ↦ add_word word (words [] cs)
]

unfoldable pub split_whitespace : List ℕ → List (List ℕ)
unfolding words is_whitespace
split_whitespace s = words [] s

unfoldable pub trim_start : List ℕ → List ℕ
unfolding is_whitespace
trim_start [] = []
trim_start (c ∷ cs) = let rest = trim_start cs in if is_whitespace c then rest else c ∷ cs

-- Blank if all is whitespace; otherwise the last character that is not ends the text.
unfoldable pub trim_end : List ℕ → List ℕ
unfolding is_whitespace
trim_end [] = []
trim_end (c ∷ cs) = elim (trim_end cs) [
  | [] ↦ if is_whitespace c then [] else c ∷ []
  | d ∷ ds ↦ c ∷ d ∷ ds
]

unfoldable pub trim : List ℕ → List ℕ
unfolding trim_start trim_end
trim s = trim_start (trim_end s)

-- `s.trim_start_matches(prefix)` takes the prefix off as often as it stands there. Each round
-- shortens the text, so its length is fuel enough.
unfoldable pub strip : ℕ → List ℕ → List ℕ → List ℕ
strip zero p s = s
strip (suc fuel) p s =
    let rest = strip fuel p (drop (length p) s) in if starts_with s p then rest else s

unfoldable pub trim_start_matches : List ℕ → List ℕ → List ℕ
unfolding strip
trim_start_matches p s = strip (length s) p s

-- A line without its end: a "\n", and a "\r" before it, if the text has a "\n" there.
chomp : List ℕ → List ℕ
chomp [] = []
chomp (c ∷ []) = if c == 13 then [] else c ∷ []
chomp (c ∷ d ∷ ds) = c ∷ chomp (d ∷ ds)

-- `lines`, from the pieces between the "\n": the last piece has none, and is no line if empty.
line_pieces : List (List ℕ) → List (List ℕ)
unfolding chomp
line_pieces [] = []
line_pieces ([] ∷ []) = []
line_pieces ((c ∷ cs) ∷ []) = (c ∷ cs) ∷ []
line_pieces (p ∷ q ∷ rest) = chomp p ∷ line_pieces (q ∷ rest)

unfoldable pub lines : List ℕ → List (List ℕ)
unfolding split line_pieces
lines s = line_pieces (split 10 s)

-- `to_lowercase` of the ASCII letters. The program compares the result with ASCII alone, "k" and
-- "i" not at the places where U+212A and U+0130 could yield them, so other letters stay.
lower : ℕ → ℕ
lower c = if leb b'A' c && leb c b'Z' then c + 32 else c

unfoldable pub to_lowercase : List ℕ → List ℕ
unfolding lower
to_lowercase [] = []
to_lowercase (c ∷ cs) = lower c ∷ to_lowercase cs
