-- ===== src/Proxy/Relay/Buffer.antt =====
-- proxy/relay.rs: where the header of a reply ends.
use crabby_proxy.Prelude.{
  ℕ, suc, ◌+◌, ◌-◌, ◌≤◌, ◌≡◌, refl, sym, ap, ◌∙◌, true, false, Bool-cases, inl, inr, none, some,
  List, [], ◌∷◌, ◌++◌, ltb, ◌==◌, length, take, drop, contains, length-append, arith, append-nil,
  append_assoc, Option-cases,
}
use crabby_proxy.Text.{starts_with, starts_with-append, text_eq, text_eq_sound}
use crabby_proxy.Text.Split.Pieces.{Lacks}
use crabby_proxy.Net.Read.Chunk.{take-drop}
use crabby_proxy.Proxy.Relay.{blank_line, position, later, behind, body_start}

starts_with_nil : (xs : List ℕ) → starts_with xs [] ≡ true
unfolding starts_with
starts_with_nil [] = refl
starts_with_nil (x ∷ xs) = refl

-- A prefix that lacks a byte of `xs` is found in `xs` or not at all.
pub starts_with-contains :
    (c : ℕ) (p xs ys : List ℕ)
    → Lacks c p
    → contains xs c ≡ true
    → starts_with (xs ++ ys) p ≡ starts_with xs p
unfolding starts_with contains
starts_with-contains c [] xs ys l h = starts_with_nil (xs ++ ys) ∙ sym (starts_with_nil xs)
starts_with-contains c (p ∷ ps) [] ys l h = cc
starts_with-contains c (p ∷ ps) (x ∷ xs) ys l h = elim (Bool-cases (x == p)) [
  | inl same ↦ rw same (starts_with-contains c ps xs ys l.1 (ground (arith, l.0)))
  | inr other ↦ rw other refl
]

contains-append : (c : ℕ) (xs ys : List ℕ) → contains (xs ++ c ∷ ys) c ≡ true
unfolding contains
contains-append c [] ys = ground arith
contains-append c (x ∷ xs) ys = ground (arith, contains-append c xs ys)

starts_with-prefix : (p xs : List ℕ) → starts_with xs p ≡ true → (ys : List ℕ) × (xs ≡ p ++ ys)
unfolding starts_with
starts_with-prefix [] xs h = (xs, refl)
starts_with-prefix (p ∷ ps) [] h = cc
starts_with-prefix (p ∷ ps) (x ∷ xs) h =
    let (ys, e) = starts_with-prefix ps xs (ground arith) in
    let same : x ≡ p = ground arith in (ys, ap (λ c. c ∷ xs) same ∙ ap (λ zs. p ∷ zs) e)

-- The buffer holds a blank line.
pub record Blank (xs : List ℕ) : Type 0 where
  pub front : List ℕ
  pub rest : List ℕ
  pub all : xs ≡ front ++ blank_line ++ rest

pub Blank-contains : (xs : List ℕ) → Blank xs → contains xs 13 ≡ true
Blank-contains xs b =
    ap (λ ys. contains ys 13) (b.all ∙ append_assoc b.front blank_line b.rest)
    ∙ contains-append 13 b.front (10 ∷ 13 ∷ 10 ∷ b.rest)

position-first :
    (x : ℕ) (xs : List ℕ) → starts_with (x ∷ xs) blank_line ≡ true → position (x ∷ xs) ≡ some 0
unfolding position
position-first x xs h = rw h refl

position-next :
    (x : ℕ) (xs : List ℕ)
    → starts_with (x ∷ xs) blank_line ≡ false
    → position (x ∷ xs) ≡ later (position xs)
unfolding position
position-next x xs h = rw h refl

position-Blank : (xs : List ℕ) (i : ℕ) → position xs ≡ some i → Blank xs × (i + 4 ≤ length xs)
unfolding later
position-Blank [] i h = unfold position in cc
position-Blank (x ∷ xs) i h = elim (Bool-cases (starts_with (x ∷ xs) blank_line)) [
  | inl here ↦
      let (ys, e) = starts_with-prefix blank_line (x ∷ xs) here in
      let zero_index : some 0 ≡ some i = sym (position-first x xs here) ∙ h in
      let size : suc (length xs) ≡ length (blank_line ++ ys) = ap (λ zs. length zs) e in
      (record { front = []; rest = ys; all = e }, ground arith)
  | inr not_yet ↦ elim (Option-cases (position xs)) [
    | inl nothing ↦
        let never : none ≡ some i = sym (position-next x xs not_yet ∙ ap later nothing) ∙ h in
        absurd (cc)
    | inr (k, e) ↦
        let (b, bound) = position-Blank xs k e in
        let index : some (suc k) ≡ some i = sym (position-next x xs not_yet ∙ ap later e) ∙ h in
        (record { front = x ∷ b.front; rest = b.rest; all = ap (λ ys. x ∷ ys) b.all }, ground arith)
  ]
]

position-append :
    (front rest : List ℕ) → (i : ℕ) × (position (front ++ blank_line ++ rest) ≡ some i)
unfolding later
position-append [] rest = (0, position-first 13 _ (starts_with-append blank_line rest))
position-append (x ∷ xs) rest =
    let (k, e) = position-append xs rest in
    elim (Bool-cases (starts_with (x ∷ (xs ++ blank_line ++ rest)) blank_line)) [
      | inl here ↦ (0, position-first x _ here)
      | inr not_yet ↦ (suc k, position-next x _ not_yet ∙ ap later e)
    ]

-- What the loop leaves with.
pub record Leaves (buffer : List ℕ) (index : ℕ) : Type 0 where
  pub blank : Blank buffer
  pub inside : index ≤ length buffer

last_four : (xs : List ℕ) → text_eq (drop (length xs - 4) xs) blank_line ≡ true → Blank xs
last_four xs h = record {
  front = take (length xs - 4) xs;
  rest = [];
  all =
      sym (take-drop (length xs - 4) xs)
      ∙ ap (λ ys. take (length xs - 4) xs ++ ys) (text_eq_sound _ blank_line h)
      ∙ sym (append-nil (take (length xs - 4) xs ++ blank_line));
}

body_start-short : (xs : List ℕ) → ltb 4 (length xs) ≡ false → body_start xs ≡ none
unfolding body_start
body_start-short xs h = rw h refl

body_start-last :
    (xs : List ℕ)
    → ltb 4 (length xs) ≡ true
    → text_eq (drop (length xs - 4) xs) blank_line ≡ true
    → body_start xs ≡ some (length xs)
unfolding body_start
body_start-last xs h k = rw (h, k) refl

body_start-inner :
    (xs : List ℕ)
    → ltb 4 (length xs) ≡ true
    → text_eq (drop (length xs - 4) xs) blank_line ≡ false
    → body_start xs ≡ behind (position xs)
unfolding body_start
body_start-inner xs h k = rw (h, k) refl

pub body_start-Leaves :
    (buffer : List ℕ) (index : ℕ) → body_start buffer ≡ some index → Leaves buffer index
unfolding behind
body_start-Leaves xs i h = elim (Bool-cases (ltb 4 (length xs))) [
  | inr short ↦ let never : none ≡ some i = sym (body_start-short xs short) ∙ h in absurd (cc)
  | inl long ↦ elim (Bool-cases (text_eq (drop (length xs - 4) xs) blank_line)) [
    | inl last ↦
        let index : some (length xs) ≡ some i = sym (body_start-last xs long last) ∙ h in
        record { blank = last_four xs last; inside = ground arith }
    | inr inner ↦ elim (Option-cases (position xs)) [
      | inl nothing ↦
          let never : none ≡ some i =
            sym (body_start-inner xs long inner ∙ ap behind nothing) ∙ h in
          absurd (cc)
      | inr (k, e) ↦
          let (b, bound) = position-Blank xs k e in
          let index : some (k + 4) ≡ some i =
            sym (body_start-inner xs long inner ∙ ap behind e) ∙ h in
          record { blank = b; inside = ground arith }
    ]
  ]
]

-- A buffer with a blank line behind at least one byte lets the loop leave.
pub body_start-append :
    (x : ℕ) (front rest : List ℕ)
    → (i : ℕ) × (body_start (x ∷ front ++ blank_line ++ rest) ≡ some i)
unfolding behind
body_start-append x front rest =
    let xs : List ℕ = x ∷ front ++ blank_line ++ rest in
    let long : ltb 4 (length xs) ≡ true =
      ground (arith, length-append (front ++ blank_line) rest, length-append front blank_line) in
    elim (Bool-cases (text_eq (drop (length xs - 4) xs) blank_line)) [
      | inl last ↦ (length xs, body_start-last xs long last)
      | inr inner ↦
          let (k, e) = position-append (x ∷ front) rest in
          (k + 4, body_start-inner xs long inner ∙ ap behind e)
    ]
