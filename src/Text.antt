-- ===== src/Text.antt =====
-- The parts of Rust's standard library on texts that the proxy uses. A `String` is the list of its
-- code points, a `Vec<u8>` a list of numbers below 256.
pub mod Decimal
pub mod Utf8
pub mod Split
pub mod Address
use Prim.Native.String.{String}
use Prim.Native.Char.{code}
use crabby_proxy.Prelude.{
  ℕ, Bool, true, false, ◌&&◌, ◌≡◌, ◌↔◌, refl, List, [], ◌∷◌, ◌++◌, ◌==◌, arith,
}

-- A literal of the source, such as `b"GET "` or `"CONNECT"`.
abbrev pub codes : String → List ℕ
codes String.[] = []
codes (String.◌∷◌ c s) = code c ∷ codes s

-- `==` of two texts or of two byte slices.
unfoldable pub text_eq : List ℕ → List ℕ → Bool
text_eq [] [] = true
text_eq [] (y ∷ ys) = false
text_eq (x ∷ xs) [] = false
text_eq (x ∷ xs) (y ∷ ys) = x == y && text_eq xs ys

-- `starts_with`.
unfoldable pub starts_with : List ℕ → List ℕ → Bool
starts_with xs [] = true
starts_with [] (p ∷ ps) = false
starts_with (x ∷ xs) (p ∷ ps) = x == p && starts_with xs ps

pub text_eq_refl : (xs : List ℕ) → text_eq xs xs ≡ true
unfolding text_eq
text_eq_refl [] = refl
text_eq_refl (x ∷ xs) = ground (arith, text_eq_refl xs)

pub text_eq_sound : (xs ys : List ℕ) → text_eq xs ys ≡ true → xs ≡ ys
unfolding text_eq
text_eq_sound [] [] h = refl
text_eq_sound [] (y ∷ ys) h = cc
text_eq_sound (x ∷ xs) [] h = cc
text_eq_sound (x ∷ xs) (y ∷ ys) h = ground (arith, text_eq_sound xs ys)

pub starts_with-append : (ps xs : List ℕ) → starts_with (ps ++ xs) ps ≡ true
unfolding starts_with
starts_with-append [] xs = start xs
  where
    start : (xs : List ℕ) → starts_with xs [] ≡ true
    start [] = refl
    start (x ∷ xs) = refl
starts_with-append (p ∷ ps) xs = ground (arith, starts_with-append ps xs)
