-- ===== src/Prelude/Lists.antt =====
-- Lists measured by native numbers, and lists of numbers as the standard library's sets and deques.
use Prim.Native.Nat.{ℕ, zero, suc, ◌+◌}
use mathlib.Core.Path.{◌≡◌, refl}
use mathlib.Core.Bool.{Bool, false, ◌||◌, ◌&&◌}
use mathlib.Core.List.{List, [], ◌∷◌, ◌++◌}
use native.Mathlib.Omega.{arith}
use crabby_proxy.Prelude.Tests.{◌==◌, ltb, leb, if◌then◌else◌}

module _ {ℓ} {A : Type ℓ} where
  abbrev pub length : List A → ℕ
  length [] = 0
  length (x ∷ xs) = suc (length xs)

  abbrev pub take : ℕ → List A → List A
  take zero xs = []
  take (suc n) [] = []
  take (suc n) (x ∷ xs) = x ∷ take n xs

  abbrev pub drop : ℕ → List A → List A
  drop zero xs = xs
  drop (suc n) [] = []
  drop (suc n) (x ∷ xs) = drop n xs

  pub length-append : (xs ys : List A) → length (xs ++ ys) ≡ length xs + length ys
  length-append [] ys = omega arith
  length-append (x ∷ xs) ys = omega (arith, length-append xs ys)

-- How often `x` stands in a list.
pub count : ℕ → List ℕ → ℕ
count x [] = 0
count x (y ∷ ys) = (if y == x then 1 else 0) + count x ys

-- `HashSet::contains`.
unfoldable pub contains : List ℕ → ℕ → Bool
contains [] x = false
contains (y ∷ ys) x = y == x || contains ys x

-- `retain(|&p| p != x)` of a deque, and `HashSet::remove`.
unfoldable pub without : ℕ → List ℕ → List ℕ
without x [] = []
without x (y ∷ ys) = let rest = without x ys in if y == x then rest else y ∷ rest

-- `HashSet::insert`.
unfoldable pub insert_new : ℕ → List ℕ → List ℕ
insert_new x xs = if contains xs x then xs else x ∷ xs

-- `n` numbers from `lo` on.
unfoldable pub range_from : ℕ → ℕ → List ℕ
range_from zero lo = []
range_from (suc n) lo = lo ∷ range_from n (lo + 1)

pub count-nil : (x : ℕ) → count x [] ≡ 0
unfolding count
count-nil x = refl

pub count-cons : (x y : ℕ) (ys : List ℕ) → count x (y ∷ ys) ≡ (if y == x then 1 else 0) + count x ys
unfolding count
count-cons x y ys = refl

pub count-append : (x : ℕ) (xs ys : List ℕ) → count x (xs ++ ys) ≡ count x xs + count x ys
unfolding count
count-append x [] ys = omega arith
count-append x (y ∷ xs) ys = omega (arith, count-append x xs ys)

pub contains-count : (xs : List ℕ) (x : ℕ) → contains xs x ≡ ltb 0 (count x xs)
unfolding contains count
contains-count [] x = refl
contains-count (y ∷ ys) x = ground (arith, contains-count ys x)

pub count-without :
    (x y : ℕ) (ys : List ℕ) → count x (without y ys) ≡ (if y == x then 0 else count x ys)
unfolding count without
count-without x y [] = ground arith
count-without x y (z ∷ zs) = ground (arith, count-without x y zs)

pub length-without : (x : ℕ) (ys : List ℕ) → length (without x ys) + count x ys ≡ length ys
unfolding count without
length-without x [] = refl
length-without x (z ∷ zs) = ground (arith, length-without x zs)

pub count-range_from :
    (n lo x : ℕ) → count x (range_from n lo) ≡ (if leb lo x && ltb x (lo + n) then 1 else 0)
unfolding count range_from
count-range_from zero lo x = ground arith
count-range_from (suc n) lo x = ground (arith, count-range_from n (lo + 1) x)

pub length-range_from : (n lo : ℕ) → length (range_from n lo) ≡ n
unfolding range_from
length-range_from zero lo = refl
length-range_from (suc n) lo = omega (arith, length-range_from n (lo + 1))
