-- ===== src/Text/Split/Pieces.antt =====
-- The pieces of a text between separators.
use crabby_proxy.Prelude.{
  contains, false, ℕ, ◌≡◌, ◌≢◌, refl, none, some, List, [], ◌∷◌, ◌++◌, ==_refl, ==_ne, arith, ◌<◌,
  ◌⊎◌,
}
use crabby_proxy.Text.Decimal.{AreDigits}
use crabby_proxy.Text.Split.{onto, split, split_once}

-- The separator does not occur.
abbrev pub Lacks : ℕ → List ℕ → Type 0
Lacks sep [] = Unit {0}
Lacks sep (c ∷ cs) = (c ≢ sep) × Lacks sep cs

pub split-Lacks : (sep : ℕ) (xs : List ℕ) → Lacks sep xs → split sep xs ≡ xs ∷ []
unfolding split onto
split-Lacks sep [] h = refl
split-Lacks sep (c ∷ cs) h = rw (==_ne c sep h.0, split-Lacks sep cs h.1) refl

pub split-append :
    (sep : ℕ) (xs ys : List ℕ) → Lacks sep xs → split sep (xs ++ sep ∷ ys) ≡ xs ∷ split sep ys
unfolding split onto
split-append sep [] ys h = rw (==_refl sep) refl
split-append sep (c ∷ cs) ys h = rw (==_ne c sep h.0, split-append sep cs ys h.1) refl

pub split_once-Lacks : (sep : ℕ) (xs : List ℕ) → Lacks sep xs → split_once sep xs ≡ (xs, none)
unfolding split_once
split_once-Lacks sep [] h = refl
split_once-Lacks sep (c ∷ cs) h = rw (==_ne c sep h.0, split_once-Lacks sep cs h.1) refl

pub split_once-append :
    (sep : ℕ) (xs ys : List ℕ) → Lacks sep xs → split_once sep (xs ++ sep ∷ ys) ≡ (xs, some ys)
unfolding split_once
split_once-append sep [] ys h = rw (==_refl sep) refl
split_once-append sep (c ∷ cs) ys h = rw (==_ne c sep h.0, split_once-append sep cs ys h.1) refl

pub AreDigits-Lacks :
    (sep : ℕ) (cs : List ℕ) → AreDigits cs → (sep < b'0') ⊎ (b'9' < sep) → Lacks sep cs
AreDigits-Lacks sep [] d h = tt
AreDigits-Lacks sep (c ∷ cs) d h =
    (λ e. omega (arith, d.0, d.1, h, e), AreDigits-Lacks sep cs d.2 h)

pub Lacks-append : (sep : ℕ) (xs ys : List ℕ) → Lacks sep xs → Lacks sep ys → Lacks sep (xs ++ ys)
Lacks-append sep [] ys h k = k
Lacks-append sep (c ∷ cs) ys h k = (h.0, Lacks-append sep cs ys h.1 k)

-- For a given text the test decides.
pub contains-Lacks : (sep : ℕ) (xs : List ℕ) → contains xs sep ≡ false → Lacks sep xs
unfolding contains
contains-Lacks sep [] h = tt
contains-Lacks sep (c ∷ cs) h = (λ e. head c cs e h, contains-Lacks sep cs (ground (arith, h)))
  where
    head : (c : ℕ) (cs : List ℕ) → c ≡ sep → contains (c ∷ cs) sep ≡ false → ⊥
    head c cs e h = ground (arith, e, h)
