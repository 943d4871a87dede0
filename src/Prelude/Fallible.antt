-- ===== src/Prelude/Fallible.antt =====
-- `Result<A, E>`, with the `?` operator as the bind of a `do` block.
use mathlib.Core.Bool.{Bool, true, false}
use mathlib.Core.Option.{Option, none, some}

pub data Result {ℓ κ} (A : Type ℓ) (E : Type κ) : Type (ℓ ⊔ κ) where
  ok : A → Result A E
  err : E → Result A E

abbrev pub is_ok {ℓ κ} : {A : Type ℓ} {E : Type κ} → Result A E → Bool
is_ok (ok a) = true
is_ok (err e) = false

-- `Option::ok_or`.
abbrev pub ok_or {ℓ κ} : {A : Type ℓ} {E : Type κ} → Option A → E → Result A E
ok_or none e = err e
ok_or (some a) e = ok a

-- `Result::map_err`.
abbrev pub map_err {ℓ κ η} :
    {A : Type ℓ} {E : Type κ} {F : Type η} → (E → F) → Result A E → Result A F
map_err f (ok a) = ok a
map_err f (err e) = err (f e)
