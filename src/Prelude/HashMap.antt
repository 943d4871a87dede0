-- ===== src/Prelude/HashMap.antt =====
-- `std::collections::HashMap` with numbers for keys (ports, connection identities) as an
-- association list. The program reads a map by key, removes by key, and drains it whole, so the
-- order of its entries carries nothing.
use Prim.Native.Nat.{ℕ}
use mathlib.Core.Path.{◌≡◌}
use mathlib.Core.Option.{Option, none, some}
use mathlib.Core.List.{List, [], ◌∷◌}
use native.Mathlib.Omega.{arith}
use crabby_proxy.Prelude.Tests.{◌==◌, if◌then◌else◌}

module _ {ℓ} {V : Type ℓ} where
  unfoldable pub get : ℕ → List (ℕ × V) → Option V
  get k [] = none
  get k ((j, v) ∷ m) = if j == k then some v else get k m

  unfoldable pub remove : ℕ → List (ℕ × V) → List (ℕ × V)
  remove k [] = []
  remove k ((j, v) ∷ m) = let rest = remove k m in if j == k then rest else (j, v) ∷ rest

  unfoldable pub insert : ℕ → V → List (ℕ × V) → List (ℕ × V)
  insert k v m = (k, v) ∷ remove k m

  pub get-remove :
      (k j : ℕ) (m : List (ℕ × V)) → get j (remove k m) ≡ (if k == j then none else get j m)
  unfolding get remove
  get-remove k j [] = ground arith
  get-remove k j ((i, v) ∷ m) = ground (arith, get-remove k j m)

  pub get-insert :
      (k j : ℕ) (v : V) (m : List (ℕ × V))
      → get j (insert k v m) ≡ (if k == j then some v else get j m)
  unfolding insert get
  get-insert k j v m = ground (arith, get-remove k j m)

pub ruleset map_laws = (get-remove, get-insert)
