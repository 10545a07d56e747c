-- ===== src/Base/HashMap.antt =====
-- `std::collections::HashMap` as an association list. Nothing may rest on the place of a new entry:
-- where the source iterates over a map, the order of the visit is a parameter.
use mathlib.Core.Path.{◌≡◌, refl}
use mathlib.Core.Logic.{◌≢◌}
use mathlib.Core.Bool.{Bool, true, false}
use mathlib.Core.Option.{Option, none, some}
use mathlib.Core.List.{List, [], ◌∷◌}
use native.Mathlib.Omega.{arith}
use final.Base.Tests.{PartialEq, ◌==◌, if◌then◌else◌, ==_eq, ==_refl, ==_ne}

abbrev pub HashMap {ℓ κ} : Type ℓ → Type κ → Type (ℓ ⊔ κ)
HashMap K V = List (K × V)

module _ {ℓ κ} {K : Type ℓ} {V : Type κ} ⦃e : PartialEq K⦄ where
  unfoldable pub get : HashMap K V → K → Option V
  get [] k = none
  get (x ∷ m) k = if x.0 == k then some x.1 else get m k

  unfoldable pub insert : HashMap K V → K → V → HashMap K V
  insert [] k v = (k, v) ∷ []
  insert (x ∷ m) k v = if x.0 == k then (k, v) ∷ m else x ∷ insert m k v

  unfoldable pub contains_key : HashMap K V → K → Bool
  unfolding get
  contains_key m k = elim (get m k) [ none ↦ false | some _ ↦ true ]

  -- `retain(|k, _| keep(k))`
  unfoldable pub retain : (K → Bool) → HashMap K V → HashMap K V
  retain keep [] = []
  retain keep (x ∷ m) = if keep x.0 then x ∷ retain keep m else retain keep m

  pub get-insert :
      (m : HashMap K V) (k j : K) (v : V)
      → get (insert m k v) j ≡ (if k == j then some v else get m j)
  unfolding get insert
  get-insert [] k j v = refl
  get-insert (x ∷ m) k j v =
      ground (arith, ==_eq x.0 k, ==_eq x.0 j, ==_eq k j, ==_refl x.0, get-insert m k j v)

  pub get-insert_self : (m : HashMap K V) (k : K) (v : V) → get (insert m k v) k ≡ some v
  get-insert_self m k v = ground (arith, get-insert m k k v, ==_refl k)

  pub get-insert_ne : (m : HashMap K V) (k j : K) (v : V) → k ≢ j → get (insert m k v) j ≡ get m j
  get-insert_ne m k j v h = ground (arith, get-insert m k j v, ==_ne k j h)

  pub get-retain :
      (keep : K → Bool) (m : HashMap K V) (k : K)
      → get (retain keep m) k ≡ (if keep k then get m k else none)
  unfolding get retain
  get-retain keep [] k = ground arith
  get-retain keep (x ∷ m) k = ground (arith, ==_eq x.0 k, get-retain keep m k)
