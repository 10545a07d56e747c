-- ===== src/Base/Entries.antt =====
-- The entries of a map with no key twice.
use mathlib.Core.Path.{◌≡◌, refl, sym, ap, subst, ◌∙◌}
use mathlib.Core.Logic.{inl, inr, ∥∥₁_elim}
use mathlib.Core.Option.{none, some}
use mathlib.Core.List.{[], ◌∷◌, Mem, Memᴰ}
use native.Mathlib.Omega.{arith}
use final.Base.Tests.{PartialEq, ◌==◌, ==_eq, ==_refl, some_inj, Bool-cases}
use final.Base.HashMap.{HashMap, get, insert, get-insert_ne}

module _ {ℓ κ} {K : Type ℓ} {V : Type κ} ⦃e : PartialEq K⦄ where
  -- No key stands twice.
  abbrev pub IsMap : HashMap K V → Type κ
  IsMap [] = Unit
  IsMap (x ∷ m) = (get m x.0 ≡ none) × IsMap m

  pub insert-IsMap : (m : HashMap K V) (k : K) (v : V) → IsMap m → IsMap (insert m k v)
  unfolding get insert
  insert-IsMap [] k v h = (refl, tt)
  insert-IsMap (x ∷ m) k v h = elim (Bool-cases (x.0 == k)) [
    | inl same ↦ rw same (subst (λ j. get m j ≡ none) (==_eq x.0 k same) h.0, h.1)
    | inr other ↦
        rw other
          (get-insert_ne m k x.0 v (λ p. ground (arith, ==_refl k)) ∙ h.0, insert-IsMap m k v h.1)
  ]

  get_of_memᴰ : (m : HashMap K V) (k : K) (v : V) → IsMap m → Memᴰ (k, v) m → get m k ≡ some v
  unfolding get
  get_of_memᴰ [] k v h i = elim i [ ]
  get_of_memᴰ (x ∷ m) k v h (Memᴰ.head p) = rw (← p, ==_refl k)
  get_of_memᴰ (x ∷ m) k v h (Memᴰ.tail i) =
      let ih = get_of_memᴰ m k v (h.1) i in
      elim (Bool-cases (x.0 == k)) [
        | inl same ↦ cc (sym ih ∙ ap (get m) (sym (==_eq x.0 k same)) ∙ h.0)
        | inr other ↦ rw other ih
      ]

  -- An entry of a map is what its key gives, if values are compared by a set.
  pub get_of_mem :
      IsSet V → (m : HashMap K V) (k : K) (v : V) → IsMap m → Mem (k, v) m → get m k ≡ some v
  get_of_mem set m k v h i = ∥∥₁_elim i (hlevel set) (get_of_memᴰ m k v h)

  memᴰ_of_get : (m : HashMap K V) (k : K) (v : V) → get m k ≡ some v → Memᴰ (k, v) m
  unfolding get
  memᴰ_of_get [] k v g = cc
  memᴰ_of_get (x ∷ m) k v g = elim (Bool-cases (x.0 == k)) [
    | inl same ↦ let q = some_inj (rw same at g) in Memᴰ.head (sym (λ i. (==_eq x.0 k same i, q i)))
    | inr other ↦ Memᴰ.tail (memᴰ_of_get m k v (rw other at g))
  ]

  pub mem_of_get : (m : HashMap K V) (k : K) (v : V) → get m k ≡ some v → Mem (k, v) m
  mem_of_get m k v g = ∣ memᴰ_of_get m k v g ∣₁
