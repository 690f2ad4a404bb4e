-- ===== src/Base/Maps.antt =====
-- Maps keyed by numbers (the program's `std::map` and `DenseMap` keyed by pointers) as association
-- lists. The order of pointers is arbitrary; the model keeps the order of insertion.
use Prim.Native.Nat.{ℕ}
use mathlib.Core.Path.{◌≡◌, refl}
use mathlib.Core.Bool.{Bool, true, false, ◌||◌}
use mathlib.Core.List.{List, [], ◌∷◌}
use mathlib.Core.Option.{Option, none, some}
use native.Mathlib.Omega.{arith}
use vari_ocl.Base.Tests.{◌==◌, if◌then◌else◌}
use vari_ocl.Base.Lists.{elem}

abbrev pub Map {ℓ} : Type ℓ → Type ℓ
Map V = List (ℕ × V)

module _ {ℓ} {V : Type ℓ} where
  abbrev pub lookup : ℕ → Map V → Option V
  lookup k [] = none
  lookup k ((j, v) ∷ m) = if j == k then some v else lookup k m

  abbrev pub insert : ℕ → V → Map V → Map V
  insert k v [] = (k, v) ∷ []
  insert k v ((j, w) ∷ m) = if j == k then (k, v) ∷ m else (j, w) ∷ insert k v m

  abbrev pub keys : Map V → List ℕ
  keys [] = []
  keys ((j, v) ∷ m) = j ∷ keys m

  abbrev pub is_some : Option V → Bool
  is_some none = false
  is_some (some v) = true

  -- `m[k]`, with the value that the map's operator[] makes of a missing key.
  abbrev pub lookup_or : V → ℕ → Map V → V
  lookup_or d k m = elim (lookup k m) [ none ↦ d | some v ↦ v ]

  pub lookup-insert :
      (k j : ℕ) (v : V) (m : Map V)
      → lookup j (insert k v m) ≡ (if k == j then some v else lookup j m)
  lookup-insert k j v [] = refl
  lookup-insert k j v ((i, w) ∷ m) = ground (arith, lookup-insert k j v m)

  pub elem-keys-insert :
      (k j : ℕ) (v : V) (m : Map V) → elem j (keys (insert k v m)) ≡ ((j == k) || elem j (keys m))
  elem-keys-insert k j v [] = refl
  elem-keys-insert k j v ((i, w) ∷ m) = ground (arith, elem-keys-insert k j v m)

  pub elem-keys : (k : ℕ) (m : Map V) → elem k (keys m) ≡ is_some (lookup k m)
  elem-keys k [] = refl
  elem-keys k ((i, w) ∷ m) = ground (arith, elem-keys k m)
