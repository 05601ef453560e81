-- ===== src/Common/Map.antt =====
-- Go's maps as association lists in the order of insertion. Proofs go by the laws.
use mathlib.Core.Path.{◌≡◌, refl}
use mathlib.Core.Logic.{◌⊎◌, inl, inr}
use mathlib.Core.Option.{Option, none, some}
use mathlib.Core.List.{List, [], ◌∷◌}
use native.Mathlib.Omega.{arith}
use oci_native_ingress_contr.Common.Test.{if◌then◌else◌}
use oci_native_ingress_contr.Common.Equality.{Eq, ◌==◌}

abbrev pub Map {ℓ κ} : Type ℓ → Type κ → Type (ℓ ⊔ κ)
Map K V = List (K × V)

unfoldable pub keys {ℓ κ} : {K : Type ℓ} {V : Type κ} → Map K V → List K
keys [] = []
keys ((k, v) ∷ m) = k ∷ keys m

module _ {ℓ κ} {K : Type ℓ} {V : Type κ} ⦃e : Eq K⦄ where
  -- `v, ok := m[k]`
  unfoldable pub lookup : K → Map K V → Option V
  lookup k [] = none
  lookup k ((j, w) ∷ m) = if k == j then some w else lookup k m

  -- `m[k] = v`
  unfoldable pub insert : K → V → Map K V → Map K V
  insert k v [] = (k, v) ∷ []
  insert k v ((j, w) ∷ m) = if k == j then (k, v) ∷ m else (j, w) ∷ insert k v m

  pub lookup-nil : (k : K) → lookup k [] ≡ none
  unfolding lookup
  lookup-nil k = refl

  pub lookup-cons :
      (j k : K) (v : V) (m : Map K V)
      → lookup j ((k, v) ∷ m) ≡ (if j == k then some v else lookup j m)
  unfolding lookup
  lookup-cons j k v m = refl

  pub lookup-insert :
      (j k : K) (v : V) (m : Map K V)
      → lookup j (insert k v m) ≡ (if j == k then some v else lookup j m)
  unfolding insert lookup
  lookup-insert j k v [] = refl
  lookup-insert j k v ((i, w) ∷ m) = ground (arith, lookup-insert j k v m)

  pub lookup-insert_self : (k : K) (v : V) (m : Map K V) → lookup k (insert k v m) ≡ some v
  lookup-insert_self k v m = ground (arith, lookup-insert k k v m)

  -- An entry after a write is the one that was written, or was there before.
  pub lookup-insert_cases :
      (j k : K) (v w : V) (m : Map K V)
      → lookup j (insert k v m) ≡ some w
      → ((j ≡ k) × (v ≡ w)) ⊎ (lookup j m ≡ some w)
  lookup-insert_cases j k v w m h = elim (e.dec j k) [
    | yes same ↦ inl (same, ground (arith, lookup-insert j k v m))
    | no other ↦ inr (ground (arith, lookup-insert j k v m))
  ]

  -- Every entry of the first map is one of the second.
  abbrev pub Keeps : Map K V → Map K V → Type (ℓ ⊔ κ)
  Keeps m n = (k : K) (v : V) → lookup k m ≡ some v → lookup k n ≡ some v

  -- A write of the value that is there already, or at a free key, keeps every entry.
  pub insert-Keeps :
      (k : K) (v : V) (m : Map K V)
      → ((w : V) → lookup k m ≡ some w → w ≡ v)
      → Keeps m (insert k v m)
  insert-Keeps k v m h j w p = ground (arith, lookup-insert j k v m, h w)

pub ruleset map_laws = (lookup-nil, lookup-insert)
