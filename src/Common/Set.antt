-- ===== src/Common/Set.antt =====
-- The sets of k8s.io/apimachinery/pkg/util/sets, as lists with no element twice.
use mathlib.Core.Path.{◌≡◌, refl}
use mathlib.Core.Logic.{inl, inr}
use mathlib.Core.Bool.{Bool, false, ◌&&◌, ◌||◌, not}
use mathlib.Core.List.{List, [], ◌∷◌}
use native.Mathlib.Omega.{arith}
use oci_native_ingress_contr.Common.Test.{if◌then◌else◌, Bool-cases}
use oci_native_ingress_contr.Common.Equality.{Eq, ◌==◌}

abbrev pub Set {ℓ} : Type ℓ → Type ℓ
Set A = List A

module _ {ℓ} {A : Type ℓ} ⦃e : Eq A⦄ where
  unfoldable pub has : A → Set A → Bool
  has a [] = false
  has a (x ∷ xs) = a == x || has a xs

  unfoldable pub insert : A → Set A → Set A
  insert a xs = if has a xs then xs else a ∷ xs

  unfoldable pub from_list : List A → Set A
  from_list [] = []
  from_list (x ∷ xs) = insert x (from_list xs)

  -- `s1.Difference(s2)`
  unfoldable pub difference : Set A → Set A → Set A
  difference [] t = []
  difference (x ∷ xs) t = let rest = difference xs t in if has x t then rest else x ∷ rest

  -- `s1.Union(s2)`
  unfoldable pub union : Set A → Set A → Set A
  union [] t = t
  union (x ∷ xs) t = insert x (union xs t)

  pub has-nil : (a : A) → has a [] ≡ false
  unfolding has
  has-nil a = refl

  pub has-insert : (a b : A) (s : Set A) → has a (insert b s) ≡ (a == b || has a s)
  unfolding insert has
  has-insert a b s = elim (Bool-cases (has b s)) [
    | inl old ↦ rw old (ground arith)
    | inr new ↦ rw new
  ]

  pub has-from_list : (a : A) (xs : List A) → has a (from_list xs) ≡ has a xs
  unfolding from_list has
  has-from_list a [] = refl
  has-from_list a (x ∷ xs) = ground (arith, has-insert a x (from_list xs), has-from_list a xs)

  pub has-difference : (a : A) (s t : Set A) → has a (difference s t) ≡ (has a s && not (has a t))
  unfolding difference has
  has-difference a [] t = refl
  has-difference a (x ∷ xs) t = ground (arith, has-difference a xs t)

  pub has-union : (a : A) (s t : Set A) → has a (union s t) ≡ (has a s || has a t)
  unfolding union has
  has-union a [] t = refl
  has-union a (x ∷ xs) t = ground (arith, has-insert a x (union xs t), has-union a xs t)

pub ruleset set_laws = (has-nil, has-insert, has-difference, has-union)
