-- ===== src/Common/Member.antt =====
-- Membership in a sorted list.
use mathlib.Core.Path.{◌≡◌, refl, ap, ◌∙◌, sym, subst}
use mathlib.Core.Bool.{Bool, true, false, ◌||◌}
use mathlib.Core.List.{
  List, [], ◌∷◌, Mem, Pairwise, mem-cons_self, mem-cons_of_mem, not-mem-nil, forall_mem-cons,
  Mem-prop, eq-or-mem_of_mem-cons,
}
use mathlib.Core.List.Perm
use mathlib.Core.Logic.Or
use native.Mathlib.Omega.{arith}
use oci_native_ingress_contr.Common.Test.{All, select, if◌then◌else◌}
use oci_native_ingress_contr.Common.Equality.{Eq, ◌==◌}
use oci_native_ingress_contr.Common.Set.{has}
use oci_native_ingress_contr.Common.Sort.{place, sort_slice, sort_slice-perm, IsSorted}

module _ {ℓ} {A : Type ℓ} ⦃e : Eq A⦄ (less : A → A → Bool) where
  has-place : (a x : A) (l : List A) → has a (place less x l) ≡ (a == x || has a l)
  unfolding place has
  has-place a x [] = refl
  has-place a x (y ∷ ys) = ground (arith, has-place a x ys)

  pub has-sort_slice : (a : A) (l : List A) → has a (sort_slice less l) ≡ has a l
  unfolding sort_slice has
  has-sort_slice a [] = refl
  has-sort_slice a (x ∷ xs) =
      ground (arith, has-place a x (sort_slice less xs), has-sort_slice a xs)

-- A member that passes a test is selected.
module _ {A : Type 0} (test : A → Bool) where
  pub mem-select : (a : A) (l : List A) → test a ≡ true → Mem a l → Mem a (select test l)
  mem-select a [] h m = absurd (not-mem-nil m)
  mem-select a (x ∷ xs) h m =
      Or.elim Mem-prop (eq-or-mem_of_mem-cons m)
        (λ same.
          rw (ap test (sym same) ∙ h) (subst (λ y. Mem a (y ∷ select test xs)) same mem-cons_self))
        (λ later. kept (test x) (mem-select a xs h later))
    where
      kept :
          (b : Bool)
          → Mem a (select test xs)
          → Mem a (if b then x ∷ select test xs else select test xs)
      kept true n = mem-cons_of_mem x n
      kept false n = n

-- Two tests that agree on the elements of a list sort it alike.
module _ {ℓ} {A : Type ℓ} (f g : A → A → Bool) where
  place-agree :
      (x : A) (l : List A) → ((y : A) → Mem y l → f y x ≡ g y x) → place f x l ≡ place g x l
  unfolding place
  place-agree x [] h = refl
  place-agree x (y ∷ ys) h =
      let rest = place-agree x ys (λ z m. h z (mem-cons_of_mem y m)) in
      ground (arith, rest, h y mem-cons_self)

  pub sort_slice-agree :
      (l : List A)
      → ((a b : A) → Mem a l → Mem b l → f a b ≡ g a b)
      → sort_slice f l ≡ sort_slice g l
  unfolding sort_slice
  sort_slice-agree [] h = refl
  sort_slice-agree (x ∷ xs) h =
      let rest =
        sort_slice-agree xs (λ a b p q. h a b (mem-cons_of_mem x p) (mem-cons_of_mem x q)) in
      let mem : (y : A) → Mem y (sort_slice f xs) → Mem y xs =
        λ y m. (Perm.mem_iff (sort_slice-perm f xs)).0 m in
      place-agree x (sort_slice f xs) (λ y m. h y x (mem-cons_of_mem x (mem y m)) mem-cons_self)
      ∙ ap (place g x) rest

  pub IsSorted-agree :
      (l : List A) → ((a b : A) → Mem a l → Mem b l → f a b ≡ g a b) → IsSorted g l → IsSorted f l
  IsSorted-agree [] h s = Pairwise.nil
  IsSorted-agree (x ∷ xs) h (Pairwise.cons below s) =
      Pairwise.cons (λ a m. h a x (mem-cons_of_mem x m) mem-cons_self ∙ below a m)
        (IsSorted-agree xs (λ a b p q. h a b (mem-cons_of_mem x p) (mem-cons_of_mem x q)) s)

-- What holds of all elements by recursion holds of each member.
pub All_mem {ℓ κ} :
    {A : Type ℓ} (P : A → Type κ) (l : List A)
    → ((a : A) → IsProp (P a))
    → All P l
    → (a : A) → Mem a l
    → P a
All_mem P [] prop h a m = absurd (not-mem-nil m)
All_mem P (x ∷ xs) prop h a m = (forall_mem-cons prop).1 (h.0, All_mem P xs prop h.1) a m
