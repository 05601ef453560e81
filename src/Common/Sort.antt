-- ===== src/Common/Sort.antt =====
-- `sort.Slice` and `sort.SliceStable` over a test "less", and the orders that make them deterministic.
use mathlib.Core.Path.{◌≡◌, ap₂}
use mathlib.Core.Logic.{inl, inr}
use mathlib.Core.Bool.{Bool, true, false, Bool-set}
use mathlib.Core.List.{
  List, [], ◌∷◌, Mem, Perm, Pairwise, Pairwise-singleton, mem-cons_self, forall_mem-cons,
}
use mathlib.Core.List.Pairwise
use mathlib.Core.List.Perm
use native.Mathlib.Omega.{arith}
use oci_native_ingress_contr.Common.Test.{if◌then◌else◌, Bool-cases}
use oci_native_ingress_contr.Common.Equality.{Eq, ◌==◌}

module _ {ℓ} {A : Type ℓ} (less : A → A → Bool) where
  -- The stable insertion of an element in front of a sorted rest.
  unfoldable pub place : A → List A → List A
  place x [] = x ∷ []
  place x (y ∷ ys) = let later = place x ys in if less y x then y ∷ later else x ∷ y ∷ ys

  unfoldable pub sort_slice : List A → List A
  unfolding place
  sort_slice [] = []
  sort_slice (x ∷ xs) = place x (sort_slice xs)

  -- A strict weak order, as Go's sort functions demand.
  pub record IsWeakOrder : Type ℓ where
    pub asym : (a b : A) → less a b ≡ true → less b a ≡ false
    pub trans : (a b c : A) → less b a ≡ false → less c b ≡ false → less c a ≡ false

  -- Elements that neither precedes are equal.
  pub record IsTotal : Type ℓ where
    pub antisym : (a b : A) → less a b ≡ false → less b a ≡ false → a ≡ b

  -- No later element is less than an earlier one.
  abbrev pub IsSorted : List A → Type ℓ
  IsSorted = Pairwise (λ a b. less b a ≡ false)

  pub place-perm : (x : A) (l : List A) → Perm (place x l) (x ∷ l)
  unfolding place
  place-perm x [] = Perm.rfl
  place-perm x (y ∷ ys) = elim (Bool-cases (less y x)) [
    | inl p ↦ rw p (Perm.trans (Perm.cons y (place-perm x ys)) (Perm.swap x y ys))
    | inr p ↦ rw p Perm.rfl
  ]

  -- Sorting keeps every element as often as it occurs.
  pub sort_slice-perm : (l : List A) → Perm (sort_slice l) l
  unfolding sort_slice
  sort_slice-perm [] = Perm.rfl
  sort_slice-perm (x ∷ xs) =
      Perm.trans (place-perm x (sort_slice xs)) (Perm.cons x (sort_slice-perm xs))

  abbrev IsBelow : A → List A → Type ℓ
  IsBelow a l = (x : A) → Mem x l → less x a ≡ false

  prop : (a x : A) → IsProp (less x a ≡ false)
  prop a x = Bool-set (less x a) false

  IsBelow-cons : (a b : A) (l : List A) → less b a ≡ false → IsBelow a l → IsBelow a (b ∷ l)
  IsBelow-cons a b l p h = (forall_mem-cons (prop a)).1 (p, h)

  IsBelow-perm : (a : A) (l r : List A) → Perm l r → IsBelow a r → IsBelow a l
  IsBelow-perm a l r p h x m = h x ((Perm.mem_iff p).0 m)

  module _ (order : IsWeakOrder) where
    IsBelow-head : (a b : A) (l : List A) → less b a ≡ false → IsSorted (b ∷ l) → IsBelow a (b ∷ l)
    IsBelow-head a b l p (Pairwise.cons h _) =
        IsBelow-cons a b l p (λ x m. order.trans a b x p (h x m))

    place-IsSorted : (x : A) {l : List A} → IsSorted l → IsSorted (place x l)
    unfolding place
    place-IsSorted x Pairwise.nil = Pairwise-singleton _ x
    place-IsSorted x (Pairwise.cons {a = y} {l = ys} below s) = elim (Bool-cases (less y x)) [
      | inl p ↦ rw p (
          Pairwise.cons
            (IsBelow-perm y _ _ (place-perm x ys) (IsBelow-cons y x ys (order.asym y x p) below))
            (place-IsSorted x s))
      | inr p ↦
          let whole = Pairwise.cons below s in
          rw p (Pairwise.cons (IsBelow-head x y ys p whole) whole)
    ]

    -- The result is sorted.
    pub sort_slice-IsSorted : (l : List A) → IsSorted (sort_slice l)
    unfolding sort_slice
    sort_slice-IsSorted [] = Pairwise.nil
    sort_slice-IsSorted (x ∷ xs) = place-IsSorted x (sort_slice-IsSorted xs)

    module _ (total : IsTotal) where
      irrefl : (a : A) → less a a ≡ false
      irrefl a = elim (Bool-cases (less a a)) [ inl p ↦ order.asym a a p | inr p ↦ p ]

      heads : (a b : A) (l r : List A) → IsSorted (a ∷ l) → Perm (b ∷ r) (a ∷ l) → less b a ≡ false
      heads a b l r s p = IsBelow-perm a _ _ p (IsBelow-head a a l (irrefl a) s) b mem-cons_self

      IsSorted-eq_of_perm : (l r : List A) → IsSorted l → IsSorted r → Perm l r → l ≡ r
      IsSorted-eq_of_perm [] r _ _ p = Perm.nil-eq p
      IsSorted-eq_of_perm (a ∷ l) [] _ _ p = Perm.eq-nil p
      IsSorted-eq_of_perm (a ∷ l) (b ∷ r) sl sr p =
          let e = total.antisym a b (heads b a r l sr p) (heads a b l r sl (Perm.symm p)) in
          let tails = Perm.cons_inv (Perm.trans p (Perm.symm (Perm.cons' e Perm.rfl))) in
          ap₂ ◌∷◌ e (IsSorted-eq_of_perm l r (Pairwise.of_cons sl) (Pairwise.of_cons sr) tails)

      -- Over a total order every rearrangement sorts to the same list, whatever the algorithm.
      pub sort_slice_unique : (l r : List A) → IsSorted r → Perm l r → sort_slice l ≡ r
      sort_slice_unique l r s p =
          IsSorted-eq_of_perm _ r (sort_slice-IsSorted l) s (Perm.trans (sort_slice-perm l) p)

      pub sort_slice-perm_eq : (l r : List A) → Perm l r → sort_slice l ≡ sort_slice r
      sort_slice-perm_eq l r p =
          sort_slice_unique l _ (sort_slice-IsSorted r)
            (Perm.trans p (Perm.symm (sort_slice-perm r)))

-- Compare by one key, and by the rest where the keys are equal.
module _ {ℓ κ} {A : Type ℓ} {K : Type κ} ⦃e : Eq K⦄ where
  abbrev pub then_by : (A → K) → (K → K → Bool) → (A → A → Bool) → A → A → Bool
  then_by key lt rest a b = if key a == key b then rest a b else lt (key a) (key b)

  module _ (key : A → K) (lt : K → K → Bool) (order : IsWeakOrder lt) (total : IsTotal lt) where
    pub then_by-IsWeakOrder :
        (rest : A → A → Bool) → IsWeakOrder rest → IsWeakOrder (then_by key lt rest)
    then_by-IsWeakOrder rest r = record {
      asym = λ a b h. ground (arith, order.asym (key a) (key b), r.asym a b);
      trans = λ a b c p q. ground (
        arith,
        order.trans (key a) (key b) (key c),
        total.antisym (key a) (key b),
        order.asym (key a) (key b),
        order.asym (key b) (key c),
        order.asym (key c) (key b),
        total.antisym (key b) (key c),
        r.trans a b c,
      );
    }

    pub then_by-eq :
        (rest : A → A → Bool) (a b : A)
        → then_by key lt rest a b ≡ false
        → then_by key lt rest b a ≡ false
        → (key a ≡ key b) × (rest a b ≡ false) × (rest b a ≡ false)
    then_by-eq rest a b p q = ground (arith, total.antisym (key a) (key b))
