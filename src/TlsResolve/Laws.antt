-- ===== src/TlsResolve/Laws.antt =====
-- The comparison of protocols and the tables of cipher suites of pkg/controllers/ingress/tls_policy.go.
use mathlib.Core.List.{Perm}
use mathlib.Core.List.Perm
use oci_native_ingress_contr.Common.{
  ◌≡◌, ◌↔◌, suc, refl, sym, subst, ap, ◌∙◌, String, Bool, true, false, List, [], ◌∷◌, string_eq,
  nat_eq, length, if◌then◌else◌, arith, inl, inr,
}
use oci_native_ingress_contr.Common.Map.{lookup}
use oci_native_ingress_contr.Common.Set.{has}
use oci_native_ingress_contr.Common.Sort.{place, sort_slice, sort_slice-perm, sort_slice-perm_eq}
use oci_native_ingress_contr.Common.Text.Order.{str_lt, str_lt-IsWeakOrder, str_lt-IsTotal}
use oci_native_ingress_contr.Common.Text.{is_blank}
use oci_native_ingress_contr.Exception.{ok}
use oci_native_ingress_contr.TlsPolicy.Safe.{IsModern, IsSafeSuite}
use oci_native_ingress_contr.TlsResolve.{
  tls_protocol_key, listener_suites, http2_suites, no_safe_default, same_elements,
  tls_protocols_equal,
}

same_elements-eq :
    (xs ys : List String) → length xs ≡ length ys → same_elements xs ys ≡ true → xs ≡ ys
unfolding same_elements
same_elements-eq [] [] n h = refl
same_elements-eq [] (y ∷ ys) n h = absurd (ground arith)
same_elements-eq (x ∷ xs) [] n h = absurd (ground arith)
same_elements-eq (x ∷ xs) (y ∷ ys) n h = let rest = same_elements-eq xs ys in ground arith

same_elements_refl : (xs : List String) → same_elements xs xs ≡ true
unfolding same_elements
same_elements_refl [] = refl
same_elements_refl (x ∷ xs) = ground (arith, same_elements_refl xs)

length-place : (x : String) (xs : List String) → length (place str_lt x xs) ≡ suc (length xs)
unfolding place
length-place x [] = refl
length-place x (y ∷ ys) = ground (arith, length-place x ys)

length-sort_slice : (xs : List String) → length (sort_slice str_lt xs) ≡ length xs
unfolding sort_slice
length-sort_slice [] = refl
length-sort_slice (x ∷ xs) =
    length-place x (sort_slice str_lt xs) ∙ ap (λ n. suc n) (length-sort_slice xs)

equal-perm : (xs ys : List String) → tls_protocols_equal xs ys ≡ true → Perm xs ys
unfolding tls_protocols_equal
equal-perm xs ys h =
    let lengths : length xs ≡ length ys = ground arith in
    let elements : same_elements (sort_slice str_lt xs) (sort_slice str_lt ys) ≡ true =
      ground arith in
    let same =
      same_elements-eq (sort_slice str_lt xs) (sort_slice str_lt ys)
        (length-sort_slice xs ∙ lengths ∙ sym (length-sort_slice ys)) elements in
    Perm.trans (Perm.symm (sort_slice-perm str_lt xs))
      (subst (λ l. Perm l ys) (sym same) (sort_slice-perm str_lt ys))

perm-equal : (xs ys : List String) → Perm xs ys → tls_protocols_equal xs ys ≡ true
unfolding tls_protocols_equal
perm-equal xs ys p =
    let same = sort_slice-perm_eq str_lt str_lt-IsWeakOrder str_lt-IsTotal xs ys p in
    let lengths : length xs ≡ length ys =
      sym (length-sort_slice xs) ∙ ap length same ∙ length-sort_slice ys in
    let elements : same_elements (sort_slice str_lt xs) (sort_slice str_lt ys) ≡ true =
      subst (λ l. same_elements (sort_slice str_lt xs) l ≡ true) same
        (same_elements_refl (sort_slice str_lt xs)) in
    ground arith

-- Protocols are compared without regard to their order, but to how often each occurs.
pub tls_protocols_equal_iff :
    (xs ys : List String) → (tls_protocols_equal xs ys ≡ true) ↔ Perm xs ys
tls_protocols_equal_iff xs ys = (equal-perm xs ys, perm-equal xs ys)

abbrev pub SafeSuiteFor : Bool → List String → Type 0
SafeSuiteFor http2 ps =
    (s : String) × (no_safe_default
        (lookup (tls_protocol_key ps) (if http2 then http2_suites else listener_suites))
      ≡ ok s)
    × IsSafeSuite s

-- The default cipher suite of each set of protocols that an annotation can have.
pub safe_suite_for : (http2 : Bool) (ps : List String) → IsModern ps → SafeSuiteFor http2 ps
unfolding lookup string_eq tls_protocol_key has is_blank
safe_suite_for true ps (inl e) =
    subst (SafeSuiteFor true) (sym e)
      (_, refl, record { not_blank = refl; not_customized = refl; not_unsafe = refl })
safe_suite_for true ps (inr (inl e)) =
    subst (SafeSuiteFor true) (sym e)
      (_, refl, record { not_blank = refl; not_customized = refl; not_unsafe = refl })
safe_suite_for true ps (inr (inr e)) =
    subst (SafeSuiteFor true) (sym e)
      (_, refl, record { not_blank = refl; not_customized = refl; not_unsafe = refl })
safe_suite_for false ps (inl e) =
    subst (SafeSuiteFor false) (sym e)
      (_, refl, record { not_blank = refl; not_customized = refl; not_unsafe = refl })
safe_suite_for false ps (inr (inl e)) =
    subst (SafeSuiteFor false) (sym e)
      (_, refl, record { not_blank = refl; not_customized = refl; not_unsafe = refl })
safe_suite_for false ps (inr (inr e)) =
    subst (SafeSuiteFor false) (sym e)
      (_, refl, record { not_blank = refl; not_customized = refl; not_unsafe = refl })
