-- ===== src/Backend/Default.antt =====
-- The default backend of several Ingresses (pkg/controllers/backend/backend.go).
use oci_native_ingress_contr.Common.{
  ◌≡◌, refl, sym, ◌∙◌, String, true, Option, none, some, List, [], ◌∷◌, All, inl, inr, arith,
  string_eq, int_eq, Bool-cases, Option-cases, subst,
}
use oci_native_ingress_contr.Exception.{ok, plain}
use oci_native_ingress_contr.Exception.Laws.{ok-injective, err_not_ok}
use oci_native_ingress_contr.Kube.{Ingress, IngressBackend}
use oci_native_ingress_contr.Util.Port.{is_backend_service_equal}
use oci_native_ingress_contr.Backend.{default_backend_of}

-- Backends that count as equal have the same service.
is_backend_service_equal-Same :
    (a b : IngressBackend) → is_backend_service_equal a b ≡ true → a.service ≡ b.service
unfolding is_backend_service_equal
is_backend_service_equal-Same a b h = ground arith

-- A service is one of a namespace.
abbrev pub Serves : Option (IngressBackend × String) → String → Option IngressBackend → Type 0
Serves found namespace none = Unit
Serves none namespace (some b) = ⊥
Serves (some (c, found_in)) namespace (some b) = (found_in ≡ namespace) × (c.service ≡ b.service)

abbrev pub ServesAll : Option (IngressBackend × String) → List Ingress → Type 0
ServesAll found ingresses = All (λ i. Serves found i.namespace i.default_backend) ingresses

-- The default backend that was found before, if there is one, is of the namespace.
abbrev IsIn : String → Option (IngressBackend × String) → Type 0
IsIn namespace none = Unit
IsIn namespace (some (b, found_in)) = found_in ≡ namespace

abbrev first : Option (IngressBackend × String) → Option IngressBackend
first none = none
first (some (b, namespace)) = some b

Serves-Same :
    (found : Option (IngressBackend × String)) (namespace : String) (a b : IngressBackend)
    → a.service ≡ b.service
    → Serves found namespace (some b)
    → Serves found namespace (some a)
Serves-Same none namespace a b same h = h
Serves-Same (some (c, found_in)) namespace a b same (here, h) = (here, h ∙ sym same)

Serves-first :
    (namespace : String) (found : Option (IngressBackend × String))
    → IsIn namespace found
    → Serves found namespace (first found)
Serves-first namespace none h = tt
Serves-first namespace (some (b, found_in)) h = (h, refl)

collect :
    (namespace : String) (is : List Ingress) (start found : Option (IngressBackend × String))
    → IsIn namespace start
    → All (λ i. i.namespace ≡ namespace) is
    → default_backend_of is start ≡ ok found
    → Serves found namespace (first start) × All (λ i. Serves found namespace i.default_backend) is
unfolding default_backend_of
collect namespace [] start found started within h = (
  subst (λ x. Serves x namespace (first start)) (ok-injective h)
      (Serves-first namespace start started),
  tt,
)
collect namespace (i ∷ is) start found started (here, within) h =
    elim (Option-cases i.default_backend) [
      | inl q ↦
          let rest =
            collect namespace is start found started within (rw (q, default_backend_of) at h) in
          rw q (rest.0, (tt, rest.1))
      | inr (b, q) ↦ elim (Option-cases start) [
        | inl p ↦
            let rest =
              collect namespace is (some (b, i.namespace)) found here within
                (rw (q, p, default_backend_of) at h) in
            rw (q, p) (tt, (rest.0, rest.1))
        | inr (old, p) ↦ elim (Bool-cases (is_backend_service_equal old.0 b)) [
          | inl same ↦
              let rest =
                collect namespace is (some (b, i.namespace)) found here within
                  (rw (q, p, same, default_backend_of) at h) in
              rw (q, p)
                (
                  Serves-Same found namespace old.0 b (is_backend_service_equal-Same old.0 b same)
                      rest.0,
                  (rest.0, rest.1),
                )
          | inr differ ↦
              err_not_ok (plain "conflict in default backend resource, only one is permitted")
                (rw (q, p, differ, default_backend_of) at h)
        ]
      ]
    ]

in_own_namespace :
    (namespace : String) (found : Option (IngressBackend × String)) (is : List Ingress)
    → All (λ i. i.namespace ≡ namespace) is
    → All (λ i. Serves found namespace i.default_backend) is
    → ServesAll found is
in_own_namespace namespace found [] within h = tt
in_own_namespace namespace found (i ∷ is) (here, within) (h, rest) = (
  subst (λ n. Serves found n i.default_backend) (sym here) h,
  in_own_namespace namespace found is within rest,
)

-- Where the Ingresses are all of one namespace and their default backends are no conflict, the one that
-- is found has the namespace and the service of every one of them, and there is none only if no Ingress
-- has one.
pub default_backend_of-ServesAll :
    (namespace : String) (is : List Ingress) (found : Option (IngressBackend × String))
    → All (λ i. i.namespace ≡ namespace) is
    → default_backend_of is none ≡ ok found
    → ServesAll found is
default_backend_of-ServesAll namespace is found within h =
    in_own_namespace namespace found is within (collect namespace is none found tt within h).1
