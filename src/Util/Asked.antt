-- ===== src/Util/Asked.antt =====
-- The port of a listener that an Ingress asks for (DetermineListenerPort in pkg/util/util.go).
use oci_native_ingress_contr.Common.{
  ◌≡◌, if◌then◌else◌, string_eq, to_int32, ==_refl, Bool-cases, ◌≢◌, refl, ap, String, ℤ, pos,
  int_eq, true, false, Option, none, some, List, [], ◌∷◌, or_else, arith, ◌==◌, eq_of_==, ◌⊎◌, inl,
  inr, IsInt32, to_int32_id, ◌||◌, not,
}
use oci_native_ingress_contr.Common.Set.{Set, has}
use oci_native_ingress_contr.Common.Text.Decimal.{itoa, atoi-itoa}
use oci_native_ingress_contr.Exception.{ok}
use oci_native_ingress_contr.Kube.{Ingress}
use oci_native_ingress_contr.Util.Annotation.{
  annotation, int_or, http_listener_port_annotation, https_listener_port_annotation,
  get_ingress_http_listener_port, get_ingress_https_listener_port,
  get_listener_tls_certificate_ocids,
}
use oci_native_ingress_contr.Util.Bounds.{int32-IsInt64}
use oci_native_ingress_contr.Util.Port.{is_nil, determine_listener_port, listener_port_from}

nil-cases {ℓ} : {A : Type ℓ} (xs : List A) → (xs ≡ []) ⊎ (is_nil xs ≡ false)
nil-cases [] = inl refl
nil-cases (x ∷ xs) = inr refl

-- The annotation is absent, or has the decimal digits of the port.
abbrev pub Asks : Ingress → String → Option ℤ → Type 0
Asks i name none = annotation name i ≡ none
Asks i name (some p) = (annotation name i ≡ some (itoa p)) × (p ≢ pos 0) × IsInt32 p

-- The Ingress has certificates for its listeners, or the host is one of those with TLS.
abbrev pub WithTls : Ingress → Set String → String → Type 0
WithTls i tls_hosts host = (get_listener_tls_certificate_ocids i ≢ []) ⊎ (has host tls_hosts ≡ true)

int_or-Asks :
    (i : Ingress) (name : String) (asks : Option ℤ)
    → Asks i name asks
    → int_or (annotation name i) (pos 0) ≡ ok (or_else asks (pos 0))
unfolding int_or
int_or-Asks i name none h = rw h refl
int_or-Asks i name (some p) (h, positive, small) =
    rw (h, int_or, atoi-itoa p (int32-IsInt64 p small)) refl

-- The parsed port, if it is not 0.
port-Asks :
    (i : Ingress) (name : String) (asks : Option ℤ) (service_port : ℤ)
    → Asks i name asks
    → (if not (or_else asks (pos 0) == pos 0)
        then to_int32 (or_else asks (pos 0))
        else service_port)
      ≡ or_else asks service_port
port-Asks i name none service_port h = ground (arith, ==_refl (pos 0))
port-Asks i name (some p) service_port (h, positive, small) =
    ground (arith, eq_of_== p (pos 0), to_int32_id p small, positive)

tls_test-true :
    (i : Ingress) (tls_hosts : Set String) (host : String)
    → WithTls i tls_hosts host
    → (not (is_nil (get_listener_tls_certificate_ocids i)) || has host tls_hosts) ≡ true
tls_test-true i tls_hosts host (inl certificates) =
    elim (nil-cases (get_listener_tls_certificate_ocids i)) [
      | inl empty ↦ absurd (certificates empty)
      | inr full ↦ ground arith
    ]
tls_test-true i tls_hosts host (inr listed) = ground arith

tls_test-false :
    (i : Ingress) (tls_hosts : Set String) (host : String)
    → ¬ WithTls i tls_hosts host
    → (not (is_nil (get_listener_tls_certificate_ocids i)) || has host tls_hosts) ≡ false
tls_test-false i tls_hosts host none_of_both =
    elim (nil-cases (get_listener_tls_certificate_ocids i)) [
      | inl empty ↦ elim (Bool-cases (has host tls_hosts)) [
        | inl listed ↦ absurd (none_of_both (inr listed))
        | inr other ↦ rw (empty, other)
      ]
      | inr full ↦ absurd (none_of_both (inl (λ empty. ground arith)))
    ]

-- Where each annotation is absent or has the decimal digits of a port that is not 0 and in the range of
-- int32, the port of a listener is that of the HTTPS annotation for a host with TLS, and that of the HTTP
-- annotation for another host, and the service's port where this annotation is absent.
pub determine_listener_port_lem :
    (i : Ingress) (tls_hosts : Set String) (host : String) (service_port : ℤ)
    (http https : Option ℤ)
    → Asks i http_listener_port_annotation http
    → Asks i https_listener_port_annotation https
    → (WithTls i tls_hosts host
        → determine_listener_port i tls_hosts host service_port ≡ ok (or_else https service_port))
      × (¬ WithTls i tls_hosts host
          → determine_listener_port i tls_hosts host service_port ≡ ok (or_else http service_port))
unfolding determine_listener_port listener_port_from get_ingress_http_listener_port
    get_ingress_https_listener_port
determine_listener_port_lem i tls_hosts host service_port http https h hs =
    let parsed = int_or-Asks i http_listener_port_annotation http h in
    let parsed_tls = int_or-Asks i https_listener_port_annotation https hs in
    (
      λ tls.
          rw (parsed, parsed_tls, tls_test-true i tls_hosts host tls)
            (ap ok (port-Asks i https_listener_port_annotation https service_port hs)),
      λ no_tls.
          rw (parsed, parsed_tls, tls_test-false i tls_hosts host no_tls)
            (ap ok (port-Asks i http_listener_port_annotation http service_port h)),
    )
