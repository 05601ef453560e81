-- ===== src/TlsResolve/Update.antt =====
-- When a listener's TLS configuration is sent again (pkg/controllers/ingress/tls_policy.go). An absent
-- list of certificates is an empty one.
use mathlib.Core.List.{Perm}
use oci_native_ingress_contr.Common.{
  ◌≡◌, ◌↔◌, String, Bool, true, false, not, ◌&&◌, ◌||◌, Option, none, some, List, [], ◌∷◌, ◌==◌,
  string_eq, is_some, if◌then◌else◌, arith,
}
use oci_native_ingress_contr.TlsPolicy.{protocols_eq}
use oci_native_ingress_contr.TlsResolve.{SslConfig, tls_protocols_equal}
use oci_native_ingress_contr.TlsResolve.Laws.{tls_protocols_equal_iff}

-- `reflect.DeepEqual` on two pointers to texts.
abbrev same_text : Option String → Option String → Bool
same_text none none = true
same_text none (some t) = false
same_text (some s) none = false
same_text (some s) (some t) = s == t

abbrev has_elements : List String → Bool
has_elements [] = false
has_elements (x ∷ xs) = true

-- `listenerHasSSLArtifacts`
unfoldable pub listener_has_ssl_artifacts : Option SslConfig → Bool
listener_has_ssl_artifacts none = false
listener_has_ssl_artifacts (some current) =
    has_elements current.certificate_ids || is_some current.certificate_name

-- `listenerSslConfigNeedsUpdate`. The second argument is the listener, by its configuration.
unfoldable pub listener_ssl_config_needs_update :
    Option SslConfig → Option (Option SslConfig) → Bool → Bool
unfolding listener_has_ssl_artifacts tls_protocols_equal
listener_ssl_config_needs_update calculated none compare = is_some calculated
listener_ssl_config_needs_update none (some current) compare = listener_has_ssl_artifacts current
listener_ssl_config_needs_update (some calculated) (some none) compare = true
listener_ssl_config_needs_update (some calculated) (some (some current)) compare =
    if not (current.certificate_ids == calculated.certificate_ids)
    then true
    else compare
      && (not (same_text current.cipher_suite_name calculated.cipher_suite_name)
          || not (tls_protocols_equal current.protocols calculated.protocols))

-- A listener with a TLS configuration is left alone, where policies are compared, exactly if it has
-- the calculated certificates in their order, the cipher suite, and the protocols in any order.
pub listener_ssl_config_needs_update_iff :
    (calculated current : SslConfig)
    → (listener_ssl_config_needs_update (some calculated) (some (some current)) true ≡ false) ↔ (
        (current.certificate_ids ≡ calculated.certificate_ids)
        × (current.cipher_suite_name ≡ calculated.cipher_suite_name)
        × Perm current.protocols calculated.protocols)
unfolding listener_ssl_config_needs_update
listener_ssl_config_needs_update_iff calculated current = (
  λ h.
      let equal : tls_protocols_equal current.protocols calculated.protocols ≡ true =
        ground arith in
      (
        ground arith,
        ground arith,
        (tls_protocols_equal_iff current.protocols calculated.protocols).0 equal,
      ),
  λ (certificates, suite, protocols).
      let equal : tls_protocols_equal current.protocols calculated.protocols ≡ true =
        (tls_protocols_equal_iff current.protocols calculated.protocols).1 protocols in
      ground arith,
)
