-- ===== src/Tests/Resolve.antt =====
-- The theorems on the resolution of TLS policies, applied to concrete inputs.
use mathlib.Core.List.{Perm}
use oci_native_ingress_contr.Common.{String, false, ◌≡◌, ◌↔◌, refl, true, none, some, [], ◌∷◌, inl}
use oci_native_ingress_contr.Exception.{ok}
use oci_native_ingress_contr.TlsResolve.{
  listener, TlsPolicy, SslConfig, resolve_tls_policy, tls_protocols_equal,
}
use oci_native_ingress_contr.TlsResolve.Laws.{tls_protocols_equal_iff}
use oci_native_ingress_contr.TlsResolve.Update.{
  listener_ssl_config_needs_update, listener_ssl_config_needs_update_iff,
}
use oci_native_ingress_contr.TlsResolve.Total.{
  IsSafePolicy, Carries, Follows, resolve_tls_policy-IsSafePolicy,
}
use oci_native_ingress_contr.Tests.{quoted}
use oci_native_ingress_contr.Tests.Parts.{strong, strong_parses}

abbrev one_certificate : SslConfig
one_certificate = record {
  certificate_ids = "ocid" ∷ [];
  certificate_name = none;
  cipher_suite_name = none;
  protocols = [];
}

resolve_tls_policy-IsSafePolicy_example :
    (q : TlsPolicy) × (result : SslConfig) × (resolve_tls_policy listener "HTTP2"
        (some one_certificate)
        (some strong)
        true
        none
      ≡ ok (some q, some result))
    × Carries one_certificate q result
    × IsSafePolicy q
    × Follows strong q
resolve_tls_policy-IsSafePolicy_example =
    resolve_tls_policy-IsSafePolicy quoted "ssl" "strong-suite" strong listener "HTTP2"
      one_certificate true none strong_parses (inl refl)

tls_protocols_equal_iff_example :
    (tls_protocols_equal ("TLSv1.3" ∷ "TLSv1.2" ∷ []) ("TLSv1.2" ∷ "TLSv1.3" ∷ []) ≡ true)
    ↔ Perm {A = String} ("TLSv1.3" ∷ "TLSv1.2" ∷ []) ("TLSv1.2" ∷ "TLSv1.3" ∷ [])
tls_protocols_equal_iff_example =
    tls_protocols_equal_iff ("TLSv1.3" ∷ "TLSv1.2" ∷ []) ("TLSv1.2" ∷ "TLSv1.3" ∷ [])

listener_ssl_config_needs_update_iff_example :
    (listener_ssl_config_needs_update (some one_certificate) (some (some one_certificate)) true
      ≡ false)
    ↔ ((one_certificate.certificate_ids ≡ one_certificate.certificate_ids)
        × (one_certificate.cipher_suite_name ≡ one_certificate.cipher_suite_name)
        × Perm one_certificate.protocols one_certificate.protocols)
listener_ssl_config_needs_update_iff_example =
    listener_ssl_config_needs_update_iff one_certificate one_certificate
