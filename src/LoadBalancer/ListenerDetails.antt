-- ===== src/LoadBalancer/ListenerDetails.antt =====
-- What is sent for a listener, and what its errors become (pkg/loadbalancer/loadbalancer.go).
use oci_native_ingress_contr.Common.{
  ℕ, String, ◌<>◌, Bool, ◌&&◌, ◌||◌, Option, none, some, [], ◌∷◌, ◌==◌, string_eq, is_some, or_else,
  if◌then◌else◌, length, ltb,
}
use oci_native_ingress_contr.Common.Text.{contains}
use oci_native_ingress_contr.Common.Text.Lower.{to_lower}
use oci_native_ingress_contr.Exception.{
  Error, Result, ok, err, plain, multi_certificate, message, is_service_error, as_service_error,
}
use oci_native_ingress_contr.TlsPolicy.{ensure_requestable_cipher_suite}
use oci_native_ingress_contr.LoadBalancer.Types.{
  Listener, SslConfiguration, SslConfigurationDetails, no_ssl_details, ConnectionConfiguration,
  UpdateListenerDetails,
}

-- `listenerSslConfigurationDetailsFromCurrent`
unfoldable pub listener_ssl_from_current :
    Option SslConfiguration → Result (Option SslConfigurationDetails)
unfolding ensure_requestable_cipher_suite
listener_ssl_from_current none = ok none
listener_ssl_from_current (some current) =
    elim (ensure_requestable_cipher_suite "listener" current.cipher_suite_name) [
      | err e ↦ err e
      | ok u ↦ ok (
          some (record no_ssl_details {
            certificate_ids = current.certificate_ids;
            cipher_suite_name = current.cipher_suite_name;
            protocols = current.protocols;
          }))
    ]

-- `connectionConfigurationFromCurrent`: a copy
unfoldable pub connection_from_current :
    Option ConnectionConfiguration → Option ConnectionConfiguration
connection_from_current none = none
connection_from_current (some c) = some (record {
  idle_timeout = c.idle_timeout;
  backend_tcp_proxy_protocol_version = c.backend_tcp_proxy_protocol_version;
  backend_tcp_proxy_protocol_options = c.backend_tcp_proxy_protocol_options;
})

-- `if x == nil || *x == "" { x = current }`
abbrev pub or_current : Option String → Option String → Option String
or_current none current = current
or_current (some s) current = if s == "" then current else some s

abbrev pub certificate_count : Option SslConfigurationDetails → ℕ
certificate_count none = 0
certificate_count (some ssl) = length ssl.certificate_ids

-- An error that a listener with several certificates may have caused.
unfoldable pub is_candidate_capability_error : Error → Bool
unfolding contains message as_service_error
is_candidate_capability_error e =
    contains (message e) "work request failed" || as_service_error e (400 ∷ 403 ∷ 422 ∷ [])

-- `wrapMultiCertificateCapabilityError` for an error
unfoldable pub wrap_multi_certificate : Option SslConfigurationDetails → Error → Error
unfolding is_candidate_capability_error
wrap_multi_certificate ssl e =
    if ltb 1 (certificate_count ssl) && is_candidate_capability_error e
    then multi_certificate e
    else e

-- `isListenerAlreadyExistsError`
unfoldable pub is_listener_already_exists_error : Error → Bool
unfolding is_service_error contains message to_lower
is_listener_already_exists_error e =
    is_service_error e 409
    || (contains (to_lower (message e)) "already has listener"
        || contains (to_lower (message e)) "listener already exists")

-- The TLS configuration that `updateListener` sends.
unfoldable pub ssl_to_send :
    Bool → Option SslConfigurationDetails → Listener → Result (Option SslConfigurationDetails)
unfolding listener_ssl_from_current
ssl_to_send preserve none l =
    if preserve then listener_ssl_from_current l.ssl_configuration else ok none
ssl_to_send preserve (some ssl) l = ok (some ssl)

-- The error of a protocol that cannot do without TLS.
abbrev pub tls_required_error : String → Listener → Error
tls_required_error protocol l = plain (
    "TLSPolicyUnsupported: cannot clear TLS from "
    <> (protocol <> (" listener " <> or_else l.name "unknown")))

-- The details that `updateListener` sends.
unfoldable pub update_listener_details :
    Listener
    → Option String
    → Option SslConfigurationDetails
    → Option ConnectionConfiguration
    → Option String
    → Option String
    → UpdateListenerDetails
unfolding connection_from_current
update_listener_details l routing_policy ssl connection protocol default_backend_set = record {
  port = l.port;
  protocol = or_current protocol l.protocol;
  default_backend_set_name = or_current default_backend_set l.default_backend_set_name;
  ssl_configuration = ssl;
  connection_configuration =
      if is_some connection then connection else connection_from_current l.connection_configuration;
  routing_policy_name = routing_policy;
}
