-- ===== src/TlsResolve.antt =====
-- The TLS policy of a listener or a backend set (pkg/controllers/ingress/tls_policy.go).
pub mod Laws
pub mod Total
pub mod Update
use oci_native_ingress_contr.Common.{
  ℕ, String, ◌<>◌, Bool, true, false, not, ◌&&◌, ◌||◌, Option, none, some, List, [], ◌∷◌, ◌==◌,
  string_eq, nat_eq, Eq, length, is_some, or_else, string_discrete, if◌then◌else◌,
}
use oci_native_ingress_contr.Common.Map.{Map, lookup}
use oci_native_ingress_contr.Common.Sort.{sort_slice}
use oci_native_ingress_contr.Common.Text.Order.{str_lt}
use oci_native_ingress_contr.Exception.{Result, ok, err, plain, ◌>>=◌, ◌>>◌}
use oci_native_ingress_contr.Util.Annotation.{is_listener_protocol_using_http2_cipher_suite}
use oci_native_ingress_contr.TlsPolicy.{
  ExplicitTlsPolicy, tls12, tls13, ensure_requestable_cipher_suite,
}

-- `tlsPolicyResourceType`, a string of which two values are used.
pub data ResourceType : Type 0 where
  listener : ResourceType
  backend_set : ResourceType
  unknown : String → ResourceType

pub record TlsPolicy : Type 0 where
  pub cipher_suite_name : String
  pub protocols : List String

-- The fields of `SslConfigurationDetails` and `SslConfiguration` that are read or written.
pub record SslConfig : Type 0 where
  pub certificate_ids : List String
  pub certificate_name : Option String
  pub cipher_suite_name : Option String
  pub protocols : List String

abbrev pub http2_default_cipher_suite : String
http2_default_cipher_suite = "oci-default-http2-tls-12-13-ssl-cipher-suite-v1"

abbrev pub locked_listener : TlsPolicy
locked_listener = record {
  cipher_suite_name = "oci-tls-12-13-ssl-cipher-suite-v3";
  protocols = tls12 ∷ tls13 ∷ [];
}

abbrev pub locked_http2 : TlsPolicy
locked_http2 = record {
  cipher_suite_name = http2_default_cipher_suite;
  protocols = tls12 ∷ tls13 ∷ [];
}

-- `strings.Join(protocols, ",")`
abbrev join : List String → String
join [] = ""
join (s ∷ []) = s
join (s ∷ t ∷ ts) = s <> ("," <> join (t ∷ ts))

-- `tlsProtocolKey`
unfoldable pub tls_protocol_key : List String → String
unfolding sort_slice str_lt
tls_protocol_key protocols = join (sort_slice str_lt protocols)

-- `protocolCompatibleListenerCipherSuites`
abbrev pub listener_suites : Map String String
listener_suites =
    ("TLSv1.2,TLSv1.3", locked_listener.cipher_suite_name)
    ∷ ("TLSv1.3", "oci-tls-13-ssl-cipher-suite-v3")
    ∷ ("TLSv1.2", "oci-tls-12-ssl-cipher-suite-v3")
    ∷ []

-- `protocolCompatibleHTTP2CipherSuites`, with the same entries as the one for backend sets.
abbrev pub http2_suites : Map String String
http2_suites =
    ("TLSv1.2,TLSv1.3", http2_default_cipher_suite)
    ∷ ("TLSv1.3", "oci-default-http2-tls-13-ssl-cipher-suite-v1")
    ∷ ("TLSv1.2", "oci-default-http2-ssl-cipher-suite-v1")
    ∷ []

-- `lockedDefaultTLSPolicy`
unfoldable pub locked_default_tls_policy : ResourceType → String → Result TlsPolicy
unfolding is_listener_protocol_using_http2_cipher_suite
locked_default_tls_policy listener protocol =
    if is_listener_protocol_using_http2_cipher_suite protocol
    then ok locked_http2
    else ok locked_listener
locked_default_tls_policy backend_set protocol = ok locked_http2
locked_default_tls_policy (unknown t) protocol =
    err (plain ("unknown TLS policy resource type " <> t))

-- The message prints the resource and the protocols, here without them.
abbrev pub no_safe_default : Option String → Result String
no_safe_default (some suite) = ok suite
no_safe_default none = err (
    plain
      "TLSPolicyInvalidAnnotation: protocols-only TLS policy has no confirmed safe default cipher suite; provide cipherSuiteName explicitly")

-- `protocolCompatibleDefaultCipherSuite`
unfoldable pub protocol_compatible_default_cipher_suite :
    ResourceType → String → List String → Result String
unfolding tls_protocol_key lookup string_eq is_listener_protocol_using_http2_cipher_suite
protocol_compatible_default_cipher_suite listener protocol protocols =
    if is_listener_protocol_using_http2_cipher_suite protocol
    then no_safe_default (lookup (tls_protocol_key protocols) http2_suites)
    else no_safe_default (lookup (tls_protocol_key protocols) listener_suites)
protocol_compatible_default_cipher_suite backend_set protocol protocols =
    no_safe_default (lookup (tls_protocol_key protocols) http2_suites)
protocol_compatible_default_cipher_suite (unknown t) protocol protocols =
    err (plain ("unknown TLS policy resource type " <> t))

-- `overlayExplicitTLSPolicy`
unfoldable pub overlay_explicit_tls_policy :
    ResourceType → String → TlsPolicy → ExplicitTlsPolicy → Result TlsPolicy
unfolding protocol_compatible_default_cipher_suite
overlay_explicit_tls_policy resource protocol default explicit =
    let protocols = if explicit.has_protocols then explicit.protocols else default.protocols in
    if explicit.has_cipher_suite_name
    then ok (record { cipher_suite_name = explicit.cipher_suite_name; protocols = protocols })
    else if explicit.has_protocols
    then (do
      suite ← protocol_compatible_default_cipher_suite resource protocol protocols
      ok (record { cipher_suite_name = suite; protocols = protocols }))
    else ok default

-- `applyTLSPolicyToSSLConfig` where neither pointer is nil
unfoldable pub apply_tls_policy_to_ssl_config : SslConfig → TlsPolicy → SslConfig
apply_tls_policy_to_ssl_config config policy = record config {
  cipher_suite_name = some policy.cipher_suite_name;
  protocols = policy.protocols;
}

abbrev resource_kind : ResourceType → String
resource_kind listener = "listener"
resource_kind backend_set = "backend set"
resource_kind (unknown t) = t

abbrev is_nil {ℓ} : {A : Type ℓ} → List A → Bool
is_nil [] = true
is_nil (x ∷ xs) = false

-- `preserveTLSPolicyFields` where `dst` is not nil
unfoldable pub preserve_tls_policy_fields : String → SslConfig → Option SslConfig → Result SslConfig
unfolding ensure_requestable_cipher_suite
preserve_tls_policy_fields kind dst none = ok dst
preserve_tls_policy_fields kind dst (some current) =
    let kept = record dst {
      protocols = if is_nil dst.protocols then current.protocols else dst.protocols;
    } in
    if not (is_some dst.cipher_suite_name) && is_some current.cipher_suite_name
    then (do
      ensure_requestable_cipher_suite kind current.cipher_suite_name
      ok (record kept { cipher_suite_name = current.cipher_suite_name }))
    else ok kept

-- `resolveTLSPolicy`: the policy, and the configuration that it writes to.
unfoldable pub resolve_tls_policy :
    ResourceType
    → String
    → Option SslConfig
    → Option ExplicitTlsPolicy
    → Bool
    → Option SslConfig
    → Result (Option TlsPolicy × Option SslConfig)
unfolding locked_default_tls_policy overlay_explicit_tls_policy apply_tls_policy_to_ssl_config
    preserve_tls_policy_fields
resolve_tls_policy resource protocol none explicit is_create current = ok (none, none)
resolve_tls_policy resource protocol (some config) (some explicit) is_create current = do
  default ← locked_default_tls_policy resource protocol
  policy ← overlay_explicit_tls_policy resource protocol default explicit
  ok (some policy, some (apply_tls_policy_to_ssl_config config policy))
resolve_tls_policy resource protocol (some config) none true current = do
  default ← locked_default_tls_policy resource protocol
  ok (some default, some (apply_tls_policy_to_ssl_config config default))
resolve_tls_policy resource protocol (some config) none false current = do
  default ← locked_default_tls_policy resource protocol
  config' ← preserve_tls_policy_fields (resource_kind resource) config current
  ok (none, some config')

-- The loop of `tlsProtocolsEqual`.
unfoldable pub same_elements : List String → List String → Bool
same_elements [] ys = true
same_elements (x ∷ xs) [] = false
same_elements (x ∷ xs) (y ∷ ys) = x == y && same_elements xs ys

-- `tlsProtocolsEqual`
unfoldable pub tls_protocols_equal : List String → List String → Bool
unfolding same_elements sort_slice
tls_protocols_equal a b =
    if not (length a == length b)
    then false
    else same_elements (sort_slice str_lt a) (sort_slice str_lt b)
