-- ===== src/Util/Annotation.antt =====
-- The annotations of an Ingress (pkg/util/util.go).
use oci_native_ingress_contr.Common.{
  String, ◌<>◌, ℤ, pos, ltℤ, Bool, true, false, ◌||◌, Option, none, some, List, [], ◌∷◌, ◌==◌,
  string_eq, if◌then◌else◌,
}
use oci_native_ingress_contr.Common.Map.{lookup}
use oci_native_ingress_contr.Common.Set.{has, insert}
use oci_native_ingress_contr.Common.Text.{trim_space, is_blank, split, to_upper, parse_bool}
use oci_native_ingress_contr.Common.Text.Decimal.{atoi}
use oci_native_ingress_contr.Exception.{Result, ok, err, plain, wrapped, num_error}
use oci_native_ingress_contr.Kube.{Ingress}

abbrev pub listener_tls_certificate_annotation : String
listener_tls_certificate_annotation = "oci-native-ingress.oraclecloud.com/certificate-ocid"

abbrev pub backend_tls_enabled_annotation : String
backend_tls_enabled_annotation = "oci-native-ingress.oraclecloud.com/backend-tls-enabled"

abbrev pub listener_ssl_config_annotation : String
listener_ssl_config_annotation = "oci-native-ingress.oraclecloud.com/listener-ssl-config"

abbrev pub backend_set_ssl_config_annotation : String
backend_set_ssl_config_annotation = "oci-native-ingress.oraclecloud.com/backendset-ssl-config"

abbrev pub protocol_annotation : String
protocol_annotation = "oci-native-ingress.oraclecloud.com/protocol"

abbrev pub policy_annotation : String
policy_annotation = "oci-native-ingress.oraclecloud.com/policy"

abbrev pub http_listener_port_annotation : String
http_listener_port_annotation = "oci-native-ingress.oraclecloud.com/http-listener-port"

abbrev pub https_listener_port_annotation : String
https_listener_port_annotation = "oci-native-ingress.oraclecloud.com/https-listener-port"

abbrev pub idle_timeout_annotation : String
idle_timeout_annotation = "oci-native-ingress.oraclecloud.com/listener-connection-idle-timeout"

abbrev pub default_routing_policy : String
default_routing_policy = "LEAST_CONNECTIONS"

-- `value, ok := i.Annotations[name]`
abbrev pub annotation : String → Ingress → Option String
annotation name i = lookup name i.annotations

-- `strconv.Atoi(value)`, or a default where the annotation is absent
unfoldable pub int_or : Option String → ℤ → Result ℤ
int_or none d = ok d
int_or (some text) d = elim (atoi text) [ none ↦ err (num_error text) | some n ↦ ok n ]

-- `strconv.ParseBool(value)`: a default where the value is absent, blank or no Boolean
unfoldable pub bool_or : Option String → Bool → Bool
bool_or none d = d
bool_or (some text) d =
    if is_blank text then d else elim (parse_bool text) [ none ↦ d | some b ↦ b ]

-- `GetIngressPolicy`
unfoldable pub get_ingress_policy : Ingress → String
get_ingress_policy i = elim (annotation policy_annotation i) [
  | none ↦ default_routing_policy
  | some value ↦ value
]

-- `GetIngressProtocol`
unfoldable pub get_ingress_protocol : Ingress → String
get_ingress_protocol i = elim (annotation protocol_annotation i) [
  | none ↦ "HTTP"
  | some protocol ↦ to_upper protocol
]

-- `IsIngressProtocolTCP`
unfoldable pub is_ingress_protocol_tcp : Ingress → Bool
is_ingress_protocol_tcp i = get_ingress_protocol i == "TCP"

-- `IsIngressProtocolHTTPBased`
unfoldable pub is_ingress_protocol_http_based : Ingress → Bool
is_ingress_protocol_http_based i =
    let protocol = get_ingress_protocol i in
    protocol == "HTTP" || protocol == "HTTP2" || protocol == "GRPC"

-- `IsListenerProtocolTLSRequired`
unfoldable pub is_listener_protocol_tls_required : String → Bool
is_listener_protocol_tls_required protocol = protocol == "HTTP2" || protocol == "GRPC"

-- `IsListenerProtocolUsingHTTP2CipherSuite`
unfoldable pub is_listener_protocol_using_http2_cipher_suite : String → Bool
is_listener_protocol_using_http2_cipher_suite protocol = protocol == "HTTP2" || protocol == "GRPC"

-- The loop of `GetListenerTlsCertificateOcids`.
unfoldable pub distinct_entries : List String → List String → List String
distinct_entries [] seen = []
distinct_entries (entry ∷ entries) seen =
    let trimmed = trim_space entry in
    let skipped = distinct_entries entries seen in
    let taken = trimmed ∷ distinct_entries entries (insert trimmed seen) in
    if trimmed == "" || has trimmed seen then skipped else taken

-- `GetListenerTlsCertificateOcids`
unfoldable pub get_listener_tls_certificate_ocids : Ingress → List String
unfolding distinct_entries
get_listener_tls_certificate_ocids i = elim (annotation listener_tls_certificate_annotation i) [
  | none ↦ []
  | some value ↦ distinct_entries (split "," value) []
]

-- `GetBackendTlsEnabled`
unfoldable pub get_backend_tls_enabled : Ingress → Bool
unfolding bool_or
get_backend_tls_enabled i = bool_or (annotation backend_tls_enabled_annotation i) true

-- `GetIngressHttpListenerPort`
unfoldable pub get_ingress_http_listener_port : Ingress → Result ℤ
unfolding int_or
get_ingress_http_listener_port i = int_or (annotation http_listener_port_annotation i) (pos 0)

-- `GetIngressHttpsListenerPort`
unfoldable pub get_ingress_https_listener_port : Ingress → Result ℤ
unfolding int_or
get_ingress_https_listener_port i = int_or (annotation https_listener_port_annotation i) (pos 0)

abbrev idle_timeout_message : String → String
idle_timeout_message rest = "ingress annotation " <> (idle_timeout_annotation <> rest)

-- The range test on the parsed number of seconds: 1 to 7200.
unfoldable pub check_idle_timeout : ℤ → Result (Option ℤ)
check_idle_timeout timeout =
    if ltℤ timeout (pos 1) || ltℤ (pos 7200) timeout
    then err (plain (idle_timeout_message " must be between 1 and 7200 seconds"))
    else ok (some timeout)

unfoldable pub parse_idle_timeout : String → Result (Option ℤ)
unfolding check_idle_timeout
parse_idle_timeout value =
    if value == ""
    then err (plain (idle_timeout_message " must not be empty"))
    else elim (atoi value) [
      | none ↦
          err (
            wrapped (idle_timeout_message " must be an integer number of seconds")
              (num_error value))
      | some timeout ↦ check_idle_timeout timeout
    ]

-- `GetIngressListenerConnectionIdleTimeout`
unfoldable pub get_ingress_listener_connection_idle_timeout : Ingress → Result (Option ℤ)
unfolding parse_idle_timeout
get_ingress_listener_connection_idle_timeout i = elim (annotation idle_timeout_annotation i) [
  | none ↦ ok none
  | some value ↦ parse_idle_timeout (trim_space value)
]

-- `IsIngressDeleting`
unfoldable pub is_ingress_deleting : Ingress → Bool
is_ingress_deleting i = elim i.deletion_timestamp [ none ↦ false | some t ↦ true ]
