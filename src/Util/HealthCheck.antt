-- ===== src/Util/HealthCheck.antt =====
-- The health checker of a backend set, from the annotations of an Ingress (pkg/util/util.go).
use oci_native_ingress_contr.Common.{
  String, ◌<>◌, ℤ, pos, Bool, false, none, some, [], ◌∷◌, ◌==◌, string_eq, is_some, or_else,
  some_of, if◌then◌else◌,
}
use oci_native_ingress_contr.Common.Text.{is_blank, to_upper, parse_bool}
use oci_native_ingress_contr.Exception.{Result, ok, err, plain, num_error, wrap, ◌>>=◌}
use oci_native_ingress_contr.Kube.{Ingress, HealthCheckerDetails}
use oci_native_ingress_contr.Util.Annotation.{annotation, int_or, bool_or}

-- The annotations of a health check, under one prefix for the backend sets of an Ingress and
-- another for the default backend set.
abbrev pub health_check_annotation : String → String
health_check_annotation part = "oci-native-ingress.oraclecloud.com/healthcheck-" <> part

abbrev pub default_health_check_annotation : String → String
default_health_check_annotation part =
    "oci-native-ingress.oraclecloud.com/default-backend-healthcheck-" <> part

abbrev tcp_checker : ℤ → ℤ → ℤ → ℤ → HealthCheckerDetails
tcp_checker port timeout interval retries = record {
  protocol = some "TCP";
  port = some port;
  url_path = none;
  timeout_in_millis = some timeout;
  interval_in_millis = some interval;
  retries = some retries;
  return_code = none;
  response_body_regex = none;
  is_force_plain_text = none;
}

-- `GetDefaultHeathChecker`
unfoldable pub get_default_health_checker : HealthCheckerDetails
get_default_health_checker = tcp_checker (pos 0) (pos 3000) (pos 10000) (pos 3)

-- `GetIngressHealthCheckProtocol`
unfoldable pub get_ingress_health_check_protocol : Ingress → String
get_ingress_health_check_protocol i = elim (annotation (health_check_annotation "protocol") i) [
  | none ↦ "TCP"
  | some protocol ↦ to_upper protocol
]

-- `GetIngressHealthCheckPath`
unfoldable pub get_ingress_health_check_path : Ingress → String
get_ingress_health_check_path i = or_else (annotation (health_check_annotation "path") i) ""

-- `GetIngressHealthCheckPort`
unfoldable pub get_ingress_health_check_port : Ingress → Result ℤ
unfolding int_or
get_ingress_health_check_port i = int_or (annotation (health_check_annotation "port") i) (pos 0)

-- `GetIngressHealthCheckIntervalMilliseconds`
unfoldable pub get_ingress_health_check_interval_milliseconds : Ingress → Result ℤ
unfolding int_or
get_ingress_health_check_interval_milliseconds i =
    int_or (annotation (health_check_annotation "interval-milliseconds") i) (pos 10000)

-- `GetIngressHealthCheckTimeoutMilliseconds`
unfoldable pub get_ingress_health_check_timeout_milliseconds : Ingress → Result ℤ
unfolding int_or
get_ingress_health_check_timeout_milliseconds i =
    int_or (annotation (health_check_annotation "timeout-milliseconds") i) (pos 3000)

-- `GetIngressHealthCheckRetries`
unfoldable pub get_ingress_health_check_retries : Ingress → Result ℤ
unfolding int_or
get_ingress_health_check_retries i =
    int_or (annotation (health_check_annotation "retries") i) (pos 3)

-- `GetIngressHealthCheckReturnCode`
unfoldable pub get_ingress_health_check_return_code : Ingress → Result ℤ
unfolding int_or
get_ingress_health_check_return_code i =
    int_or (annotation (health_check_annotation "return-code") i) (pos 200)

-- `GetIngressHealthCheckResponseBodyRegex`
unfoldable pub get_ingress_health_check_response_body_regex : Ingress → String
get_ingress_health_check_response_body_regex i =
    or_else (annotation (health_check_annotation "response-regex") i) ""

-- `GetIngressHealthCheckForcePlainText`
unfoldable pub get_ingress_health_check_force_plain_text : Ingress → Bool
unfolding bool_or
get_ingress_health_check_force_plain_text i =
    bool_or (annotation (health_check_annotation "force-plaintext") i) false

-- The `switch` on the protocol; the return code is read in the branch of HTTP only.
unfoldable pub checker_for :
    String → ℤ → ℤ → ℤ → ℤ → Result ℤ → String → String → Result Bool → Result HealthCheckerDetails
checker_for protocol port timeout interval retries return_code path regex force =
    if protocol == "TCP"
    then ok (tcp_checker port timeout interval retries)
    else if protocol == "HTTP"
    then (do
      code ← wrap "error parsing health check return code" return_code
      force_plain_text ← wrap "error parsing health check force plaintext" force
      ok (record {
        protocol = some "HTTP";
        port = some port;
        url_path = some path;
        timeout_in_millis = some timeout;
        interval_in_millis = some interval;
        retries = some retries;
        return_code = some code;
        response_body_regex = some regex;
        is_force_plain_text = some force_plain_text;
      }))
    else err (plain (protocol <> " unknown protocol found for healthcheck"))

-- `GetHealthChecker`
unfoldable pub get_health_checker : Ingress → Result HealthCheckerDetails
unfolding checker_for
get_health_checker i = do
  interval ←
      wrap "error parsing health check interval" (get_ingress_health_check_interval_milliseconds i)
  timeout ←
      wrap "error parsing health check timeout" (get_ingress_health_check_timeout_milliseconds i)
  retries ← wrap "error parsing health check retries" (get_ingress_health_check_retries i)
  port ← wrap "error parsing health check retries" (get_ingress_health_check_port i)
  checker_for (get_ingress_health_check_protocol i) port timeout interval retries
      (get_ingress_health_check_return_code i) (get_ingress_health_check_path i)
      (get_ingress_health_check_response_body_regex i)
      (ok (get_ingress_health_check_force_plain_text i))

-- `HasDefaultBackendHealthCheckAnnotations`
unfoldable pub has_default_backend_health_check_annotations : Ingress → Bool
has_default_backend_health_check_annotations i =
    some_of (λ part. is_some (annotation (default_health_check_annotation part) i))
      ("protocol" ∷ "port" ∷ "path" ∷ "interval-milliseconds" ∷ "timeout-milliseconds" ∷ "retries"
        ∷ "return-code" ∷ "response-regex" ∷ "force-plaintext" ∷ [])

-- `getIngressHealthCheckInt` at an annotation of the default backend set
unfoldable pub get_ingress_health_check_int : Ingress → String → ℤ → Result ℤ
unfolding int_or
get_ingress_health_check_int i part default_value =
    int_or (annotation (default_health_check_annotation part) i) default_value

-- The flag "force plaintext" of the default backend set: a bad value is an error here.
unfoldable pub force_plain_text_or_error : String → Result Bool
force_plain_text_or_error value =
    if is_blank value
    then ok false
    else elim (parse_bool value) [ none ↦ err (num_error value) | some b ↦ ok b ]

abbrev default_text : Ingress → String → String
default_text i part = or_else (annotation (default_health_check_annotation part) i) ""

-- `GetDefaultBackendHealthChecker`
unfoldable pub get_default_backend_health_checker : Ingress → Result HealthCheckerDetails
unfolding checker_for get_ingress_health_check_int force_plain_text_or_error
get_default_backend_health_checker i = do
  interval ←
      wrap "error parsing health check interval"
        (get_ingress_health_check_int i "interval-milliseconds" (pos 10000))
  timeout ←
      wrap "error parsing health check timeout"
        (get_ingress_health_check_int i "timeout-milliseconds" (pos 3000))
  retries ←
      wrap "error parsing health check retries" (get_ingress_health_check_int i "retries" (pos 3))
  port ← wrap "error parsing health check port" (get_ingress_health_check_int i "port" (pos 0))
  let protocol = to_upper (default_text i "protocol")
  checker_for (if protocol == "" then "TCP" else protocol) port timeout interval retries
      (get_ingress_health_check_int i "return-code" (pos 200)) (default_text i "path")
      (default_text i "response-regex")
      (force_plain_text_or_error (default_text i "force-plaintext"))
