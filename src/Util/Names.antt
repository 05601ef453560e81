-- ===== src/Util/Names.antt =====
-- The names of listeners, backend sets and routing rules, and the tests on paths (pkg/util/util.go).
-- `sha256_hex` is the hexadecimal text of a SHA-256 sum.
use Prim.Native.String.{slice}
use oci_native_ingress_contr.Common.{String, ◌<>◌, ℤ, Bool, Option, none, some, is_some}
use oci_native_ingress_contr.Common.Text.Decimal.{itoa}
use oci_native_ingress_contr.Kube.{HttpIngressPath, IngressServiceBackend, IngressRule, Digest}

abbrev pub default_backend_set_name : String
default_backend_set_name = "default_ingress"

abbrev pub path_type_exact : String
path_type_exact = "Exact"

abbrev pub path_type_prefix : String
path_type_prefix = "Prefix"

abbrev pub path_type_implementation_specific : String
path_type_implementation_specific = "ImplementationSpecific"

-- `PathTypeOrDefault`
unfoldable pub path_type_or_default : HttpIngressPath → String
path_type_or_default p = elim p.path_type [ none ↦ path_type_implementation_specific | some t ↦ t ]

-- `HasHTTPPaths`
unfoldable pub has_http_paths : IngressRule → Bool
has_http_paths rule = is_some rule.http

-- `HasServiceBackend`
unfoldable pub has_service_backend : HttpIngressPath → Bool
has_service_backend p = is_some p.backend.service

abbrev service_name : Option IngressServiceBackend → String
service_name none = ""
service_name (some s) = s.name

-- `PathToRoutePolicyName`: the texts are written to the hash one after the other.
unfoldable pub path_to_route_policy_name : Digest → String → String → HttpIngressPath → String
unfolding path_type_or_default
path_to_route_policy_name sha256_hex ingress_name host p =
    "k8s_"
    <> slice
        (sha256_hex (
          ingress_name
          <> (host <> (path_type_or_default p <> (p.path <> service_name p.backend.service)))))
        0 10

-- `GenerateBackendSetName`
unfoldable pub generate_backend_set_name : Digest → String → String → ℤ → String
unfolding itoa
generate_backend_set_name sha256_hex namespace service port =
    "bs_" <> slice (sha256_hex (namespace <> (service <> itoa port))) 0 15

-- `GenerateListenerName`
unfoldable pub generate_listener_name : ℤ → String
unfolding itoa
generate_listener_name port = "route_" <> itoa port

-- `GetPodReadinessCondition`
unfoldable pub get_pod_readiness_condition : Digest → String → String → HttpIngressPath → String
unfolding path_to_route_policy_name
get_pod_readiness_condition sha256_hex ingress_name host p =
    "podreadiness.ingress.oraclecloud.com/"
    <> path_to_route_policy_name sha256_hex ingress_name host p
