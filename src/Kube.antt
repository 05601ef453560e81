-- ===== src/Kube.antt =====
-- The parts of the Kubernetes objects that the controller reads (k8s.io/api), and the components
-- outside the repository that it calls.
use oci_native_ingress_contr.Common.{
  ℕ, String, ℤ, Bool, Option, List, ℤ_discrete, string_discrete, Eq,
}
use oci_native_ingress_contr.Common.Map.{Map}
use oci_native_ingress_contr.Exception.{Result}

-- `name` is "" if the number is given, and `number` is 0 if the name is.
pub record ServiceBackendPort : Type 0 where
  pub number : ℤ
  pub name : String

pub record IngressServiceBackend : Type 0 where
  pub name : String
  pub port : ServiceBackendPort

pub record IngressBackend : Type 0 where
  pub service : Option IngressServiceBackend

pub record HttpIngressPath : Type 0 where
  pub path : String
  pub path_type : Option String
  pub backend : IngressBackend

pub record IngressRule : Type 0 where
  pub host : String
  pub http : Option (List HttpIngressPath)

pub record IngressTls : Type 0 where
  pub hosts : List String
  pub secret_name : String

-- An absent map of annotations reads like an empty one.
pub record Ingress : Type 0 where
  pub namespace : String
  pub name : String
  pub annotations : Map String String
  pub deletion_timestamp : Option ℕ
  pub ingress_class_name : Option String
  pub default_backend : Option IngressBackend
  pub tls : List IngressTls
  pub rules : List IngressRule

pub record IngressClass : Type 0 where
  pub name : String
  pub annotations : Map String String
  pub controller : String

-- A target port is a number or the name of a port of the pods.
pub data TargetPort : Type 0 where
  number : ℤ → TargetPort
  named : String → TargetPort

pub record ServicePort : Type 0 where
  pub name : String
  pub port : ℤ
  pub target_port : TargetPort
  pub node_port : ℤ

pub record Service : Type 0 where
  pub ports : List ServicePort
  pub external_traffic_policy : String
  pub selector : Map String String

-- The listers' answers for a namespace and a name.
abbrev pub ServiceLister : Type 0
ServiceLister = String → String → Result Service

abbrev pub Digest : Type 0
Digest = String → String

pub record HealthCheckerDetails : Type 0 where
  pub protocol : Option String
  pub port : Option ℤ
  pub url_path : Option String
  pub timeout_in_millis : Option ℤ
  pub interval_in_millis : Option ℤ
  pub retries : Option ℤ
  pub return_code : Option ℤ
  pub response_body_regex : Option String
  pub is_force_plain_text : Option Bool

pub record AppCookie : Type 0 where
  pub cookie_name : Option String
  pub disable_fallback : Option Bool

pub record LbCookie : Type 0 where
  pub cookie_name : Option String
  pub disable_fallback : Option Bool
  pub domain : Option String
  pub path : Option String
  pub max_age_in_seconds : Option ℤ
  pub is_secure : Option Bool
  pub is_http_only : Option Bool

-- `json.Unmarshal` into the two cookie structures.
pub record CookieJson : Type 0 where
  pub app_cookie : String → Result AppCookie
  pub lb_cookie : String → Result LbCookie

unfoldable pub health_checker_discrete : Discrete HealthCheckerDetails
health_checker_discrete = hlevel (string_discrete, ℤ_discrete)

-- `reflect.DeepEqual` on the structures of pointers.
instance unfoldable pub health_checker_eq : Eq HealthCheckerDetails
unfolding health_checker_discrete
health_checker_eq = record { dec = health_checker_discrete }

unfoldable pub app_cookie_discrete : Discrete AppCookie
app_cookie_discrete = hlevel (string_discrete, ℤ_discrete)

unfoldable pub lb_cookie_discrete : Discrete LbCookie
lb_cookie_discrete = hlevel (string_discrete, ℤ_discrete)
