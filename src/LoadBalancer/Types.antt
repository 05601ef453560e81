-- ===== src/LoadBalancer/Types.antt =====
-- The parts of the OCI load balancer's structures that the controllers read or send
-- (oci-go-sdk's package loadbalancer, and the cache entries of pkg/loadbalancer/loadbalancer.go).
use oci_native_ingress_contr.Common.{ℕ, String, ℤ, Bool, Option, List, Eq, string_discrete}
use oci_native_ingress_contr.Common.Map.{Map}
use oci_native_ingress_contr.Kube.{HealthCheckerDetails, AppCookie, LbCookie}
use oci_native_ingress_contr.RoutingPolicy.{RoutingRule}

abbrev pub DefinedTags : Type 0
DefinedTags = Map String (Map String String)

-- `SslConfiguration`, as OCI answers it.
pub record SslConfiguration : Type 0 where
  pub verify_depth : ℤ
  pub verify_peer_certificate : Bool
  pub has_session_resumption : Option Bool
  pub trusted_certificate_authority_ids : List String
  pub certificate_ids : List String
  pub certificate_name : Option String
  pub server_order_preference : String
  pub cipher_suite_name : Option String
  pub protocols : List String

-- `SslConfigurationDetails`, as requests hold it.
pub record SslConfigurationDetails : Type 0 where
  pub verify_depth : Option ℤ
  pub verify_peer_certificate : Option Bool
  pub has_session_resumption : Option Bool
  pub trusted_certificate_authority_ids : List String
  pub certificate_ids : List String
  pub certificate_name : Option String
  pub server_order_preference : String
  pub cipher_suite_name : Option String
  pub protocols : List String

-- `SslConfigurationDetails{}`
abbrev pub no_ssl_details : SslConfigurationDetails
no_ssl_details = record {
  verify_depth = Option.none;
  verify_peer_certificate = Option.none;
  has_session_resumption = Option.none;
  trusted_certificate_authority_ids = List.[];
  certificate_ids = List.[];
  certificate_name = Option.none;
  server_order_preference = "";
  cipher_suite_name = Option.none;
  protocols = List.[];
}

pub record ConnectionConfiguration : Type 0 where
  pub idle_timeout : Option ℤ
  pub backend_tcp_proxy_protocol_version : Option ℤ
  pub backend_tcp_proxy_protocol_options : List String

pub record Listener : Type 0 where
  pub name : Option String
  pub port : Option ℤ
  pub protocol : Option String
  pub default_backend_set_name : Option String
  pub ssl_configuration : Option SslConfiguration
  pub connection_configuration : Option ConnectionConfiguration
  pub routing_policy_name : Option String
  pub rule_set_names : List String

pub record Backend : Type 0 where
  pub ip_address : String
  pub port : ℤ
  pub weight : ℤ
  pub drain : Bool
  pub backup : Bool
  pub offline : Bool
  pub max_connections : Option ℤ

pub record BackendDetails : Type 0 where
  pub ip_address : String
  pub port : ℤ
  pub weight : Option ℤ
  pub drain : Option Bool
  pub backup : Option Bool
  pub offline : Option Bool
  pub max_connections : Option ℤ

pub record BackendSet : Type 0 where
  pub name : String
  pub policy : String
  pub backends : List Backend
  pub health_checker : HealthCheckerDetails
  pub ssl_configuration : Option SslConfiguration
  pub session_persistence_configuration : Option AppCookie
  pub lb_cookie_session_persistence_configuration : Option LbCookie

-- `reserved_id` is the identifier of the reserved address, if there is one.
pub record IpAddress : Type 0 where
  pub reserved_id : Option String
  pub is_public : Option Bool

pub record LoadBalancer : Type 0 where
  pub id : String
  pub display_name : String
  pub lifecycle_state : String
  pub shape_name : String
  pub ip_addresses : List IpAddress
  pub network_security_group_ids : List String
  pub listeners : Map String Listener
  pub backend_sets : Map String BackendSet
  pub routing_policies : Map String (List RoutingRule)
  pub freeform_tags : Map String String
  pub defined_tags : DefinedTags
  pub security_attributes : Option DefinedTags

-- `LbCacheObj`
pub record LbCacheObj : Type 0 where
  pub lb : LoadBalancer
  pub age : ℕ
  pub etag : String

pub record WorkRequestError : Type 0 where
  pub error_code : String
  pub message : Option String

pub data LifecycleState : Type 0 where
  succeeded failed : LifecycleState
  other_state : String → LifecycleState

pub record WorkRequest : Type 0 where
  pub lifecycle_state : LifecycleState
  pub load_balancer_id : String
  pub error_details : List WorkRequestError

pub record UpdateLoadBalancerDetails : Type 0 where
  pub display_name : String
  pub defined_tags : DefinedTags
  pub freeform_tags : Map String String
  pub security_attributes : Option DefinedTags

pub record UpdateBackendSetDetails : Type 0 where
  pub policy : String
  pub health_checker : HealthCheckerDetails
  pub ssl_configuration : Option SslConfigurationDetails
  pub backends : List BackendDetails
  pub session_persistence_configuration : Option AppCookie
  pub lb_cookie_session_persistence_configuration : Option LbCookie

pub record CreateBackendSetDetails : Type 0 where
  pub name : String
  pub details : UpdateBackendSetDetails

pub record UpdateListenerDetails : Type 0 where
  pub port : Option ℤ
  pub protocol : Option String
  pub default_backend_set_name : Option String
  pub ssl_configuration : Option SslConfigurationDetails
  pub connection_configuration : Option ConnectionConfiguration
  pub routing_policy_name : Option String

pub record CreateListenerDetails : Type 0 where
  pub name : String
  pub port : ℤ
  pub protocol : String
  pub default_backend_set_name : String
  pub ssl_configuration : Option SslConfigurationDetails
  pub connection_configuration : Option ConnectionConfiguration

unfoldable pub rule_discrete : Discrete RoutingRule
rule_discrete = hlevel string_discrete

-- `reflect.DeepEqual` on two rules.
instance unfoldable pub rule_eq : Eq RoutingRule
unfolding rule_discrete
rule_eq = record { dec = rule_discrete }
