-- ===== src/State/Types.antt =====
-- The data of the state store (pkg/state/ingressstate.go).
use oci_native_ingress_contr.Common.{ℕ, String, ◌<>◌, ℤ, Bool, Option, List, string_discrete, Eq}
use oci_native_ingress_contr.Common.Map.{Map}
use oci_native_ingress_contr.Common.Set.{Set}
use oci_native_ingress_contr.Kube.{
  Ingress, HealthCheckerDetails, AppCookie, LbCookie, app_cookie_discrete, lb_cookie_discrete,
}
use oci_native_ingress_contr.TlsPolicy.{ExplicitTlsPolicy}

pub record TlsConfig : Type 0 where
  pub artifact : String
  pub type : String
  pub namespace : String

unfoldable pub tls_config_discrete : Discrete TlsConfig
tls_config_discrete = hlevel string_discrete

instance unfoldable pub tls_config_eq : Eq TlsConfig
unfolding tls_config_discrete
tls_config_eq = record { dec = tls_config_discrete }

-- `TlsConfig{}`
abbrev pub no_tls_config : TlsConfig
no_tls_config = record { artifact = ""; type = ""; namespace = "" }

pub record ListenerTlsCandidate : Type 0 where
  pub ingress_key : String
  pub discovery_order : ℕ
  pub config : TlsConfig

pub record BackendTlsStatus : Type 0 where
  pub enabled : Bool
  pub has_tls_artifact_input : Bool
  pub config : TlsConfig

pub record TlsPolicyCandidate : Type 0 where
  pub ingress_key : String
  pub annotation_name : String
  pub raw_value : String

unfoldable pub candidate_discrete : Discrete TlsPolicyCandidate
candidate_discrete = hlevel string_discrete

instance unfoldable pub candidate_eq : Eq TlsPolicyCandidate
unfolding candidate_discrete
candidate_eq = record { dec = candidate_discrete }

pub record IdleTimeoutConfig : Type 0 where
  pub timeout : ℤ
  pub namespace : String
  pub name : String

pub record SessionPersistence : Type 0 where
  pub app_cookie : Option AppCookie
  pub lb_cookie : Option LbCookie

unfoldable pub persistence_discrete : Discrete SessionPersistence
persistence_discrete = hlevel (app_cookie_discrete, lb_cookie_discrete)

instance unfoldable pub persistence_eq : Eq SessionPersistence
unfolding persistence_discrete
persistence_eq = record { dec = persistence_discrete }

pub record IngressState : Type 0 where
  pub backend_sets : Set String
  pub ports : Set ℤ
  pub class_name : String

-- `ListenerTLSConfig` is its list of configurations.
pub record IngressClassState : Type 0 where
  pub backend_sets : Set String
  pub backend_set_health_checker : Map String HealthCheckerDetails
  pub backend_set_policy : Map String String
  pub backend_set_tls_config : Map String TlsConfig
  pub backend_set_tls_policy : Map String ExplicitTlsPolicy
  pub backend_set_session_persistence : Map String SessionPersistence
  pub listeners : Set ℤ
  pub listener_protocol : Map ℤ String
  pub listener_tls_config : Map ℤ (List TlsConfig)
  pub listener_tls_policy : Map ℤ ExplicitTlsPolicy
  pub listener_default_bs : Map ℤ String
  pub listener_idle_timeout : Map ℤ ℤ
  pub listener_backend_sets : Map ℤ (Set String)

-- `StateStore`, without the listers and the metrics.
pub record StateStore : Type 0 where
  pub group : IngressClassState
  pub ingresses : Map String IngressState

-- The local variables of `BuildState` that live through the whole loop.
pub record Draft : Type 0 where
  pub bs_tls_config : Map String TlsConfig
  pub bs_tls_status : Map String BackendTlsStatus
  pub bs_tls_policy_candidates : Map String (List TlsPolicyCandidate)
  pub listener_protocol : Map ℤ String
  pub listener_tls_candidates : Map ℤ (List ListenerTlsCandidate)
  pub listener_tls_policy_candidates : Map ℤ (List TlsPolicyCandidate)
  pub listener_default_bs : Map ℤ String
  pub listener_idle_timeout : Map ℤ ℤ
  pub listener_idle_timeout_config : Map ℤ IdleTimeoutConfig
  pub listener_backend_sets : Map ℤ (Set String)
  pub bs_health_checker : Map String HealthCheckerDetails
  pub bs_policy : Map String String
  pub bs_session_persistence : Map String SessionPersistence
  pub all_backend_sets : Set String
  pub all_listeners : Set ℤ
  pub default_health_check_owner : Option Ingress

-- The local variables of the loop's body for one Ingress that its paths change.
pub record Progress : Type 0 where
  pub discovery_order : ℕ
  pub ports : Set ℤ
  pub backend_sets : Set String

-- `getIngressStateKey`
unfoldable pub get_ingress_state_key : String → String → String
get_ingress_state_key namespace name = namespace <> ("/" <> name)
