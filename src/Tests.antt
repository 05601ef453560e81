-- ===== src/Tests.antt =====
-- Concrete inputs, and the theorems applied to them.
pub mod Parts
pub mod Annotations
pub mod Resolve
pub mod Balancer
pub mod Classes
pub mod Nodes
use oci_native_ingress_contr.Common.{
  All, ◌≡◌, refl, String, ◌<>◌, ℤ, pos, int_eq, string_eq, Bool, true, false, Option, none, some,
  List, [], ◌∷◌,
}
use oci_native_ingress_contr.Common.Map.{lookup}
use oci_native_ingress_contr.Common.Set.{has}
use oci_native_ingress_contr.Exception.{Result, ok, err, Error, not_found, plain}
use oci_native_ingress_contr.Kube.{
  Ingress, IngressClass, IngressRule, IngressTls, HttpIngressPath, ServiceLister, Service, Digest,
  CookieJson,
}
use oci_native_ingress_contr.TlsPolicy.{
  PolicyJson, Document, object, member, eof, bad_start, parse_policy_value,
}
use oci_native_ingress_contr.State.Types.{StateStore, IngressClassState}
use oci_native_ingress_contr.State.Store.{build_state, is_default_class}
use oci_native_ingress_contr.State.Build.{ingress_group}
use oci_native_ingress_contr.RoutingPolicy.Served.{Routes, build_state-Routes}
use oci_native_ingress_contr.Util.Names.{has_service_backend}
use oci_native_ingress_contr.Util.Annotation.{is_ingress_protocol_http_based}
use oci_native_ingress_contr.State.Store.Agreement.{
  ServesIngress, build_state-ServesIngress, build_state-error,
}

abbrev pub no_services : ServiceLister
no_services namespace name = err not_found

-- A digest that keeps the text, in place of a hash.
abbrev pub plain_digest : Digest
plain_digest s = s

abbrev pub no_cookies : CookieJson
no_cookies = record { app_cookie = λ s. err (plain s); lb_cookie = λ s. err (plain s) }

abbrev pub quoted : PolicyJson
quoted = record {
  document = λ s. object (member "cipherSuiteName" (ok s) ∷ []) eof;
  as_string = λ s. some s;
  as_strings = λ s. none;
}

abbrev pub path_to : String → ℤ → HttpIngressPath
path_to path port = record {
  path = path;
  path_type = some "Exact";
  backend = record {
    service = some (record { name = "web"; port = record { number = port; name = "" } });
  };
}

abbrev pub shop : Ingress
shop = record {
  namespace = "prod";
  name = "shop";
  annotations = ("oci-native-ingress.oraclecloud.com/listener-connection-idle-timeout", "60") ∷ [];
  deletion_timestamp = none;
  ingress_class_name = some "oci";
  default_backend = none;
  tls = record { hosts = "shop.example" ∷ []; secret_name = "shop-cert" } ∷ [];
  rules =
      record { host = "shop.example"; http = some (path_to "/cart" (pos 8080) ∷ []) }
      ∷ record { host = "img.example"; http = none }
      ∷ [];
}

abbrev pub blog : Ingress
blog = record shop {
  name = "blog";
  annotations = [];
  tls = [];
  rules =
      record {
        host = "blog.example";
        http = some (path_to "/" (pos 8080) ∷ path_to "/a" (pos 80) ∷ []);
      }
      ∷ [];
}

abbrev pub tcp : Ingress
tcp = record blog {
  name = "zz";
  annotations = ("oci-native-ingress.oraclecloud.com/protocol", "TCP") ∷ [];
}

abbrev pub oci : IngressClass
oci = record { name = "oci"; annotations = []; controller = "" }

abbrev pub empty_group : IngressClassState
empty_group = record {
  backend_sets = [];
  backend_set_health_checker = [];
  backend_set_policy = [];
  backend_set_tls_config = [];
  backend_set_tls_policy = [];
  backend_set_session_persistence = [];
  listeners = [];
  listener_protocol = [];
  listener_tls_config = [];
  listener_tls_policy = [];
  listener_default_bs = [];
  listener_idle_timeout = [];
  listener_backend_sets = [];
}

abbrev pub empty_store : StateStore
empty_store = record { group = empty_group; ingresses = [] }

abbrev pub built : StateStore
built =
    (build_state no_services plain_digest no_cookies quoted oci (ok (shop ∷ blog ∷ []))
      empty_store).0

abbrev refused : StateStore
refused =
    (build_state no_services plain_digest no_cookies quoted oci (ok (blog ∷ tcp ∷ []))
      empty_store).0

-- The Ingress with the protocol TCP shares a listener with one with the protocol HTTP.
abbrev conflict_error : Error
conflict_error =
    plain
      "validation failure: incompatible protocol config across ingresses sharing listener 8080 in the ingress class"

-- The two runs, computed: the first one succeeds, and its store has two listeners.
runs :
    (build_state no_services plain_digest no_cookies quoted oci (ok (shop ∷ blog ∷ [])) empty_store
      ≡ (built, none))
    × (built.group.listeners ≡ pos 80 ∷ pos 8080 ∷ [])
    × (build_state no_services plain_digest no_cookies quoted oci (ok (blog ∷ tcp ∷ [])) empty_store
        ≡ (refused, some conflict_error))
unfolding oci_native_ingress_contr.Common.string_eq oci_native_ingress_contr.Common.int_eq
    oci_native_ingress_contr.Common.Map.keys oci_native_ingress_contr.Common.Map.lookup
    oci_native_ingress_contr.Common.Map.insert oci_native_ingress_contr.Common.Set.has
    oci_native_ingress_contr.Common.Set.insert oci_native_ingress_contr.Common.Text.is_blank
    oci_native_ingress_contr.Common.Text.Decimal.atoi
    oci_native_ingress_contr.Kube.health_checker_eq
    oci_native_ingress_contr.State.Listener.default_backend_set_for
    oci_native_ingress_contr.State.Store.build_state
    oci_native_ingress_contr.Util.Annotation.get_ingress_policy
    oci_native_ingress_contr.Util.Annotation.get_ingress_protocol
    oci_native_ingress_contr.Util.Annotation.is_ingress_protocol_tcp
    oci_native_ingress_contr.Util.Annotation.get_listener_tls_certificate_ocids
    oci_native_ingress_contr.Util.Annotation.get_backend_tls_enabled
    oci_native_ingress_contr.Util.Annotation.get_ingress_http_listener_port
    oci_native_ingress_contr.Util.Annotation.get_ingress_https_listener_port
    oci_native_ingress_contr.Util.Annotation.get_ingress_listener_connection_idle_timeout
    oci_native_ingress_contr.Util.HealthCheck.get_ingress_health_check_protocol
    oci_native_ingress_contr.Util.HealthCheck.get_ingress_health_check_port
    oci_native_ingress_contr.Util.HealthCheck.get_ingress_health_check_interval_milliseconds
    oci_native_ingress_contr.Util.HealthCheck.get_ingress_health_check_timeout_milliseconds
    oci_native_ingress_contr.Util.HealthCheck.get_ingress_health_check_retries
    oci_native_ingress_contr.Util.HealthCheck.get_health_checker
    oci_native_ingress_contr.Util.Session.has_session_persistence_annotation
    oci_native_ingress_contr.Util.Session.get_session_persistence_configs
    native.Mathlib.Decide.ℕ_discrete native.Mathlib.Decide.dec_lt
    oci_native_ingress_contr.Common.Text.to_upper
runs = (refl, refl, refl)

build_state-ServesIngress_example :
    All
      (ServesIngress no_services plain_digest built)
      (ingress_group oci (is_default_class oci) (shop ∷ blog ∷ []))
build_state-ServesIngress_example =
    build_state-ServesIngress no_services plain_digest no_cookies quoted oci (shop ∷ blog ∷ [])
      empty_store built runs.0

build_state-Routes_example :
    All
      (λ i.
        is_ingress_protocol_http_based i ≡ true
        → All
            (λ rule.
              (paths : List HttpIngressPath)
              → rule.http ≡ some paths
              → All
                  (λ path.
                    has_service_backend path ≡ true
                    → Routes no_services plain_digest built i rule.host path)
                  paths)
            i.rules)
      (ingress_group oci (is_default_class oci) (shop ∷ blog ∷ []))
build_state-Routes_example =
    build_state-Routes no_services plain_digest no_cookies quoted oci (shop ∷ blog ∷ []) empty_store
      built runs.0

build_state-error_example : refused.group ≡ empty_group
build_state-error_example =
    build_state-error no_services plain_digest no_cookies quoted oci (ok (blog ∷ tcp ∷ []))
      empty_store refused conflict_error runs.2
