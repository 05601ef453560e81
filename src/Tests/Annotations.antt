-- ===== src/Tests/Annotations.antt =====
-- The theorems on annotations, names and shared backend sets, applied to concrete inputs.
use native.Mathlib.Decide.{dec_lt}
use mathlib.Core.Bool.{xor}
use oci_native_ingress_contr.Common.{
  ◌≡◌, inl, inr, ◌↔◌, ◌≢◌, refl, String, ℤ, pos, int_eq, ltℤ, string_eq, Bool, true, false, not,
  ◌&&◌, ◌||◌, Option, none, some, List, [], ◌∷◌, All, is_some, arith, IsInt32, if◌then◌else◌,
}
use oci_native_ingress_contr.Common.Set.{has}
use oci_native_ingress_contr.Common.Text.Decimal.{itoa}
use oci_native_ingress_contr.Common.Map.{Map, lookup, insert}
use oci_native_ingress_contr.Exception.{ok, Error, plain, wrapped, transient, has_transient_error}
use oci_native_ingress_contr.Exception.Laws.{Layer, wrap_all, has_transient_error_iff}
use oci_native_ingress_contr.Kube.{Ingress, HttpIngressPath, HealthCheckerDetails}
use oci_native_ingress_contr.Util.Names.{path_type_or_default, path_type_exact, path_type_prefix}
use oci_native_ingress_contr.Util.HealthCheck.{get_health_checker, get_default_health_checker}
use oci_native_ingress_contr.Util.Session.{
  get_session_persistence_configs, get_session_persistence_configs_exclusive,
  has_session_persistence_annotation, present, session_persistence_annotation, lb_cookie_annotation,
}
use oci_native_ingress_contr.Util.Annotation.{
  http_listener_port_annotation, https_listener_port_annotation, get_listener_tls_certificate_ocids,
  get_ingress_listener_connection_idle_timeout,
}
use oci_native_ingress_contr.Util.Port.{determine_listener_port}
use oci_native_ingress_contr.Util.Bounds.{
  get_ingress_listener_connection_idle_timeout-bounds, generate_listener_name_inj,
}
use oci_native_ingress_contr.Util.Asked.{Asks, WithTls, determine_listener_port_lem}
use oci_native_ingress_contr.State.Types.{SessionPersistence}
use oci_native_ingress_contr.State.BackendSet.Checkers.{validate_all, Settles, validate_all_iff}
use oci_native_ingress_contr.State.BackendSet.Shared.{join_all, first_lb, first_app, join_all_lem}
use oci_native_ingress_contr.RoutingPolicy.{by_path_less}
use oci_native_ingress_contr.RoutingPolicy.Order.{by_path_less-Exact}
use oci_native_ingress_contr.Tests.{no_cookies, path_to, shop}
use oci_native_ingress_contr.Tests.Parts.{route}

abbrev by_prefix : HttpIngressPath
by_prefix = record (path_to "/" (pos 80)) { path_type = some "Prefix" }

exact_type : path_type_or_default (path_to "/" (pos 80)) ≡ path_type_exact
unfolding oci_native_ingress_contr.Util.Names.path_type_or_default
exact_type = refl

prefix_type : path_type_or_default by_prefix ≡ path_type_prefix
unfolding oci_native_ingress_contr.Util.Names.path_type_or_default
prefix_type = refl

by_path_less-Exact_example :
    (by_path_less (some (route "b" (path_to "/" (pos 80)))) (some (route "a" by_prefix)) ≡ true)
    × (by_path_less (some (route "a" by_prefix)) (some (route "b" (path_to "/" (pos 80)))) ≡ false)
by_path_less-Exact_example =
    by_path_less-Exact (route "b" (path_to "/" (pos 80))) (route "a" by_prefix)
      (path_to "/" (pos 80)) by_prefix refl refl refl exact_type prefix_type

abbrev on_port_9 : HealthCheckerDetails
on_port_9 = record get_default_health_checker { port = some (pos 9) }

abbrev one_checker : Map String HealthCheckerDetails
one_checker = ("bs", on_port_9) ∷ []

has_one : lookup "bs" one_checker ≡ some on_port_9
unfolding oci_native_ingress_contr.Common.string_eq oci_native_ingress_contr.Common.Map.lookup
has_one = refl

shop_checker : get_health_checker shop ≡ ok get_default_health_checker
unfolding oci_native_ingress_contr.Common.string_eq oci_native_ingress_contr.Common.Map.lookup
    oci_native_ingress_contr.Util.HealthCheck.get_default_health_checker
    oci_native_ingress_contr.Util.HealthCheck.get_ingress_health_check_protocol
    oci_native_ingress_contr.Util.HealthCheck.get_ingress_health_check_port
    oci_native_ingress_contr.Util.HealthCheck.get_ingress_health_check_interval_milliseconds
    oci_native_ingress_contr.Util.HealthCheck.get_ingress_health_check_timeout_milliseconds
    oci_native_ingress_contr.Util.HealthCheck.get_ingress_health_check_retries
    oci_native_ingress_contr.Util.HealthCheck.get_health_checker
shop_checker = refl

validate_all_iff_example :
    ((r : Map String HealthCheckerDetails) × (validate_all (shop ∷ []) one_checker "bs" ≡ ok r))
    ↔ Settles on_port_9 (get_default_health_checker ∷ [])
validate_all_iff_example =
    validate_all_iff (shop ∷ []) (get_default_health_checker ∷ []) "bs" one_checker on_port_9
      has_one (shop_checker, tt)

abbrev by_lb : SessionPersistence
by_lb = record {
  app_cookie = none;
  lb_cookie = some (record {
    cookie_name = some "c";
    disable_fallback = none;
    domain = none;
    path = none;
    max_age_in_seconds = none;
    is_secure = none;
    is_http_only = none;
  });
}

abbrev by_app : SessionPersistence
by_app = record {
  app_cookie = some (record { cookie_name = some "a"; disable_fallback = none });
  lb_cookie = none;
}

join_all_example :
    ((join_all by_app (by_lb ∷ [])).lb_cookie ≡ first_lb (by_app ∷ by_lb ∷ []))
    × ((join_all by_app (by_lb ∷ [])).app_cookie ≡ (
        if is_some (first_lb (by_app ∷ by_lb ∷ [])) then none else first_app (by_app ∷ by_lb ∷ [])))
join_all_example = join_all_lem by_app (by_lb ∷ []) refl (refl, tt)

shop_persistence : get_session_persistence_configs no_cookies shop ≡ ok (none, none)
unfolding oci_native_ingress_contr.Common.string_eq oci_native_ingress_contr.Common.Map.lookup
    oci_native_ingress_contr.Util.Session.get_session_persistence_configs
shop_persistence = refl

get_session_persistence_configs_exclusive_example :
    (has_session_persistence_annotation shop ≡ xor false false)
    × (false ≡ is_some (present session_persistence_annotation shop))
    × (false ≡ is_some (present lb_cookie_annotation shop))
get_session_persistence_configs_exclusive_example =
    get_session_persistence_configs_exclusive no_cookies shop shop_persistence

shop_timeout : get_ingress_listener_connection_idle_timeout shop ≡ ok (some (pos 60))
unfolding oci_native_ingress_contr.Common.Map.lookup oci_native_ingress_contr.Common.Text.is_blank
    oci_native_ingress_contr.Common.Set.has oci_native_ingress_contr.Common.string_eq
    oci_native_ingress_contr.Common.Text.Decimal.atoi
    oci_native_ingress_contr.Util.Annotation.get_ingress_listener_connection_idle_timeout
shop_timeout = refl

get_ingress_listener_connection_idle_timeout-bounds_example :
    (ltℤ (pos 60) (pos 1) ≡ false) × (ltℤ (pos 7200) (pos 60) ≡ false)
get_ingress_listener_connection_idle_timeout-bounds_example =
    get_ingress_listener_connection_idle_timeout-bounds shop (pos 60) shop_timeout

-- An annotation that is out of the range of int32 wraps around.
abbrev wrapping : Ingress
wrapping = record shop {
  annotations = ("oci-native-ingress.oraclecloud.com/http-listener-port", "4294967739") ∷ [];
}

wraps : determine_listener_port wrapping [] "" (pos 8080) ≡ ok (pos 443)
unfolding oci_native_ingress_contr.Common.string_eq oci_native_ingress_contr.Common.int_eq
    oci_native_ingress_contr.Common.to_int32 oci_native_ingress_contr.Common.Map.lookup
    oci_native_ingress_contr.Common.Set.has oci_native_ingress_contr.Common.Text.Decimal.atoi
    oci_native_ingress_contr.Util.Annotation.get_listener_tls_certificate_ocids
    oci_native_ingress_contr.Util.Annotation.get_ingress_http_listener_port
    oci_native_ingress_contr.Util.Annotation.get_ingress_https_listener_port
    oci_native_ingress_contr.Util.Port.determine_listener_port native.Mathlib.Decide.ℕ_discrete
wraps = refl

-- An HTTP port, and no HTTPS port.
abbrev on_8443 : Ingress
on_8443 = record shop {
  annotations = ("oci-native-ingress.oraclecloud.com/http-listener-port", "8443") ∷ [];
}

http_port_given : Asks on_8443 http_listener_port_annotation (some (pos 8443))
unfolding lookup string_eq itoa dec_lt
http_port_given = (refl, λ q. cc, omega arith)

https_port_absent : Asks on_8443 https_listener_port_annotation none
unfolding lookup string_eq
https_port_absent = refl

without_tls : ¬ WithTls on_8443 [] "a.com"
unfolding lookup string_eq has get_listener_tls_certificate_ocids
without_tls (inl certificates) = certificates refl
without_tls (inr listed) = cc

determine_listener_port_example :
    determine_listener_port on_8443 [] "a.com" (pos 8080) ≡ ok (pos 8443)
determine_listener_port_example =
    (determine_listener_port_lem on_8443 [] "a.com" (pos 8080) (some (pos 8443)) none
        http_port_given https_port_absent).1
      without_tls

generate_listener_name_inj_example : pos 80 ≡ pos 80
generate_listener_name_inj_example =
    generate_listener_name_inj (pos 80) (pos 80) (omega arith) (omega arith) refl

has_transient_error_iff_example :
    (has_transient_error (wrapped "sync" (transient (plain "busy"))) ≡ true) ↔ (
      (messages : List Layer) × (cause : Error) × (wrapped "sync" (transient (plain "busy"))
        ≡ wrap_all messages (transient cause)))
has_transient_error_iff_example =
    has_transient_error_iff (wrapped "sync" (transient (plain "busy")))
