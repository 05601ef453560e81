-- ===== src/State/Store.antt =====
-- `BuildState` as a whole and what the controllers read from the store (pkg/state/ingressstate.go).
-- A nil set or pointer is `none`, or the empty set where the callers only look elements up.
pub mod Agreement
use oci_native_ingress_contr.Common.{
  String, ℤ, int_eq, Bool, Option, none, some, List, [], ◌==◌, string_eq, or_else,
}
use mathlib.Core.Option
use oci_native_ingress_contr.Common.Map.{Map, lookup}
use oci_native_ingress_contr.Common.Set.{Set}
use oci_native_ingress_contr.Exception.{Error, Result, ok, err, wrap, ◌>>=◌}
use oci_native_ingress_contr.Kube.{
  Ingress, IngressClass, ServiceLister, Digest, CookieJson, HealthCheckerDetails, AppCookie,
  LbCookie,
}
use oci_native_ingress_contr.TlsPolicy.{PolicyJson, ExplicitTlsPolicy}
use oci_native_ingress_contr.State.Types.{
  Draft, IngressState, IngressClassState, StateStore, TlsConfig, no_tls_config,
  get_ingress_state_key,
}
use oci_native_ingress_contr.State.Build.{empty_draft, ingress_group, process_ingresses}
use oci_native_ingress_contr.State.TlsConfigs.{build_listener_tls_config_map}
use oci_native_ingress_contr.State.Policies.{
  build_listener_tls_policy_map, build_backend_set_tls_policy_map,
}

abbrev pub ingress_class_is_default : String
ingress_class_is_default = "ingressclass.kubernetes.io/is-default-class"

abbrev pub is_default_class : IngressClass → Bool
is_default_class class = or_else (lookup ingress_class_is_default class.annotations) "" == "true"

-- The statements behind the loop of `BuildState`.
unfoldable pub finish : PolicyJson → Draft → Result IngressClassState
unfolding build_listener_tls_config_map build_listener_tls_policy_map
    build_backend_set_tls_policy_map
finish policies d =
    let listener_configs = build_listener_tls_config_map d.listener_tls_candidates in
    do
      listener_policies ←
          build_listener_tls_policy_map policies d.listener_tls_policy_candidates listener_configs
      bs_policies ←
          build_backend_set_tls_policy_map policies d.bs_tls_policy_candidates d.bs_tls_config
      ok (record {
        backend_sets = d.all_backend_sets;
        backend_set_health_checker = d.bs_health_checker;
        backend_set_policy = d.bs_policy;
        backend_set_tls_config = d.bs_tls_config;
        backend_set_tls_policy = bs_policies;
        backend_set_session_persistence = d.bs_session_persistence;
        listeners = d.all_listeners;
        listener_protocol = d.listener_protocol;
        listener_tls_config = listener_configs;
        listener_tls_policy = listener_policies;
        listener_default_bs = d.listener_default_bs;
        listener_idle_timeout = d.listener_idle_timeout;
        listener_backend_sets = d.listener_backend_sets;
      })

-- The last assignment of `BuildState`, on success only.
abbrev pub commit :
    StateStore → Map String IngressState → Result IngressClassState → StateStore × Option Error
commit s states (ok group) = (record { group = group; ingresses = states }, none)
commit s states (err e) = (record s { ingresses = states }, some e)

module _ (services : ServiceLister) (sha256_hex : Digest) (cookies : CookieJson)
    (policies : PolicyJson) where
  -- The group's state from the Ingresses of the class, in their order.
  unfoldable pub build_group :
      IngressClass
      → List Ingress
      → Map String IngressState
      → Map String IngressState × Result IngressClassState
  unfolding process_ingresses empty_draft finish
  build_group class group states =
      let (states', d) =
        process_ingresses services sha256_hex cookies class group empty_draft states in
      (states', d >>= finish policies)

  -- `BuildState`: the store afterwards and the error. `listed` is the answer of `IngressLister.List`.
  unfoldable pub build_state :
      IngressClass → Result (List Ingress) → StateStore → StateStore × Option Error
  unfolding build_group ingress_group
  build_state class listed s = elim (wrap "error listing ingress" listed) [
    | err e ↦ (s, some e)
    | ok ingresses ↦
        let (states, group) =
          build_group class (ingress_group class (is_default_class class) ingresses) s.ingresses in
        commit s states group
  ]

-- `GetBackendSetHealthChecker`
unfoldable pub get_backend_set_health_checker : StateStore → String → Option HealthCheckerDetails
get_backend_set_health_checker s bs_name = lookup bs_name s.group.backend_set_health_checker

-- `GetBackendSetPolicy`
unfoldable pub get_backend_set_policy : StateStore → String → String
get_backend_set_policy s bs_name = or_else (lookup bs_name s.group.backend_set_policy) ""

-- `GetIngressBackendSets`
unfoldable pub get_ingress_backend_sets : StateStore → String → String → Option (Set String)
unfolding get_ingress_state_key
get_ingress_backend_sets s namespace name =
    Option.map (λ i. i.backend_sets) (lookup (get_ingress_state_key namespace name) s.ingresses)

-- `GetIngressPorts`
unfoldable pub get_ingress_ports : StateStore → String → String → Option (Set ℤ)
unfolding get_ingress_state_key
get_ingress_ports s namespace name =
    Option.map (λ i. i.ports) (lookup (get_ingress_state_key namespace name) s.ingresses)

-- `GetListenerProtocol`
unfoldable pub get_listener_protocol : StateStore → ℤ → String
get_listener_protocol s port = or_else (lookup port s.group.listener_protocol) ""

-- `GetListenerDefaultBackendSet`
unfoldable pub get_listener_default_backend_set : StateStore → ℤ → String
get_listener_default_backend_set s port = or_else (lookup port s.group.listener_default_bs) ""

-- `GetListenerConnectionIdleTimeout`
unfoldable pub get_listener_connection_idle_timeout : StateStore → ℤ → Option ℤ
get_listener_connection_idle_timeout s port = lookup port s.group.listener_idle_timeout

-- `GetBackendSetsForListener`
unfoldable pub get_backend_sets_for_listener : StateStore → ℤ → Set String
get_backend_sets_for_listener s port = or_else (lookup port s.group.listener_backend_sets) []

-- `GetTLSConfigForListener`
unfoldable pub get_tls_config_for_listener : StateStore → ℤ → List TlsConfig
get_tls_config_for_listener s port = or_else (lookup port s.group.listener_tls_config) []

-- `GetTLSPolicyForListener`
unfoldable pub get_tls_policy_for_listener : StateStore → ℤ → Option ExplicitTlsPolicy
get_tls_policy_for_listener s port = lookup port s.group.listener_tls_policy

-- `GetTLSConfigForBackendSet`
unfoldable pub get_tls_config_for_backend_set : StateStore → String → TlsConfig
get_tls_config_for_backend_set s bs_name =
    or_else (lookup bs_name s.group.backend_set_tls_config) no_tls_config

-- `GetTLSPolicyForBackendSet`
unfoldable pub get_tls_policy_for_backend_set : StateStore → String → Option ExplicitTlsPolicy
get_tls_policy_for_backend_set s bs_name = lookup bs_name s.group.backend_set_tls_policy

-- `GetBackendSetSessionPersistence`
unfoldable pub get_backend_set_session_persistence :
    StateStore → String → Option AppCookie × Option LbCookie
get_backend_set_session_persistence s bs_name =
    elim (lookup bs_name s.group.backend_set_session_persistence) [
      | none ↦ (none, none)
      | some p ↦ (p.app_cookie, p.lb_cookie)
    ]
