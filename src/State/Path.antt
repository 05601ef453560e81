-- ===== src/State/Path.antt =====
-- What `BuildState` does for one path of an Ingress (pkg/state/ingressstate.go).
pub mod Claims
pub mod Later
pub mod Claimed
use oci_native_ingress_contr.Common.{String, ℤ, int_eq, string_eq, or_else}
use oci_native_ingress_contr.Common.Map.{Map, lookup}
use oci_native_ingress_contr.Common.Set
use oci_native_ingress_contr.Common.Set.{Set}
use oci_native_ingress_contr.Exception.{Result, ok, wrap, ◌>>=◌}
use oci_native_ingress_contr.Kube.{Ingress, HttpIngressPath, ServiceLister, Digest, CookieJson}
use oci_native_ingress_contr.Util.Names.{generate_backend_set_name}
use oci_native_ingress_contr.Util.Annotation.{
  listener_ssl_config_annotation, backend_set_ssl_config_annotation,
}
use oci_native_ingress_contr.Util.Port.{path_to_service_and_port, determine_listener_port}
use oci_native_ingress_contr.State.Types.{Draft, Progress}
use oci_native_ingress_contr.State.Listener.{
  append_listener_backend_set, validate_listener_protocol, validate_listener_default_backend_set,
  validate_listener_connection_idle_timeout,
}
use oci_native_ingress_contr.State.BackendSet.{
  validate_backend_set_health_checker, validate_backend_set_policy,
  validate_backend_set_session_persistence,
}
use oci_native_ingress_contr.State.Tls.{append_tls_policy_candidate, validate_tls_config}

-- The statements from `allListeners.Insert` to the two calls of `appendTLSPolicyCandidate`.
unfoldable pub enter_path : Ingress → ℤ → String → Draft → Draft
unfolding append_listener_backend_set append_tls_policy_candidate
enter_path i port bs_name d = record d {
  all_listeners = Set.insert port d.all_listeners;
  all_backend_sets = Set.insert bs_name d.all_backend_sets;
  listener_backend_sets = append_listener_backend_set d.listener_backend_sets port bs_name;
  listener_tls_policy_candidates =
      append_tls_policy_candidate d.listener_tls_policy_candidates port i
        listener_ssl_config_annotation;
  bs_tls_policy_candidates =
      append_tls_policy_candidate d.bs_tls_policy_candidates bs_name i
        backend_set_ssl_config_annotation;
}

-- The validations of the listener, and the reference to its default backend set.
unfoldable pub claim_listener : Ingress → ℤ → String → Draft → Result Draft
unfolding append_listener_backend_set validate_listener_protocol
    validate_listener_default_backend_set validate_listener_connection_idle_timeout
claim_listener i port bs_name d = do
  protocols ← validate_listener_protocol i d.listener_protocol port
  defaults ← validate_listener_default_backend_set i d.listener_default_bs port bs_name
  (timeouts, configs) ←
      validate_listener_connection_idle_timeout i d.listener_idle_timeout
        d.listener_idle_timeout_config port
  ok (record d {
    listener_protocol = protocols;
    listener_default_bs = defaults;
    listener_idle_timeout = timeouts;
    listener_idle_timeout_config = configs;
    listener_backend_sets =
        append_listener_backend_set d.listener_backend_sets port
          (or_else (lookup port defaults) "");
  })

-- The validations of the backend set.
unfoldable pub claim_backend_set : CookieJson → Ingress → String → Draft → Result Draft
unfolding validate_backend_set_health_checker validate_backend_set_policy
    validate_backend_set_session_persistence
claim_backend_set cookies i bs_name d = do
  checkers ← validate_backend_set_health_checker i d.bs_health_checker bs_name
  policies ← validate_backend_set_policy i d.bs_policy bs_name
  persistence ← validate_backend_set_session_persistence cookies i d.bs_session_persistence bs_name
  ok (record d {
    bs_health_checker = checkers;
    bs_policy = policies;
    bs_session_persistence = persistence;
  })

-- The call of `validateTlsConfig`.
unfoldable pub claim_tls :
    Ingress → Map String String → String → ℤ → String → Draft → Progress → Result (Draft × Progress)
unfolding validate_tls_config
claim_tls i host_secrets host port bs_name d p = do
  (g, statuses, configs) ←
      validate_tls_config i port bs_name host d.listener_tls_candidates d.bs_tls_config
        d.bs_tls_status host_secrets p.discovery_order
  ok (
    record d {
      listener_tls_candidates = g.candidates;
      bs_tls_config = configs;
      bs_tls_status = statuses;
    },
    record p { discovery_order = g.discovery_order },
  )

-- The statements behind the two errors of `resolve_path`.
unfoldable pub claim_path :
    CookieJson
    → Ingress
    → Map String String
    → String
    → ℤ
    → String
    → Draft
    → Progress
    → Result (Draft × Progress)
unfolding enter_path claim_listener claim_backend_set claim_tls
claim_path cookies i host_secrets host port bs_name d p = do
  d1 ← claim_listener i port bs_name (enter_path i port bs_name d)
  d2 ← claim_backend_set cookies i bs_name d1
  claim_tls i host_secrets host port bs_name d2 (record p {
    ports = Set.insert port p.ports;
    backend_sets = Set.insert bs_name p.backend_sets;
  })

module _ (services : ServiceLister) (sha256_hex : Digest) where
  -- The names that a path stands for: its listener's port and its backend set.
  unfoldable pub resolve_path :
      Ingress → Set String → String → HttpIngressPath → Result (ℤ × String)
  unfolding path_to_service_and_port determine_listener_port generate_backend_set_name
  resolve_path i tls_hosts host path = do
    (service_name, service_port) ←
        wrap "error finding service and port" (path_to_service_and_port services i.namespace path)
    port ←
        wrap "error determining listener port"
          (determine_listener_port i tls_hosts host service_port)
    ok (port, generate_backend_set_name sha256_hex i.namespace service_name service_port)

module _ (services : ServiceLister) (sha256_hex : Digest) (cookies : CookieJson) where
  -- The body of the loop over `rule.HTTP.Paths` for a path with a service.
  unfoldable pub process_path :
      Ingress
      → Set String
      → Map String String
      → String
      → HttpIngressPath
      → Draft
      → Progress
      → Result (Draft × Progress)
  unfolding resolve_path claim_path
  process_path i tls_hosts host_secrets host path d p = do
    (port, bs_name) ← resolve_path services sha256_hex i tls_hosts host path
    claim_path cookies i host_secrets host port bs_name d p
