-- ===== src/LoadBalancer/BackendSets.antt =====
-- The backend sets of a load balancer (pkg/loadbalancer/loadbalancer.go).
use oci_native_ingress_contr.Common.{
  String, ◌<>◌, ℤ, Bool, true, not, ◌&&◌, Option, none, some, List, [], ◌∷◌, string_eq, is_some,
  if◌then◌else◌, map,
}
use oci_native_ingress_contr.Common.Map.{lookup}
use oci_native_ingress_contr.Common.Set.{has}
use oci_native_ingress_contr.Common.Text.{contains}
use oci_native_ingress_contr.Common.Text.Decimal.{itoa}
use oci_native_ingress_contr.Exception.{
  Error, Result, ok, err, plain, transient, message, is_service_error, as_service_error,
}
use oci_native_ingress_contr.Kube.{HealthCheckerDetails}
use oci_native_ingress_contr.TlsPolicy.{ensure_requestable_cipher_suite}
use oci_native_ingress_contr.LoadBalancer.Types.{
  SslConfiguration, SslConfigurationDetails, no_ssl_details, Backend, BackendDetails, BackendSet,
  UpdateBackendSetDetails, CreateBackendSetDetails,
}
use oci_native_ingress_contr.LoadBalancer.Program.{
  Change, Program, done, try_call, ◌>>=◌, send, wait, get_load_balancer,
}

-- `backendSetSslConfigurationDetailsFromCurrent`
unfoldable pub backend_set_ssl_from_current :
    Option SslConfiguration → Result (Option SslConfigurationDetails)
unfolding ensure_requestable_cipher_suite
backend_set_ssl_from_current none = ok none
backend_set_ssl_from_current (some current) =
    elim (ensure_requestable_cipher_suite "backend set" current.cipher_suite_name) [
      | err e ↦ err e
      | ok u ↦ ok (
          some (record no_ssl_details {
            trusted_certificate_authority_ids = current.trusted_certificate_authority_ids;
            cipher_suite_name = current.cipher_suite_name;
            protocols = current.protocols;
          }))
    ]

-- `if len(desired.Protocols) == 0 { desired.Protocols = current.Protocols }`
abbrev protocols_or : List String → List String → List String
protocols_or [] current = current
protocols_or (p ∷ ps) current = p ∷ ps

-- `backendSetSslConfigurationDetailsWithPreservedPolicy` where neither is nil.
unfoldable pub preserved_policy :
    SslConfigurationDetails → SslConfiguration → Result SslConfigurationDetails
unfolding ensure_requestable_cipher_suite
preserved_policy desired current =
    if not (is_some desired.cipher_suite_name) && is_some current.cipher_suite_name
    then elim (ensure_requestable_cipher_suite "backend set" current.cipher_suite_name) [
      | err e ↦ err e
      | ok u ↦ ok (record desired {
        cipher_suite_name = current.cipher_suite_name;
        protocols = protocols_or desired.protocols current.protocols;
      })
    ]
    else ok (record desired { protocols = protocols_or desired.protocols current.protocols })

-- `backendSetSslConfigurationDetailsWithPreservedPolicy`
unfoldable pub with_preserved_policy :
    Option SslConfigurationDetails
    → Option SslConfiguration
    → Result (Option SslConfigurationDetails)
unfolding preserved_policy
with_preserved_policy none current = ok none
with_preserved_policy (some desired) none = ok (some desired)
with_preserved_policy (some desired) (some current) = elim (preserved_policy desired current) [
  | err e ↦ err e
  | ok details ↦ ok (some details)
]

-- `ip:port`
abbrev pub address : String → ℤ → String
address ip port = ip <> (":" <> itoa port)

unfoldable pub is_subset : List String → List String → Bool
unfolding has
is_subset [] ys = true
is_subset (x ∷ xs) ys = has x ys && is_subset xs ys

-- `desired.Equal(actual)` for the sets of two lists
unfoldable pub same_set : List String → List String → Bool
unfolding is_subset
same_set xs ys = is_subset xs ys && is_subset ys xs

-- The nine fields that `UpdateBackends` copies.
unfoldable pub health_checker_from_current : HealthCheckerDetails → HealthCheckerDetails
health_checker_from_current h = record {
  protocol = h.protocol;
  port = h.port;
  url_path = h.url_path;
  timeout_in_millis = h.timeout_in_millis;
  interval_in_millis = h.interval_in_millis;
  retries = h.retries;
  return_code = h.return_code;
  response_body_regex = h.response_body_regex;
  is_force_plain_text = h.is_force_plain_text;
}

-- The loop of `UpdateBackendSetDetails`.
unfoldable pub backends_from_current : List Backend → List BackendDetails
backends_from_current [] = []
backends_from_current (b ∷ bs) =
    record {
      ip_address = b.ip_address;
      port = b.port;
      weight = some b.weight;
      drain = some b.drain;
      backup = some b.backup;
      offline = some b.offline;
      max_connections = none;
    }
    ∷ backends_from_current bs

-- The answer 400 that names a routing policy in the way is transient.
unfoldable pub used_backend_set : Error → Error
unfolding contains message is_service_error
used_backend_set e =
    if is_service_error e 400
      && (contains (message e) "Can't remove backend set"
          && contains (message e) "since it is used in routing policy")
    then transient e
    else e

-- `DeleteBackendSet`
unfoldable pub delete_backend_set : String → String → Program (Unit {0})
unfolding is_service_error used_backend_set
delete_backend_set lb_id name = do
  (lb, etag) ← get_load_balancer lb_id
  if is_some (lookup name lb.backend_sets)
      then try_call (send (Change.delete_backend_set lb.id name))
          (λ e. if is_service_error e 404 then ok tt else err (used_backend_set e)) wait
      else done (ok tt)

-- `DeleteListener`
unfoldable pub delete_listener : String → String → Program (Unit {0})
unfolding is_service_error
delete_listener lb_id name = do
  (lb, etag) ← get_load_balancer lb_id
  if is_some (lookup name lb.listeners)
      then try_call (send (Change.delete_listener lb.id name))
          (λ e. if is_service_error e 404 then ok tt else err e) wait
      else done (ok tt)

-- `CreateBackendSet`, whose arguments are the fields of its request.
unfoldable pub create_backend_set : String → CreateBackendSetDetails → Program (Unit {0})
unfolding is_service_error
create_backend_set lb_id request = do
  (lb, etag) ← get_load_balancer lb_id
  if is_some (lookup request.name lb.backend_sets)
      then done (ok tt)
      else try_call (send (Change.create_backend_set lb.id request))
          (λ e. if is_service_error e 409 then ok tt else err e) wait

-- `UpdateBackendSet`
unfoldable pub update_backend_set :
    String → String → String → UpdateBackendSetDetails → Program (Unit {0})
unfolding as_service_error
update_backend_set lb_id etag name details =
    try_call (send (Change.update_backend_set lb_id etag name details))
      (λ e. if as_service_error e (409 ∷ 412 ∷ []) then err (transient e) else err e) wait

-- The request of `UpdateBackends` for new backends.
unfoldable pub backends_request : BackendSet → List BackendDetails → Result UpdateBackendSetDetails
unfolding backend_set_ssl_from_current health_checker_from_current
backends_request b backends = elim (backend_set_ssl_from_current b.ssl_configuration) [
  | err e ↦ err e
  | ok ssl ↦ ok (record {
    policy = b.policy;
    health_checker = health_checker_from_current b.health_checker;
    ssl_configuration = ssl;
    backends = backends;
    session_persistence_configuration = b.session_persistence_configuration;
    lb_cookie_session_persistence_configuration = b.lb_cookie_session_persistence_configuration;
  })
]

-- `UpdateBackends` where the backend set is found.
unfoldable pub update_found :
    String → String → BackendSet → List BackendDetails → Program (Unit {0})
unfolding update_backend_set backends_request same_set
update_found lb_id etag b backends =
    if same_set (map (λ d. address d.ip_address d.port) backends)
      (map (λ a. address a.ip_address a.port) b.backends)
    then done (ok tt)
    else do
      details ← done (backends_request b backends)
      update_backend_set lb_id etag b.name details

-- `UpdateBackends`
unfoldable pub update_backends : String → String → List BackendDetails → Program (Unit {0})
unfolding update_found
update_backends lb_id name backends = do
  (lb, etag) ← get_load_balancer lb_id
  elim (lookup name lb.backend_sets) [
    | none ↦ done (err (transient (plain ("backendset " <> (name <> " was not found")))))
    | some b ↦ update_found lb_id etag b backends
  ]

-- `UpdateBackendSetDetails`; its arguments beside the backend set are the fields of the request.
unfoldable pub update_backend_set_details :
    String → String → BackendSet → UpdateBackendSetDetails → Program (Unit {0})
unfolding update_backend_set with_preserved_policy backends_from_current
update_backend_set_details lb_id etag b desired = do
  ssl ← done (with_preserved_policy desired.ssl_configuration b.ssl_configuration)
  update_backend_set lb_id etag b.name
      (record desired { ssl_configuration = ssl; backends = backends_from_current b.backends })
