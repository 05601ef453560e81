-- ===== src/LoadBalancer/Listeners.antt =====
-- The listeners of a load balancer (pkg/loadbalancer/loadbalancer.go).
use oci_native_ingress_contr.Common.{
  String, ◌<>◌, ℤ, Bool, true, false, not, ◌&&◌, Option, none, some, [], ◌∷◌, string_eq, is_some,
  or_else, if◌then◌else◌, to_int32,
}
use oci_native_ingress_contr.Common.Map.{lookup}
use oci_native_ingress_contr.Exception.{
  Error, Result, ok, err, plain, wrapped, transient, as_service_error,
}
use oci_native_ingress_contr.Util.Names.{generate_listener_name}
use oci_native_ingress_contr.Util.Annotation.{is_listener_protocol_tls_required}
use oci_native_ingress_contr.LoadBalancer.Types.{
  Listener, SslConfigurationDetails, ConnectionConfiguration, CreateListenerDetails,
}
use oci_native_ingress_contr.LoadBalancer.Program.{
  Change, Program, done, attempt, try_call, ◌>>=◌, send, get_load_balancer,
  get_load_balancer_bust_cache, wait_for_work_request, updates_listener,
}
use oci_native_ingress_contr.LoadBalancer.ListenerDetails.{
  or_current, wrap_multi_certificate, is_listener_already_exists_error, ssl_to_send,
  tls_required_error, update_listener_details,
}

-- The wait whose error may be wrapped.
abbrev wait_wrapped : Option SslConfigurationDetails → String → Program (Unit {0})
wait_wrapped ssl request =
    try_call (wait_for_work_request request) (λ e. err (wrap_multi_certificate ssl e))
      (λ lb_id. done (ok tt))

-- An answer without a work request counts as completed.
abbrev pub finish_listener : Option SslConfigurationDetails → Option String → Program (Unit {0})
finish_listener ssl none = done (ok tt)
finish_listener ssl (some request) = wait_wrapped ssl request

-- What an error of the update becomes.
abbrev pub listener_failure : Option SslConfigurationDetails → Error → Result (Unit {0})
listener_failure ssl e =
    if as_service_error e (404 ∷ 409 ∷ 412 ∷ [])
    then err (transient e)
    else err (wrap_multi_certificate ssl e)

-- `updateListener`
unfoldable pub update_listener :
    String
    → String
    → Listener
    → Option String
    → Option SslConfigurationDetails
    → Option ConnectionConfiguration
    → Option String
    → Option String
    → Bool
    → Program (Unit {0})
unfolding ssl_to_send update_listener_details as_service_error wrap_multi_certificate
update_listener lb_id etag l routing_policy ssl connection protocol default_backend_set preserve =
    do
      sent ← done (ssl_to_send preserve ssl l)
      try_call
          (updates_listener lb_id etag (or_else l.name "")
            (update_listener_details l routing_policy sent connection protocol default_backend_set)
            done)
          (listener_failure sent) (finish_listener sent)

-- `UpdateListenerWithConnectionConfiguration`; `UpdateListener` is this with no connection.
unfoldable pub update_listener_with_connection :
    String
    → String
    → Listener
    → Option String
    → Option SslConfigurationDetails
    → Option ConnectionConfiguration
    → Option String
    → Option String
    → Program (Unit {0})
unfolding update_listener
update_listener_with_connection lb_id etag l routing_policy ssl connection protocol backend_set =
    update_listener lb_id etag l routing_policy ssl connection protocol backend_set true

-- `ClearListenerSSLWithConnectionConfiguration`; `ClearListenerSSL` is this with no connection.
unfoldable pub clear_listener_ssl :
    String
    → String
    → Listener
    → Option String
    → Option ConnectionConfiguration
    → Option String
    → Option String
    → Program (Unit {0})
unfolding update_listener is_listener_protocol_tls_required
clear_listener_ssl lb_id etag l routing_policy connection protocol backend_set =
    elim (or_current protocol l.protocol) [
      | none ↦
          update_listener lb_id etag l routing_policy none connection protocol backend_set false
      | some effective ↦
          if is_listener_protocol_tls_required effective
          then done (err (tls_required_error effective l))
          else update_listener lb_id etag l routing_policy none connection protocol backend_set
              false
    ]

-- The answer to a listener that is there already: the cache is refreshed.
abbrev listener_exists : String → String → Error → Program (Unit {0})
listener_exists lb_id name e =
    try_call (get_load_balancer_bust_cache lb_id)
      (λ refresh_error.
        err (
          transient
            (wrapped (name <> " may already be present, and refresh failed") refresh_error)))
      (λ answer. done (err (transient (wrapped (name <> " may already be present") e))))

-- The call `CreateListener` of the SDK, and what its error leads to.
abbrev request_listener : String → String → CreateListenerDetails → Program (Unit {0})
request_listener lb_id sent_id details =
    attempt (send (Change.create_listener sent_id details)) (λ r. elim r [
      | ok request ↦ wait_wrapped details.ssl_configuration request
      | err e ↦
          if is_listener_already_exists_error e
          then listener_exists lb_id details.name e
          else done (err (wrap_multi_certificate details.ssl_configuration e))
    ])

-- `CreateListenerWithConnectionConfiguration`; `CreateListener` is this with no connection.
unfoldable pub create_listener :
    String
    → ℤ
    → String
    → String
    → Option SslConfigurationDetails
    → Option ConnectionConfiguration
    → Program (Unit {0})
unfolding wrap_multi_certificate is_listener_already_exists_error generate_listener_name
    is_listener_protocol_tls_required
create_listener lb_id port protocol default_backend_set ssl connection = do
  (lb, etag) ← get_load_balancer lb_id
  let name = generate_listener_name (to_int32 port)
  if is_some (lookup name lb.listeners)
      then done (ok tt)
      else if is_listener_protocol_tls_required protocol && not (is_some ssl)
      then done (err (plain ("no TLS configuration provided for a " <> (protocol <> " listener"))))
      else request_listener lb_id lb.id (record {
        name = name;
        port = port;
        protocol = protocol;
        default_backend_set_name = default_backend_set;
        ssl_configuration = ssl;
        connection_configuration = connection;
      })
