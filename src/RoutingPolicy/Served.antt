-- ===== src/RoutingPolicy/Served.antt =====
-- The paths of processRoutingPolicy (pkg/controllers/routingpolicy/util.go) beside those of BuildState
-- (pkg/state/ingressstate.go).
use oci_native_ingress_contr.Common.{
  ◌≡◌, refl, subst, ap, ◌∙◌, String, ℤ, int_eq, string_eq, true, List, [], ◌∷◌, All, All-map, some,
  none,
}
use oci_native_ingress_contr.Common.Map.{Map, insert}
use oci_native_ingress_contr.Common.Set
use oci_native_ingress_contr.Common.Set.{Set, has}
use oci_native_ingress_contr.Exception.{Result, ok, wrap}
use oci_native_ingress_contr.Exception.Laws.{>>=-eq-ok, wrap-eq-ok, ok-injective}
use oci_native_ingress_contr.Kube.{
  Ingress, IngressClass, IngressTls, HttpIngressPath, ServiceLister, Digest, CookieJson,
}
use oci_native_ingress_contr.TlsPolicy.{PolicyJson}
use oci_native_ingress_contr.Util.Names.{has_service_backend, generate_backend_set_name}
use oci_native_ingress_contr.Util.Annotation.{is_ingress_protocol_http_based, get_ingress_protocol}
use oci_native_ingress_contr.Util.Port.{path_to_service_and_port, determine_listener_port}
use oci_native_ingress_contr.State.Types.{StateStore}
use oci_native_ingress_contr.State.Path.{resolve_path}
use oci_native_ingress_contr.State.Build.{add_hosts, add_tls, tls_hosts_of, ingress_group}
use oci_native_ingress_contr.State.Store.{
  build_state, is_default_class, get_listener_protocol, get_backend_sets_for_listener,
}
use oci_native_ingress_contr.State.Store.Agreement.{Serves, build_state-ServesIngress}
use oci_native_ingress_contr.RoutingPolicy.{
  ListenerPath, insert_hosts, tls_configured_hosts, route_path,
}

add_hosts_lem :
    (secret : String) (hosts : List String) (m : Set String × Map String String)
    → (add_hosts secret hosts m).0 ≡ insert_hosts hosts m.0
unfolding add_hosts insert_hosts
add_hosts_lem secret [] m = refl
add_hosts_lem secret (host ∷ hosts) (known, secrets) =
    add_hosts_lem secret hosts (Set.insert host known, insert host secret secrets)

add_tls_lem :
    (ts : List IngressTls) (m : Set String × Map String String)
    → (add_tls ts m).0 ≡ tls_configured_hosts ts m.0
unfolding add_tls tls_configured_hosts
add_tls_lem [] m = refl
add_tls_lem (t ∷ ts) m =
    add_tls_lem ts (add_hosts t.secret_name t.hosts m)
    ∙ ap (tls_configured_hosts ts) (add_hosts_lem t.secret_name t.hosts m)

-- For an Ingress of an HTTP protocol both components know the same hosts with TLS.
tls_hosts_of-HttpBased :
    (i : Ingress)
    → is_ingress_protocol_http_based i ≡ true
    → (tls_hosts_of i).0 ≡ tls_configured_hosts i.tls []
unfolding tls_hosts_of
tls_hosts_of-HttpBased i http = rw http (add_tls_lem i.tls ([], []))

wrap-ok {ℓ} : {A : Type ℓ} (m : String) (r : Result A) {a : A} → r ≡ ok a → wrap m r ≡ ok a
wrap-ok m r h = ap (wrap m) h

module _ (services : ServiceLister) (sha256_hex : Digest) where
  -- A path that the state store resolves is routed to the same port and backend set.
  route_path-resolve_path :
      (i : Ingress) (hosts : Set String) (host : String) (path : HttpIngressPath) {port : ℤ}
      {b : String}
      → resolve_path services sha256_hex i hosts host path ≡ ok (port, b)
      → route_path services sha256_hex i hosts host path
        ≡ ok (record {
          ingress_name = i.name;
          listener_port = port;
          host = host;
          backend_set_name = b;
          path = some path;
        })
  unfolding route_path resolve_path
  route_path-resolve_path i hosts host path {port} {b} h =
      let ((service_name, service_port), h1, r1) =
        >>=-eq-ok
          (wrap "error finding service and port"
            (path_to_service_and_port services i.namespace path))
          _ h in
      let (p, h2, r2) =
        >>=-eq-ok
          (wrap "error determining listener port"
            (determine_listener_port i hosts host service_port))
          _ r1 in
      let found = wrap-eq-ok _ _ h1 in
      let determined = wrap-eq-ok _ _ h2 in
      let same : (p, generate_backend_set_name sha256_hex i.namespace service_name service_port)
          ≡ (port, b) =
        ok-injective r2 in
      rw (found, determined)
        (ap
          (λ x. ok (record {
            ingress_name = i.name;
            listener_port = x.0;
            host = host;
            backend_set_name = x.1;
            path = some path;
          }))
          same)

  -- The path has a routing rule's listener and backend set that the store knows and connects.
  abbrev pub Routes : StateStore → Ingress → String → HttpIngressPath → Type 0
  Routes s i host path =
      (r : ListenerPath) × (route_path services sha256_hex i (tls_configured_hosts i.tls []) host
          path
        ≡ ok r)
      × (get_listener_protocol s r.listener_port ≡ get_ingress_protocol i)
      × (has r.listener_port s.group.listeners ≡ true)
      × (has r.backend_set_name (get_backend_sets_for_listener s r.listener_port) ≡ true)

  Routes_of :
      (s : StateStore) (i : Ingress) (host : String) (path : HttpIngressPath) {port : ℤ}
      {b : String}
      → is_ingress_protocol_http_based i ≡ true
      → resolve_path services sha256_hex i (tls_hosts_of i).0 host path ≡ ok (port, b)
      → Serves i port b s
      → Routes s i host path
  Routes_of s i host path {port} {b} http resolved served =
      let resolved' =
        subst (λ hosts. resolve_path services sha256_hex i hosts host path ≡ ok (port, b))
          (tls_hosts_of-HttpBased i http) resolved in
      (
        _,
        route_path-resolve_path i (tls_configured_hosts i.tls []) host path resolved',
        served.protocol,
        served.listener,
        served.reached,
      )

  -- After a `BuildState` that succeeds, the routing policy controller computes, for every path with
  -- a service of every Ingress of the class whose protocol is HTTP, HTTP2 or GRPC, a listener that
  -- the store has with the protocol of this Ingress, and a backend set of this listener.
  pub build_state-Routes :
      (cookies : CookieJson) (policies : PolicyJson) (class : IngressClass)
      (ingresses : List Ingress) (s s' : StateStore)
      → build_state services sha256_hex cookies policies class (ok ingresses) s ≡ (s', none)
      → All
          (λ i.
            is_ingress_protocol_http_based i ≡ true
            → All
                (λ rule.
                  (paths : List HttpIngressPath)
                  → rule.http ≡ some paths
                  → All
                      (λ path. has_service_backend path ≡ true → Routes s' i rule.host path)
                      paths)
                i.rules)
          (ingress_group class (is_default_class class) ingresses)
  build_state-Routes cookies policies class ingresses s s' h =
      All-map _ _ (ingress_group class (is_default_class class) ingresses)
        (λ i served http.
          All-map _ _ i.rules
            (λ rule c paths is_http.
              All-map _ _ paths
                (λ path c' is_service.
                  let (port, b, resolved, at) = c' is_service in
                  Routes_of s' i rule.host path http resolved at)
                (c paths is_http))
            served)
        (build_state-ServesIngress services sha256_hex cookies policies class ingresses s s' h)
