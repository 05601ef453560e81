-- ===== src/NodeBackend/Ports.antt =====
-- What the controller sends (pkg/controllers/nodeBackend/nodeBackend.go).
use oci_native_ingress_contr.Common.{
  ◌≡◌, refl, ap, String, ◌<>◌, ℤ, pos, int_eq, string_eq, false, Option, none, some, List, [], ◌∷◌,
  ◌==◌, All, All-map, map, Bool-cases, inl, inr, subst, sym,
}
use oci_native_ingress_contr.Common.Map.{lookup}
use oci_native_ingress_contr.Exception.{Result, ok, err, plain, transient}
use oci_native_ingress_contr.Exception.Laws.{ok-injective, err_not_ok, >>=-eq-ok}
use oci_native_ingress_contr.Kube.{
  IngressBackend, IngressServiceBackend, ServicePort, Ingress, IngressClass, IngressRule,
  HttpIngressPath, Digest,
}
use oci_native_ingress_contr.LoadBalancer.Types.{
  BackendDetails, BackendSet, UpdateListenerDetails, UpdateBackendSetDetails,
}
use oci_native_ingress_contr.LoadBalancer.Program.{
  Change, Program, done, try_call, get_load_balancer,
}
use oci_native_ingress_contr.LoadBalancer.Every.{
  Every, if-Every, try_call-Every, try_done-Every, request-Every, attempt-Every,
}
use oci_native_ingress_contr.LoadBalancer.BackendSets.{
  update_backends, update_found, update_backend_set, backends_request, backend_set_ssl_from_current,
  health_checker_from_current, same_set, address,
}
use oci_native_ingress_contr.NodeBackend.{
  Node, Listers, node_path_backends, get_node_default_backends, filter_nodes, default_node_backends,
  first_port_backends, retrieve_pods, node_backends, get_backends_from_pods,
}
use oci_native_ingress_contr.Backend.{default_backend_of}
use oci_native_ingress_contr.Util.Names.{generate_backend_set_name, default_backend_set_name}
use oci_native_ingress_contr.Util.Class.{get_ingresses_for_class}
use oci_native_ingress_contr.NodeBackend.Ready.{
  HasPort, node_path_backends-HasPort, node_backends-HasPort,
}
use oci_native_ingress_contr.NodeBackend.Sync.{
  send_backends, update_path, update_paths, update_rule, update_all, update_rules, update_ingresses,
  sync_default_backend, ensure_backends,
}

abbrev pub Nonzero : BackendDetails → Type 0
Nonzero b = (b.port == pos 0) ≡ false

-- An update of a backend set whose backends have ports.
abbrev Sends : Change → Type 0
Sends (Change.update_backend_set id etag name details) = All Nonzero details.backends
Sends _ = ⊥

abbrev Nothing : String → UpdateListenerDetails → Type 0
Nothing name details = ⊥

-- Whatever a program is answered, it asks for nothing but such updates.
abbrev pub IsUpdating : {A : Type 0} → Program A → Type 0
IsUpdating m = Every Sends Nothing m

request_backends :
    (b : BackendSet) (backends : List BackendDetails) (d : UpdateBackendSetDetails)
    → backends_request b backends ≡ ok d
    → d.backends ≡ backends
unfolding backends_request
request_backends b backends d h =
    elim (backend_set_ssl_from_current b.ssl_configuration)
        as (λ r.
          elim r [
            | err e ↦ err e
            | ok ssl ↦ ok (record {
              policy = b.policy;
              health_checker = health_checker_from_current b.health_checker;
              ssl_configuration = ssl;
              backends = backends;
              session_persistence_configuration = b.session_persistence_configuration;
              lb_cookie_session_persistence_configuration =
                  b.lb_cookie_session_persistence_configuration;
            })
          ]
            ≡ ok d
          → d.backends ≡ backends) [
            | err e ↦ λ q. err_not_ok e q
            | ok ssl ↦ λ q. sym (ap (λ (x : UpdateBackendSetDetails). x.backends) (ok-injective q))
          ]
      h

update_backend_set-IsUpdating :
    (id etag name : String) (d : UpdateBackendSetDetails)
    → All Nonzero d.backends
    → IsUpdating (update_backend_set id etag name d)
unfolding update_backend_set
update_backend_set-IsUpdating id etag name d h =
    request-Every Sends Nothing (Change.update_backend_set id etag name d) _ h

update_found-IsUpdating :
    (id etag : String) (b : BackendSet) (backends : List BackendDetails)
    → All Nonzero backends
    → IsUpdating (update_found id etag b backends)
unfolding update_found
update_found-IsUpdating id etag b backends h =
    if-Every Sends Nothing
      (same_set (map (λ d. address d.ip_address d.port) backends)
        (map (λ a. address a.ip_address a.port) b.backends))
      (done (ok tt))
      (try_call (done (backends_request b backends)) err (update_backend_set id etag b.name)) tt
      (try_done-Every Sends Nothing (backends_request b backends) err
        (update_backend_set id etag b.name)
        (λ d q.
          update_backend_set-IsUpdating id etag b.name d
            (subst (All Nonzero) (sym (request_backends b backends d q)) h)))

found-IsUpdating :
    (id name etag : String) (backends : List BackendDetails) (found : Option BackendSet)
    → All Nonzero backends
    → IsUpdating {A = Unit {0}} (elim found [
      | none ↦ done (err (transient (plain ("backendset " <> (name <> " was not found")))))
      | some b ↦ update_found id etag b backends
    ])
found-IsUpdating id name etag backends none h = tt
found-IsUpdating id name etag backends (some b) h = update_found-IsUpdating id etag b backends h

update_backends-IsUpdating :
    (id name : String) (backends : List BackendDetails)
    → All Nonzero backends
    → IsUpdating (update_backends id name backends)
unfolding update_backends
update_backends-IsUpdating id name backends h =
    try_call-Every Sends Nothing (get_load_balancer id) err _ (λ x. tt)
      (λ found. found-IsUpdating id name found.1 backends (lookup name found.0.backend_sets) h)

HasPort-Nonzero :
    (q : ℤ) (backends : List BackendDetails)
    → (q == pos 0) ≡ false
    → All (HasPort q) backends
    → All Nonzero backends
HasPort-Nonzero q backends positive h =
    All-map (HasPort q) Nonzero backends
      (λ b same. subst (λ p. (p == pos 0) ≡ false) (sym same) positive) h

first_port-Nonzero :
    (l : Listers) (namespace service : String) (ports : List ServicePort)
    (backends : List BackendDetails)
    → first_port_backends l namespace service ports ≡ ok backends
    → All Nonzero backends
unfolding first_port_backends get_backends_from_pods
first_port-Nonzero l namespace service [] backends h =
    err_not_ok (plain "panic: index out of range") h
first_port-Nonzero l namespace service (p ∷ ports) backends h =
    elim (Bool-cases (p.node_port == pos 0)) [
      | inl zero ↦ err_not_ok (plain "Node port not found for service") (rw zero at h)
      | inr positive ↦
          let (names, found, rest) =
            >>=-eq-ok (retrieve_pods l namespace service) (node_backends l p.node_port)
              (rw positive at h) in
          HasPort-Nonzero p.node_port backends positive
            (node_backends-HasPort l p.node_port names backends rest)
    ]

default_node_backends-Nonzero :
    (l : Listers) (namespace : String) (s : Option IngressServiceBackend)
    (backends : List BackendDetails)
    → default_node_backends l namespace s ≡ ok backends
    → All Nonzero backends
unfolding default_node_backends
default_node_backends-Nonzero l namespace none backends h = subst (All Nonzero) (ok-injective h) tt
default_node_backends-Nonzero l namespace (some s) backends h =
    let (svc, found, rest) = >>=-eq-ok (l.services namespace s.name) _ h in
    first_port-Nonzero l namespace s.name svc.ports backends rest

found_default-Nonzero :
    (l : Listers) (found : Option (IngressBackend × String)) (backends : List BackendDetails)
    → elim found [
      | none ↦ ok []
      | some (b, namespace) ↦ default_node_backends l namespace b.service
    ]
      ≡ ok backends
    → All Nonzero backends
found_default-Nonzero l none backends h = subst (All Nonzero) (ok-injective h) tt
found_default-Nonzero l (some (b, namespace)) backends h =
    default_node_backends-Nonzero l namespace b.service backends h

get_node_default_backends-Nonzero :
    (l : Listers) (is : List Ingress) (backends : List BackendDetails)
    → get_node_default_backends l is ≡ ok backends
    → All Nonzero backends
unfolding get_node_default_backends
get_node_default_backends-Nonzero l is backends h =
    let (found, q, rest) = >>=-eq-ok (default_backend_of is none) _ h in
    found_default-Nonzero l found backends rest

module _ (sha256_hex : Digest) (l : Listers) (lb_id : String) where
  send_backends-IsUpdating :
      (i : Ingress) (service : String) (port : ℤ) (backends : List BackendDetails)
      → All Nonzero backends
      → IsUpdating (send_backends sha256_hex l lb_id i service (some (port, backends)))
  unfolding send_backends
  send_backends-IsUpdating i service port backends h =
      let name = generate_backend_set_name sha256_hex i.namespace service port in
      try_call-Every Sends Nothing (update_backends lb_id name backends) _ (λ u. done (ok tt))
        (update_backends-IsUpdating lb_id name backends h) (λ u. tt)

  any_path-IsUpdating :
      (nodes : List Node) (i : Ingress) (s : IngressServiceBackend)
      (found : Option (ℤ × List BackendDetails))
      → node_path_backends l nodes i.namespace s ≡ ok found
      → IsUpdating (send_backends sha256_hex l lb_id i s.name found)
  unfolding send_backends
  any_path-IsUpdating nodes i s none h = tt
  any_path-IsUpdating nodes i s (some (port, backends)) h =
      let (q, positive, all) = node_path_backends-HasPort l nodes i.namespace s port backends h in
      send_backends-IsUpdating i s.name port backends (HasPort-Nonzero q backends positive all)

  update_path-IsUpdating :
      (nodes : List Node) (i : Ingress) (s : Option IngressServiceBackend)
      → IsUpdating (update_path sha256_hex l lb_id nodes i s)
  unfolding update_path
  update_path-IsUpdating nodes i none = tt
  update_path-IsUpdating nodes i (some s) =
      try_done-Every Sends Nothing (node_path_backends l nodes i.namespace s) err _
        (any_path-IsUpdating nodes i s)

  update_paths-IsUpdating :
      (nodes : List Node) (i : Ingress) (paths : List HttpIngressPath)
      → IsUpdating (update_paths sha256_hex l lb_id nodes i paths)
  unfolding update_paths
  update_paths-IsUpdating nodes i [] = tt
  update_paths-IsUpdating nodes i (p ∷ paths) =
      try_call-Every Sends Nothing (update_path sha256_hex l lb_id nodes i p.backend.service) err _
        (update_path-IsUpdating nodes i p.backend.service)
        (λ u. update_paths-IsUpdating nodes i paths)

  update_rule-IsUpdating :
      (nodes : List Node) (i : Ingress) (paths : Option (List HttpIngressPath))
      → IsUpdating (update_rule sha256_hex l lb_id nodes i paths)
  unfolding update_rule
  update_rule-IsUpdating nodes i none = tt
  update_rule-IsUpdating nodes i (some paths) = update_paths-IsUpdating nodes i paths

  update_rules-IsUpdating :
      (nodes : List Node) (i : Ingress) (rules : List IngressRule)
      → IsUpdating (update_rules sha256_hex l lb_id nodes i rules)
  unfolding update_rules
  update_rules-IsUpdating nodes i [] = tt
  update_rules-IsUpdating nodes i (r ∷ rules) =
      try_call-Every Sends Nothing (update_rule sha256_hex l lb_id nodes i r.http) err _
        (update_rule-IsUpdating nodes i r.http) (λ u. update_rules-IsUpdating nodes i rules)

  update_ingresses-IsUpdating :
      (nodes : List Node) (is : List Ingress)
      → IsUpdating (update_ingresses sha256_hex l lb_id nodes is)
  unfolding update_ingresses
  update_ingresses-IsUpdating nodes [] = tt
  update_ingresses-IsUpdating nodes (i ∷ is) =
      try_call-Every Sends Nothing (update_rules sha256_hex l lb_id nodes i i.rules) _ _
        (update_rules-IsUpdating nodes i i.rules) (λ u. update_ingresses-IsUpdating nodes is)

  sync_default_backend-IsUpdating :
      (r : Result (List BackendDetails))
      → ((backends : List BackendDetails) → r ≡ ok backends → All Nonzero backends)
      → IsUpdating (sync_default_backend sha256_hex l lb_id r)
  unfolding sync_default_backend
  sync_default_backend-IsUpdating (err e) h = tt
  sync_default_backend-IsUpdating (ok backends) h =
      update_backends-IsUpdating lb_id default_backend_set_name backends (h backends refl)

  update_all-IsUpdating :
      (nodes : List Node) (is : List Ingress) → IsUpdating (update_all sha256_hex l lb_id nodes is)
  unfolding update_all
  update_all-IsUpdating [] is = tt
  update_all-IsUpdating (n ∷ ns) is =
      try_call-Every Sends Nothing (update_ingresses sha256_hex l lb_id (n ∷ ns) is) err _
        (update_ingresses-IsUpdating (n ∷ ns) is)
        (λ u.
          attempt-Every Sends Nothing
            (sync_default_backend sha256_hex l lb_id (get_node_default_backends l is)) _
            (sync_default_backend-IsUpdating (get_node_default_backends l is)
              (get_node_default_backends-Nonzero l is))
            (λ r. tt))

  -- Whatever OCI and the listers answer, the controller asks for nothing but updates of backend sets,
  -- and no backend that it sends has the port 0.
  pub ensure_backends-IsUpdating :
      (listed : Result (List Ingress)) (nodes : Result (List Node)) (ic : IngressClass)
      → IsUpdating (ensure_backends sha256_hex l lb_id listed nodes ic)
  unfolding ensure_backends
  ensure_backends-IsUpdating listed nodes ic =
      try_done-Every Sends Nothing (get_ingresses_for_class listed ic) err _ (λ is q.
        try_done-Every Sends Nothing (filter_nodes nodes) err _
          (λ ready p. update_all-IsUpdating ready is))
