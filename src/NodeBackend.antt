-- ===== src/NodeBackend.antt =====
-- The backends of services with node ports (pkg/controllers/nodeBackend/nodeBackend.go).
pub mod Sync
pub mod Ready
pub mod Ports
use oci_native_ingress_contr.Common.{
  String, ◌<>◌, ℤ, pos, int_eq, Bool, true, false, not, ◌&&◌, ◌||◌, Option, none, some, List, [],
  ◌∷◌, ◌++◌, ◌==◌, string_eq, select, map, or_else, if◌then◌else◌,
}
use oci_native_ingress_contr.Common.Set.{has}
use oci_native_ingress_contr.Exception.{Error, Result, ok, err, plain, wrap, ◌>>=◌}
use oci_native_ingress_contr.Kube.{
  Ingress, IngressClass, IngressBackend, IngressRule, IngressServiceBackend, HttpIngressPath,
  Service, ServicePort, ServiceLister, Digest,
}
use oci_native_ingress_contr.LoadBalancer.Types.{BackendDetails}
use oci_native_ingress_contr.Util.Names.{generate_backend_set_name, default_backend_set_name}
use oci_native_ingress_contr.Util.Class.{get_ingresses_for_class}
use oci_native_ingress_contr.Backend.{
  EndpointAddress, EndpointsLister, get_endpoints, get_target_port_for_service, new_backend,
  default_backend_of,
}

-- The parts of a node that are read: the keys of its taints, and the types of its conditions and
-- addresses with their values.
pub record Node : Type 0 where
  pub taints : List String
  pub conditions : List (String × Bool)
  pub addresses : List (String × String)

abbrev pub to_be_deleted_taint : String
to_be_deleted_taint = "ToBeDeletedByClusterAutoscaler"

unfoldable pub no_failing_ready : List (String × Bool) → Bool
no_failing_ready [] = true
no_failing_ready ((type, status) ∷ conditions) =
    let rest = no_failing_ready conditions in if type == "Ready" && not status then false else rest

-- The predicate of `getNodeConditionPredicate`
unfoldable pub accepts : Node → Bool
unfolding no_failing_ready has
accepts n =
    if has to_be_deleted_taint n.taints
    then false
    else elim n.conditions [ [] ↦ false | c ∷ cs ↦ no_failing_ready (c ∷ cs) ]

-- `filterNodes`
unfoldable pub filter_nodes : Result (List Node) → Result (List Node)
unfolding accepts
filter_nodes (ok nodes) = ok (select accepts nodes)
filter_nodes (err e) = err e

unfoldable pub internal_address : List (String × String) → String
internal_address [] = ""
internal_address ((type, address) ∷ addresses) =
    let rest = internal_address addresses in if type == "InternalIP" then address else rest

-- `NodeInternalIP`
unfoldable pub node_internal_ip : Node → String
unfolding internal_address
node_internal_ip n = internal_address n.addresses

-- The listers' answers: the name of the node of a pod, the node of a name, and whether an error says
-- that there is none.
pub record Listers : Type 0 where
  pub endpoints : EndpointsLister
  pub services : ServiceLister
  pub pod_node : String → String → Result String
  pub node : String → Result Node
  pub is_not_found : Error → Bool

module _ (l : Listers) where
  -- The loop of `RetrievePods`
  unfoldable pub pod_nodes : String → List EndpointAddress → Result (List String)
  pod_nodes namespace [] = ok []
  pod_nodes namespace (a ∷ addresses) = do
    name ← wrap "failed to fetch pod" (l.pod_node namespace (or_else a.target_pod ""))
    rest ← pod_nodes namespace addresses
    ok (name ∷ rest)

  -- `RetrievePods`: the nodes of the pods.
  unfoldable pub retrieve_pods : String → String → Result (List String)
  unfolding get_endpoints pod_nodes
  retrieve_pods namespace service = do
    addresses ← wrap "unable to fetch endpoints" (get_endpoints l.endpoints namespace service)
    pod_nodes namespace addresses

  -- The loop of `getBackendsFromPods`; the pods of nodes that are gone are skipped.
  unfoldable pub node_backends : ℤ → List String → Result (List BackendDetails)
  unfolding node_internal_ip new_backend
  node_backends port [] = ok []
  node_backends port (name ∷ names) =
      let rest = node_backends port names in
      elim (l.node name) [
        | err e ↦ if l.is_not_found e then rest else err e
        | ok n ↦ do backends ← rest; ok (new_backend (node_internal_ip n) port ∷ backends)
      ]

  -- `getBackendsFromPods`
  unfoldable pub get_backends_from_pods : String → String → ℤ → Result (List BackendDetails)
  unfolding retrieve_pods node_backends
  get_backends_from_pods namespace service port = do
    names ← retrieve_pods namespace service
    node_backends port names

  -- All nodes for the traffic policy Cluster, the nodes of the pods otherwise.
  unfoldable pub backends_of :
      List Node → String → String → Service → ℤ → Result (List BackendDetails)
  unfolding get_backends_from_pods node_internal_ip new_backend
  backends_of nodes namespace service svc port =
      if svc.external_traffic_policy == "Cluster"
      then ok (map (λ n. new_backend (node_internal_ip n) port) nodes)
      else get_backends_from_pods namespace service port

  -- The port of a service and its backends: none where the path is skipped.
  unfoldable pub node_path_backends :
      List Node → String → IngressServiceBackend → Result (Option (ℤ × List BackendDetails))
  unfolding get_target_port_for_service backends_of
  node_path_backends nodes namespace b = do
    svc ← l.services namespace b.name
    (port, node_port) ←
        get_target_port_for_service l.endpoints svc namespace b.name b.port.number b.port.name true
    if node_port == pos 0 then ok none else do
      backends ← backends_of nodes namespace b.name svc node_port
      ok (some (port, backends))

  -- The first port of a service has to have a node port; without a port the code panics.
  unfoldable pub first_port_backends :
      String → String → List ServicePort → Result (List BackendDetails)
  unfolding get_backends_from_pods
  first_port_backends namespace service [] = err (plain "panic: index out of range")
  first_port_backends namespace service (p ∷ ports) =
      if p.node_port == pos 0
      then err (plain "Node port not found for service")
      else get_backends_from_pods namespace service p.node_port

  -- The end of `getDefaultBackends`
  unfoldable pub default_node_backends :
      String → Option IngressServiceBackend → Result (List BackendDetails)
  unfolding first_port_backends
  default_node_backends namespace none = ok []
  default_node_backends namespace (some s) = do
    svc ← l.services namespace s.name
    first_port_backends namespace s.name svc.ports

  -- `getDefaultBackends`
  unfoldable pub get_node_default_backends : List Ingress → Result (List BackendDetails)
  unfolding default_backend_of default_node_backends
  get_node_default_backends ingresses = do
    found ← default_backend_of ingresses none
    elim found [ none ↦ ok [] | some (b, namespace) ↦ default_node_backends namespace b.service ]
