-- ===== src/Backend.antt =====
-- The backends of the backend sets, and the readiness of pods
-- (pkg/controllers/backend/backend.go, and what it calls of pkg/util/util.go).
pub mod Readiness
pub mod Default
use oci_native_ingress_contr.Common.{
  String, ◌<>◌, ℤ, pos, int_eq, ℕ, Bool, true, false, not, ◌&&◌, ◌||◌, Option, none, some, List, [],
  ◌∷◌, ◌++◌, ◌==◌, string_eq, select, map, if◌then◌else◌,
}
use oci_native_ingress_contr.Exception.{Result, ok, err, plain, wrap, ◌>>=◌, ◌>>◌, guard}
use oci_native_ingress_contr.Kube.{
  Ingress, IngressBackend, IngressServiceBackend, HttpIngressPath, Service, ServicePort,
  ServiceLister, TargetPort, number, named, Digest,
}
use oci_native_ingress_contr.LoadBalancer.Types.{BackendDetails}
use oci_native_ingress_contr.Util.Names.{generate_backend_set_name}
use oci_native_ingress_contr.Util.Port.{is_backend_service_equal}

-- The parts of `Endpoints` that are read. `target_pod` is the name in a reference to a pod.
pub record EndpointAddress : Type 0 where
  pub ip : String
  pub target_pod : Option String

pub record EndpointPort : Type 0 where
  pub name : String
  pub port : ℤ

pub record EndpointSubset : Type 0 where
  pub addresses : List EndpointAddress
  pub not_ready_addresses : List EndpointAddress
  pub ports : List EndpointPort

-- The lister's answers for a namespace and a name.
abbrev pub EndpointsLister : Type 0
EndpointsLister = String → String → Result (List EndpointSubset)

abbrev has_pod : EndpointAddress → Bool
has_pod a = elim a.target_pod [ none ↦ false | some name ↦ true ]

-- The loops of `GetEndpoints`: ready and other addresses of pods.
unfoldable pub pod_addresses : List EndpointSubset → List EndpointAddress
pod_addresses [] = []
pod_addresses (s ∷ subsets) =
    select has_pod s.addresses ++ (select has_pod s.not_ready_addresses ++ pod_addresses subsets)

unfoldable pub endpoint_port : String → List EndpointPort → Option ℤ
endpoint_port name [] = none
endpoint_port name (p ∷ ports) =
    let rest = endpoint_port name ports in if name == p.name then some p.port else rest

-- The loops of `getNumericTargetPortFromPortName`: 0 where no endpoint has the port.
unfoldable pub numeric_target_port : String → List EndpointSubset → ℤ
unfolding endpoint_port
numeric_target_port name [] = pos 0
numeric_target_port name (s ∷ subsets) = elim (endpoint_port name s.ports) [
  | some port ↦ port
  | none ↦ numeric_target_port name subsets
]

-- The port that the loop of `GetTargetPortForService` stops at.
unfoldable pub service_port_for : ℤ → String → List ServicePort → Option ServicePort
service_port_for port name [] = none
service_port_for port name (p ∷ ports) =
    let rest = service_port_for port name ports in
    if (not (p.port == pos 0) && p.port == port) || p.name == name then some p else rest

-- `NewBackend`
unfoldable pub new_backend : String → ℤ → BackendDetails
new_backend ip port = record {
  ip_address = ip;
  port = port;
  weight = some (pos 1);
  drain = some false;
  backup = some false;
  offline = some false;
  max_connections = none;
}

module _ (endpoints : EndpointsLister) where
  -- `GetEndpoints`
  unfoldable pub get_endpoints : String → String → Result (List EndpointAddress)
  unfolding pod_addresses
  get_endpoints namespace service = do
    subsets ← endpoints namespace service
    ok (pod_addresses subsets)

  -- The ports of a service's port: its own, and the one of the nodes or the pods.
  unfoldable pub target_port_of : String → String → Bool → ServicePort → Result (ℤ × ℤ)
  unfolding numeric_target_port
  target_port_of namespace service node_port_required p =
      if not node_port_required
      then elim p.target_port [
        | number port ↦ ok (p.port, port)
        | named text ↦ do
          subsets ← endpoints namespace service
          ok (p.port, numeric_target_port p.name subsets)
      ]
      else if p.node_port == pos 0
      then err (plain ("service " <> (namespace <> ("/" <> (service <> " has no nodeports")))))
      else ok (p.port, p.node_port)

  -- `GetTargetPortForService`
  unfoldable pub get_target_port_for_service :
      Service → String → String → ℤ → String → Bool → Result (ℤ × ℤ)
  unfolding service_port_for target_port_of
  get_target_port_for_service svc namespace service port name node_port_required =
      elim (service_port_for port name svc.ports) [
        | none ↦
            err (plain ("service " <> (namespace <> ("/" <> (service <> " does not have port")))))
        | some p ↦ target_port_of namespace service node_port_required p
      ]

module _ (endpoints : EndpointsLister) (services : ServiceLister) where
  -- The backends of a service: the addresses of its pods with the target port.
  unfoldable pub service_backends :
      String → IngressServiceBackend → Result ((String × ℤ) × List BackendDetails)
  unfolding get_target_port_for_service get_endpoints new_backend
  service_backends namespace b = do
    svc ← services namespace b.name
    (port, target) ←
        get_target_port_for_service endpoints svc namespace b.name b.port.number b.port.name false
    addresses ← wrap "unable to fetch endpoints" (get_endpoints endpoints namespace b.name)
    ok ((b.name, port), map (λ a. new_backend a.ip target) addresses)

  -- The backend set of a path and its backends, as `ensureBackendsForIngress` sends them.
  unfoldable pub path_backends :
      Digest → Ingress → IngressServiceBackend → Result (String × List BackendDetails)
  unfolding service_backends generate_backend_set_name
  path_backends sha256_hex i b = do
    (port, backends) ← service_backends i.namespace b
    ok (generate_backend_set_name sha256_hex i.namespace port.0 port.1, backends)

-- The loop of `getDefaultBackends`: the last default backend and its namespace.
unfoldable pub default_backend_of :
    List Ingress → Option (IngressBackend × String) → Result (Option (IngressBackend × String))
unfolding is_backend_service_equal
default_backend_of [] found = ok found
default_backend_of (i ∷ is) found = elim i.default_backend [
  | none ↦ default_backend_of is found
  | some b ↦ elim found [
    | none ↦ default_backend_of is (some (b, i.namespace))
    | some (old, namespace) ↦
        if is_backend_service_equal old b
        then default_backend_of is (some (b, i.namespace))
        else err (plain "conflict in default backend resource, only one is permitted")
  ]
]

-- `getDefaultBackends`
unfoldable pub get_default_backends :
    EndpointsLister → ServiceLister → List Ingress → Result (List BackendDetails)
unfolding default_backend_of service_backends
get_default_backends endpoints services ingresses = do
  found ← default_backend_of ingresses none
  elim found [
    | none ↦ ok []
    | some (b, namespace) ↦ elim b.service [
      | none ↦ ok []
      | some s ↦ do (port, backends) ← service_backends endpoints services namespace s; ok backends
    ]
  ]
