-- ===== src/RoutingPolicy.antt =====
-- The routing rules of the listeners (pkg/controllers/routingpolicy/util.go and routingpolicy.go).
pub mod Order
pub mod Sorted
pub mod Served
pub mod Sync
pub mod Stale
use oci_native_ingress_contr.Common.{
  String, ◌<>◌, ℤ, Bool, true, false, not, ◌&&◌, ◌||◌, Option, none, some, List, [], ◌∷◌, ◌++◌,
  ◌==◌, string_eq, or_else, is_some, select, if◌then◌else◌,
}
use oci_native_ingress_contr.Common.Map.{Map, lookup, insert}
use oci_native_ingress_contr.Common.Set
use oci_native_ingress_contr.Common.Set.{Set}
use oci_native_ingress_contr.Common.Sort.{sort_slice}
use oci_native_ingress_contr.Common.Text.{has_prefix, drop_first, equal_fold}
use oci_native_ingress_contr.Common.Text.Order.{str_lt}
use oci_native_ingress_contr.Common.Text.Decimal.{itoa}
use oci_native_ingress_contr.Exception.{Result, ok, wrap, ◌>>=◌}
use oci_native_ingress_contr.Kube.{
  Ingress, IngressClass, IngressRule, IngressTls, HttpIngressPath, ServiceLister, Digest,
}
use oci_native_ingress_contr.Util.Names.{
  path_type_or_default, path_type_exact, has_service_backend, path_to_route_policy_name,
  generate_backend_set_name, generate_listener_name,
}
use oci_native_ingress_contr.Util.Annotation.{is_ingress_deleting, is_ingress_protocol_tcp}
use oci_native_ingress_contr.Util.Port.{path_to_service_and_port, determine_listener_port}

-- `listenerPath`. A nil pointer to one is `none`.
pub record ListenerPath : Type 0 where
  pub ingress_name : String
  pub listener_port : ℤ
  pub host : String
  pub backend_set_name : String
  pub path : Option HttpIngressPath

-- `ByPath.Less` where neither pointer is nil.
unfoldable pub route_less : ListenerPath → HttpIngressPath → ListenerPath → HttpIngressPath → Bool
unfolding path_type_or_default equal_fold str_lt
route_less a p b q =
    if p.path == q.path
    then if path_type_or_default p == path_type_or_default q
      then if equal_fold a.host b.host
        then if a.backend_set_name == b.backend_set_name
          then str_lt b.ingress_name a.ingress_name
          else str_lt b.backend_set_name a.backend_set_name
        else str_lt b.host a.host
      else str_lt (path_type_or_default p) (path_type_or_default q)
    else str_lt q.path p.path

-- `ByPath.Less`
unfoldable pub by_path_less : Option ListenerPath → Option ListenerPath → Bool
unfolding route_less
by_path_less none b = is_some b
by_path_less (some a) none = false
by_path_less (some a) (some b) = elim a.path [
  | none ↦ is_some b.path
  | some p ↦ elim b.path [ none ↦ false | some q ↦ route_less a p b q ]
]

abbrev host_condition : ℤ → String → String
host_condition port host =
    if has_prefix "*." host
    then "any(http.request.headers[(i 'Host')][0] ew '"
      <> (drop_first host
          <> ("', http.request.headers[(i 'Host')][0] ew '"
              <> (drop_first host <> (":" <> (itoa port <> "')")))))
    else "any(http.request.headers[(i 'Host')] eq '"
      <> (host
          <> ("', http.request.headers[(i 'Host')] eq '" <> (host <> (":" <> (itoa port <> "')")))))

abbrev path_condition : HttpIngressPath → String
path_condition p =
    if path_type_or_default p == path_type_exact
    then "http.request.url.path eq '" <> (p.path <> "'")
    else "http.request.url.path sw '" <> (p.path <> "'")

-- `PathToRoutePolicyCondition`
unfoldable pub path_to_route_policy_condition : ℤ → String → HttpIngressPath → String
unfolding has_prefix path_type_or_default
path_to_route_policy_condition port host p =
    if not (host == "")
    then "all(" <> (host_condition port host <> (" , " <> (path_condition p <> ")")))
    else path_condition p

-- The part of `RoutingRule` that is set. Its one action forwards to the backend set.
pub record RoutingRule : Type 0 where
  pub name : String
  pub condition : String
  pub backend_set_name : String

-- `filterIngressesForRoutingPolicy`
unfoldable pub filter_ingresses_for_routing_policy :
    IngressClass → Bool → List Ingress → List Ingress
unfolding is_ingress_deleting is_ingress_protocol_tcp
filter_ingresses_for_routing_policy class is_default ingresses =
    select
      (λ i.
        not (is_ingress_deleting i || is_ingress_protocol_tcp i)
        && elim i.ingress_class_name [ none ↦ is_default | some name ↦ name == class.name ])
      ingresses

unfoldable pub insert_hosts : List String → Set String → Set String
insert_hosts [] s = s
insert_hosts (host ∷ hosts) s = insert_hosts hosts (Set.insert host s)

-- `tlsConfiguredHosts` in `processRoutingPolicy`, for every protocol.
unfoldable pub tls_configured_hosts : List IngressTls → Set String → Set String
unfolding insert_hosts
tls_configured_hosts [] s = s
tls_configured_hosts (t ∷ ts) s = tls_configured_hosts ts (insert_hosts t.hosts s)

-- `listenerPaths` and `desiredRoutingPolicies`
pub record Routes : Type 0 where
  pub listener_paths : Map String (List (Option ListenerPath))
  pub desired : Set String

unfoldable pub add_route : ListenerPath → Routes → Routes
unfolding generate_listener_name
add_route r routes =
    let name = generate_listener_name r.listener_port in
    record {
      listener_paths =
          insert name (or_else (lookup name routes.listener_paths) [] ++ (some r ∷ []))
            routes.listener_paths;
      desired = Set.insert name routes.desired;
    }

module _ (services : ServiceLister) (sha256_hex : Digest) where
  -- The `listenerPath` of one path with a service.
  unfoldable pub route_path : Ingress → Set String → String → HttpIngressPath → Result ListenerPath
  unfolding path_to_service_and_port determine_listener_port generate_backend_set_name
  route_path i tls_hosts host path = do
    (service_name, service_port) ←
        wrap ("for ingress " <> (i.namespace <> ("/" <> (i.name <> ", encountered error"))))
          (path_to_service_and_port services i.namespace path)
    port ← wrap ("for ingress " <> (i.namespace <> ("/" <> (i.name <> ", encountered error")))) (
        wrap "error determining listener port"
          (determine_listener_port i tls_hosts host service_port))
    ok (record {
      ingress_name = i.name;
      listener_port = port;
      host = host;
      backend_set_name = generate_backend_set_name sha256_hex i.namespace service_name service_port;
      path = some path;
    })

  unfoldable pub route_paths :
      Ingress → Set String → String → List HttpIngressPath → Routes → Result Routes
  unfolding route_path add_route has_service_backend
  route_paths i hosts host [] routes = ok routes
  route_paths i hosts host (path ∷ paths) routes = elim (has_service_backend path) [
    | false ↦ route_paths i hosts host paths routes
    | true ↦ do
      r ← route_path i hosts host path
      route_paths i hosts host paths (add_route r routes)
  ]

  unfoldable pub route_rules : Ingress → Set String → List IngressRule → Routes → Result Routes
  unfolding route_paths
  route_rules i hosts [] routes = ok routes
  route_rules i hosts (rule ∷ rules) routes = elim rule.http [
    | none ↦ route_rules i hosts rules routes
    | some paths ↦ do
      routes' ← route_paths i hosts rule.host paths routes
      route_rules i hosts rules routes'
  ]

  -- `processRoutingPolicy`
  unfoldable pub process_routing_policy : List Ingress → Routes → Result Routes
  unfolding route_rules tls_configured_hosts
  process_routing_policy [] routes = ok routes
  process_routing_policy (i ∷ is) routes = do
    routes' ← route_rules i (tls_configured_hosts i.tls []) i.rules routes
    process_routing_policy is routes'

-- The rule of one path, none for a nil pointer.
unfoldable pub rule_of : Digest → Option ListenerPath → List RoutingRule
unfolding path_to_route_policy_name path_to_route_policy_condition
rule_of sha256_hex none = []
rule_of sha256_hex (some r) = elim r.path [
  | none ↦ []
  | some p ↦
      record {
        name = path_to_route_policy_name sha256_hex r.ingress_name r.host p;
        condition = path_to_route_policy_condition r.listener_port r.host p;
        backend_set_name = r.backend_set_name;
      }
      ∷ []
]

unfoldable pub rules_of : Digest → List (Option ListenerPath) → List RoutingRule
unfolding rule_of
rules_of sha256_hex [] = []
rules_of sha256_hex (r ∷ rs) = rule_of sha256_hex r ++ rules_of sha256_hex rs

-- `buildRoutingRules`
unfoldable pub build_routing_rules : Digest → List (Option ListenerPath) → List RoutingRule
unfolding rules_of by_path_less sort_slice
build_routing_rules sha256_hex paths = rules_of sha256_hex (sort_slice by_path_less paths)
