-- ===== src/RoutingPolicy/Sync.antt =====
-- ensureRoutingRules (pkg/controllers/routingpolicy/routingpolicy.go). Go's maps and sets are
-- walked in any order; here it is the order of their entries.
use oci_native_ingress_contr.Common.{
  String, Bool, Option, none, some, List, [], ◌∷◌, is_some, if◌then◌else◌, string_eq,
}
use oci_native_ingress_contr.Common.Map.{Map, lookup, keys}
use oci_native_ingress_contr.Common.Set
use oci_native_ingress_contr.Common.Set.{Set}
use oci_native_ingress_contr.Exception.{Error, Result, ok, err, wrapped}
use oci_native_ingress_contr.Kube.{Ingress, IngressClass, ServiceLister, Digest}
use oci_native_ingress_contr.RoutingPolicy.{
  ListenerPath, Routes, build_routing_rules, process_routing_policy,
  filter_ingresses_for_routing_policy,
}
use oci_native_ingress_contr.LoadBalancer.Types.{LoadBalancer, Listener}
use oci_native_ingress_contr.LoadBalancer.Program.{
  Program, done, attempt, ◌>>=◌, ◌>>◌, get_load_balancer,
}
use oci_native_ingress_contr.LoadBalancer.Listeners.{update_listener_with_connection}
use oci_native_ingress_contr.LoadBalancer.Policies.{ensure_routing_policy, delete_routing_policy}

-- `ensureRoutingPolicyErr`: the first error stays.
abbrev pub first_error : Result (Unit {0}) → Option Error → Option Error
first_error (ok u) later = later
first_error (err e) later = some e

-- The last lines: an error of the loop over the listeners is wrapped.
abbrev pub report : Option Error → Result (Unit {0})
report none = ok tt
report (some e) = err (wrapped "error encountered syncing routing policies" e)

-- The policy comes off the listener of its name.
abbrev pub detach : LoadBalancer → String → Option Listener → Program (Unit {0})
detach lb etag none = done (ok tt)
detach lb etag (some l) =
    update_listener_with_connection lb.id etag l none none none l.protocol none

module _ (sha256_hex : Digest) (lb_id : String) where
  -- The loop over `listenerPaths`: a failure does not stop it.
  unfoldable pub ensure_listeners : Map String (List (Option ListenerPath)) → Program (Option Error)
  unfolding ensure_routing_policy build_routing_rules
  ensure_listeners [] = done (ok none)
  ensure_listeners ((name, paths) ∷ rest) =
      attempt (ensure_routing_policy lb_id name (build_routing_rules sha256_hex paths))
        (λ r. do later ← ensure_listeners rest; done (ok (first_error r later)))

-- One round of the loop over `routingPoliciesToDelete`.
unfoldable pub delete_stale : String → String → Program (Unit {0})
unfolding update_listener_with_connection delete_routing_policy
delete_stale lb_id name = do
  (lb, etag) ← get_load_balancer lb_id
  detach lb etag (lookup name lb.listeners)
  (lb', etag') ← get_load_balancer lb_id
  if is_some (lookup name lb'.routing_policies)
      then delete_routing_policy lb_id name
      else done (ok tt)

unfoldable pub delete_all_stale : String → List String → Program (Unit {0})
unfolding delete_stale
delete_all_stale lb_id [] = done (ok tt)
delete_all_stale lb_id (name ∷ names) = do delete_stale lb_id name; delete_all_stale lb_id names

module _ (sha256_hex : Digest) (lb_id : String) where
  -- The policies of the load balancer and of the Ingresses are brought in line.
  unfoldable pub sync_routes : Routes → Program (Unit {0})
  unfolding ensure_listeners delete_all_stale
  sync_routes routes = do
    failure ← ensure_listeners sha256_hex lb_id routes.listener_paths
    (lb, etag) ← get_load_balancer lb_id
    delete_all_stale lb_id
        (Set.difference (Set.from_list (keys lb.routing_policies)) routes.desired)
    done (report failure)

module _ (services : ServiceLister) (sha256_hex : Digest) (lb_id : String) where
  -- `ensureRoutingRules` on the lister's answer; the client of OCI is in the context.
  unfoldable pub ensure_routing_rules :
      IngressClass → Bool → Result (List Ingress) → Program (Unit {0})
  unfolding sync_routes process_routing_policy filter_ingresses_for_routing_policy
  ensure_routing_rules class is_default listed = do
    ingresses ← done listed
    routes ← done (
        process_routing_policy services sha256_hex
          (filter_ingresses_for_routing_policy class is_default ingresses)
          (record { listener_paths = []; desired = [] }))
    sync_routes sha256_hex lb_id routes
