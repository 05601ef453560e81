-- ===== src/LoadBalancer/Policies.antt =====
-- The routing policies of a load balancer (pkg/loadbalancer/loadbalancer.go).
use oci_native_ingress_contr.Common.{
  String, ◌<>◌, Bool, true, false, not, ◌&&◌, ◌||◌, Option, none, some, List, [], ◌∷◌, ◌==◌,
  string_eq, option_string_eq, is_some, or_else, if◌then◌else◌,
}
use oci_native_ingress_contr.Common.Map.{Map, lookup}
use oci_native_ingress_contr.Common.Text.{contains}
use oci_native_ingress_contr.Exception.{Error, ok, err, plain, transient, message, is_service_error}
use oci_native_ingress_contr.RoutingPolicy.{RoutingRule}
use oci_native_ingress_contr.LoadBalancer.Types.{Listener, rule_eq}
use oci_native_ingress_contr.LoadBalancer.Program.{
  Change, Program, done, try_call, ◌>>=◌, ◌>>◌, send, wait, get_load_balancer,
}
use oci_native_ingress_contr.LoadBalancer.Lifecycle.{etag_mismatch}
use oci_native_ingress_contr.LoadBalancer.Listeners.{update_listener}

-- The answer 400 that names a rule whose backend set does not exist yet is transient.
unfoldable pub missing_backend_set : Error → Error
unfolding contains message is_service_error
missing_backend_set e =
    if is_service_error e 400
      && (contains (message e) "contains a rule referencing BackendSet"
          && contains (message e) "which does not exist in load balancer")
    then transient e
    else e

-- The loop of `updateRoutingPolicyRules` over two lists, which differ if their lengths do.
unfoldable pub rules_differ : List RoutingRule → List RoutingRule → Bool
rules_differ [] [] = false
rules_differ [] (r ∷ rs) = true
rules_differ (a ∷ actual) [] = true
rules_differ (a ∷ actual) (r ∷ rs) = not (a == r) || rules_differ actual rs

-- The listener that `setRoutingPolicyOnListener` looks for among the values of the map.
unfoldable pub listener_named : String → Map String Listener → Option Listener
listener_named name [] = none
listener_named name ((k, l) ∷ ls) =
    let rest = listener_named name ls in if l.name == some name then some l else rest

-- `createRoutingPolicy`
unfoldable pub create_routing_policy : String → String → List RoutingRule → Program (Unit {0})
unfolding is_service_error missing_backend_set
create_routing_policy lb_id name rules = do
  (lb, etag) ← get_load_balancer lb_id
  if is_some (lookup name lb.routing_policies)
      then done (ok tt)
      else try_call (send (Change.create_routing_policy lb.id name rules))
          (λ e. if is_service_error e 409 then ok tt else err (missing_backend_set e)) wait

-- `DeleteRoutingPolicy`
unfoldable pub delete_routing_policy : String → String → Program (Unit {0})
unfolding is_service_error
delete_routing_policy lb_id name =
    try_call (send (Change.delete_routing_policy lb_id name))
      (λ e. if is_service_error e 404 then ok tt else err e) wait

-- `updateRoutingPolicyRules`; the error 412 is looked for first.
unfoldable pub update_routing_policy_rules : String → String → List RoutingRule → Program (Unit {0})
unfolding etag_mismatch missing_backend_set rules_differ
update_routing_policy_rules lb_id name rules = do
  (lb, etag) ← get_load_balancer lb_id
  if rules_differ (or_else (lookup name lb.routing_policies) []) rules
      then try_call (send (Change.update_routing_policy lb.id etag name rules))
          (λ e.
            err
              (etag_mismatch ("unable to update routing policy " <> name) (missing_backend_set e)))
          wait
      else done (ok tt)

-- `setRoutingPolicyOnListener`
unfoldable pub set_routing_policy_on_listener : String → String → Program (Unit {0})
unfolding listener_named update_listener
set_routing_policy_on_listener lb_id name = do
  (lb, etag) ← get_load_balancer lb_id
  elim (listener_named name lb.listeners) [
    | none ↦ done (err (transient (plain ("listener " <> (name <> " not found")))))
    | some l ↦
        if l.routing_policy_name == some name
        then done (ok tt)
        else update_listener lb.id etag l (some name) none none l.protocol none true
  ]

-- `EnsureRoutingPolicy`
unfoldable pub ensure_routing_policy : String → String → List RoutingRule → Program (Unit {0})
unfolding create_routing_policy set_routing_policy_on_listener update_routing_policy_rules
ensure_routing_policy lb_id name rules = do
  (lb, etag) ← get_load_balancer lb_id
  if is_some (lookup name lb.routing_policies)
      then done (ok tt)
      else create_routing_policy lb_id name rules
  set_routing_policy_on_listener lb_id name
  update_routing_policy_rules lb_id name rules
