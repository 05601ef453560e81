-- ===== src/LoadBalancer/Lifecycle.antt =====
-- The load balancer as a whole (pkg/loadbalancer/loadbalancer.go): its security groups, shape,
-- details, creation and deletion.
use oci_native_ingress_contr.Common.{
  ℕ, String, ◌<>◌, ◌||◌, Option, none, some, List, if◌then◌else◌, is_some,
}
use oci_native_ingress_contr.Common.Map.{Map}
use oci_native_ingress_contr.Exception.{Error, ok, err, plain, transient, is_service_error}
use oci_native_ingress_contr.LoadBalancer.Types.{LoadBalancer, DefinedTags}
use oci_native_ingress_contr.LoadBalancer.Program.{
  Change, Program, done, attempt, try_call, ◌>>=◌, send, get_load_balancer,
  get_load_balancer_bust_cache, wait_for_work_request, forgets, asks_health,
}

-- What becomes of the answer 412 to a request with an etag.
unfoldable pub etag_mismatch : String → Error → Error
unfolding is_service_error
etag_mismatch text e =
    if is_service_error e 412 then transient (plain (text <> " due to EtagMismatch")) else e

-- An empty value in place of a missing one, if the load balancer has attributes to clear.
unfoldable pub security_attributes_to_send : LoadBalancer → Option DefinedTags → Option DefinedTags
security_attributes_to_send lb none = if is_some lb.security_attributes then some List.[] else none
security_attributes_to_send lb (some attributes) = some attributes

-- A request with an etag.
abbrev pub with_etag : String → Change → Program String
with_etag text request =
    try_call (send request) (λ e. err (etag_mismatch text e)) (λ r. done (ok r))

-- The end of an update: the wait, then a fresh answer.
abbrev pub refresh_after : String → Program LoadBalancer
refresh_after request = do
  lb_id ← wait_for_work_request request
  answer ← get_load_balancer_bust_cache lb_id
  done (ok answer.0)

-- `GetBackendSetHealth`
unfoldable pub get_backend_set_health : String → String → Program String
get_backend_set_health lb_id name = asks_health lb_id name done

-- `UpdateNetworkSecurityGroups`, with the work request for a response.
unfoldable pub update_network_security_groups : String → List String → Program String
unfolding etag_mismatch
update_network_security_groups lb_id nsg_ids = do
  (lb, etag) ← get_load_balancer lb_id
  request ←
      with_etag ("unable to update NSG for LB " <> lb_id)
        (Change.update_network_security_groups lb_id etag nsg_ids)
  fresh ← refresh_after request
  done (ok request)

-- `UpdateLoadBalancerShape`; the caller's request holds an etag and the two bandwidths.
unfoldable pub update_load_balancer_shape : String → String → ℕ × ℕ → Program String
unfolding etag_mismatch
update_load_balancer_shape lb_id etag bandwidths = do
  request ←
      with_etag ("unable to update shape for LB " <> lb_id)
        (Change.update_load_balancer_shape lb_id etag bandwidths)
  fresh ← refresh_after request
  done (ok request)

-- `UpdateLoadBalancer`
unfoldable pub update_load_balancer :
    String → String → DefinedTags → Map String String → Option DefinedTags → Program LoadBalancer
unfolding etag_mismatch security_attributes_to_send
update_load_balancer lb_id display_name defined_tags freeform_tags security_attributes = do
  (lb, etag) ← get_load_balancer lb_id
  request ← with_etag ("unable to update LB " <> lb_id) (
      Change.update_load_balancer lb_id etag (record {
        display_name = display_name;
        defined_tags = defined_tags;
        freeform_tags = freeform_tags;
        security_attributes = security_attributes_to_send lb security_attributes;
      }))
  refresh_after request

-- `CreateLoadBalancer` for the request with a retry token.
unfoldable pub create_load_balancer : String → Program LoadBalancer
create_load_balancer token = do
  request ← send (Change.create_load_balancer token)
  refresh_after request

-- `DeleteLoadBalancer`: a load balancer that is being deleted, or is gone, counts as deleted.
unfoldable pub delete_load_balancer : String → Program (Unit {0})
unfolding is_service_error
delete_load_balancer lb_id = attempt (send (Change.delete_load_balancer lb_id)) (λ r. elim r [
  | err e ↦
      if is_service_error e 409 || is_service_error e 404
      then forgets lb_id (done (ok tt))
      else done (err e)
  | ok request ↦ forgets lb_id (done (ok tt))
])
