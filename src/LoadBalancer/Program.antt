-- ===== src/LoadBalancer/Program.antt =====
-- The methods of the client as programs over the calls that they make
-- (pkg/loadbalancer/loadbalancer.go). A call that fails may be looked at; in a do block an error is
-- returned.
use oci_native_ingress_contr.Common.{ℕ, String, Option, List}
use oci_native_ingress_contr.Exception.{Error, Result, ok, err}
use oci_native_ingress_contr.RoutingPolicy.{RoutingRule}
use oci_native_ingress_contr.LoadBalancer.Types.{
  LoadBalancer, UpdateLoadBalancerDetails, UpdateBackendSetDetails, CreateBackendSetDetails,
  UpdateListenerDetails, CreateListenerDetails,
}

-- The requests that change a load balancer and answer with a work request. An update takes the etag
-- that it must match before its details.
pub data Change : Type 0 where
  update_network_security_groups : String → String → List String → Change
  update_load_balancer_shape : String → String → ℕ × ℕ → Change
  update_load_balancer : String → String → UpdateLoadBalancerDetails → Change
  create_load_balancer : String → Change
  delete_load_balancer : String → Change
  create_routing_policy : String → String → List RoutingRule → Change
  update_routing_policy : String → String → String → List RoutingRule → Change
  delete_routing_policy : String → String → Change
  create_backend_set : String → CreateBackendSetDetails → Change
  update_backend_set : String → String → String → UpdateBackendSetDetails → Change
  delete_backend_set : String → String → Change
  create_listener : String → CreateListenerDetails → Change
  delete_listener : String → String → Change

-- What a method does: it returns, or it does one of these and goes on with the answer.
pub data Program (A : Type 0) : Type 0 where
  done : Result A → Program A
  -- `GetLoadBalancer`, and `getLoadBalancerBustCache`
  looks : String → (Result (LoadBalancer × String) → Program A) → Program A
  refreshes : String → (Result (LoadBalancer × String) → Program A) → Program A
  -- `waitForWorkRequest`
  waits : String → (Result String → Program A) → Program A
  changes : Change → (Result String → Program A) → Program A
  -- `LbClient.UpdateListener`, whose answer may lack a work request
  updates_listener :
      String
      → String
      → String
      → UpdateListenerDetails
      → (Result (Option String) → Program A)
      → Program A
  asks_health : String → String → (Result String → Program A) → Program A
  -- `removeFromCache`
  forgets : String → Program A → Program A

module _ {A B : Type 0} where
  -- A call, and what follows for what it returns.
  unfoldable pub attempt : Program A → (Result A → Program B) → Program B
  attempt (done r) k = k r
  attempt (looks id m) k = looks id (λ x. attempt (m x) k)
  attempt (refreshes id m) k = refreshes id (λ x. attempt (m x) k)
  attempt (waits id m) k = waits id (λ x. attempt (m x) k)
  attempt (changes request m) k = changes request (λ x. attempt (m x) k)
  attempt (updates_listener id etag name details m) k =
      updates_listener id etag name details (λ x. attempt (m x) k)
  attempt (asks_health id name m) k = asks_health id name (λ x. attempt (m x) k)
  attempt (forgets id m) k = forgets id (attempt m k)

  -- A call whose failure is looked at: `failure` says what is returned, `rest` goes on.
  unfoldable pub try_call : Program A → (Error → Result B) → (A → Program B) → Program B
  unfolding attempt
  try_call call failure rest =
      attempt call (λ r. elim r [ err e ↦ done (failure e) | ok a ↦ rest a ])

  infixl 5 ◌>>=◌
  -- `if err != nil { return err }`
  abbrev pub ◌>>=◌ : Program A → (A → Program B) → Program B
  call >>= rest = try_call call err rest

infixl 5 ◌>>◌
abbrev pub ◌>>◌ : {B : Type 0} → Program (Unit {0}) → Program B → Program B
first >> second = first >>= (λ _. second)

abbrev pub get_load_balancer : String → Program (LoadBalancer × String)
get_load_balancer id = looks id done

abbrev pub get_load_balancer_bust_cache : String → Program (LoadBalancer × String)
get_load_balancer_bust_cache id = refreshes id done

abbrev pub wait_for_work_request : String → Program String
wait_for_work_request request = waits request done

abbrev pub send : Change → Program String
send request = changes request done

-- `_, err = lbc.waitForWorkRequest(...); return err`
abbrev pub wait : String → Program (Unit {0})
wait request = do lb_id ← wait_for_work_request request; done (ok tt)
