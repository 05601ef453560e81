-- ===== src/LoadBalancer/Guarded.antt =====
-- The methods of the client under the discipline of the etags (pkg/loadbalancer/loadbalancer.go).
use oci_native_ingress_contr.Common.{
  refl, String, ◌<>◌, Bool, Option, none, some, List, Option-cases, inl, inr, is_some, string_eq,
  if◌then◌else◌,
}
use oci_native_ingress_contr.Common.Map.{Map, lookup}
use oci_native_ingress_contr.Exception.{Result, ok, err}
use oci_native_ingress_contr.Exception.Laws.{Result-cases}
use oci_native_ingress_contr.RoutingPolicy.{RoutingRule}
use oci_native_ingress_contr.LoadBalancer.Types.{
  Listener, BackendDetails, SslConfigurationDetails, ConnectionConfiguration, DefinedTags,
  UpdateLoadBalancerDetails,
}
use oci_native_ingress_contr.LoadBalancer.Program.{
  Change, done, try_call, send, ◌>>=◌, wait_for_work_request, get_load_balancer_bust_cache,
}
use oci_native_ingress_contr.LoadBalancer.Policies.{
  create_routing_policy, update_routing_policy_rules, set_routing_policy_on_listener,
  ensure_routing_policy, listener_named,
}
use oci_native_ingress_contr.LoadBalancer.ListenerDetails.{ssl_to_send}
use oci_native_ingress_contr.LoadBalancer.Listeners.{
  update_listener, finish_listener, listener_failure,
}
use oci_native_ingress_contr.LoadBalancer.BackendSets.{
  update_backends, update_backend_set, backends_request,
}
use oci_native_ingress_contr.LoadBalancer.Lifecycle.{
  refresh_after, with_etag, etag_mismatch, security_attributes_to_send,
  update_network_security_groups, update_load_balancer,
}
use oci_native_ingress_contr.LoadBalancer.Etags.{
  Matches, if_match, IsGuarded, if-IsGuarded, done-IsGuarded, try_call-IsGuarded, request-IsGuarded,
}

create_routing_policy-IsGuarded :
    (last : Option String) (id name : String) (rules : List RoutingRule)
    → IsGuarded last (create_routing_policy id name rules)
unfolding create_routing_policy try_call
create_routing_policy-IsGuarded last id name rules (err e) = tt
create_routing_policy-IsGuarded last id name rules (ok (lb, etag)) =
    search (if-IsGuarded, done-IsGuarded, request-IsGuarded)

update_routing_policy_rules-IsGuarded :
    (last : Option String) (id name : String) (rules : List RoutingRule)
    → IsGuarded last (update_routing_policy_rules id name rules)
unfolding update_routing_policy_rules try_call
update_routing_policy_rules-IsGuarded last id name rules (err e) = tt
update_routing_policy_rules-IsGuarded last id name rules (ok (lb, etag)) =
    search (if-IsGuarded, done-IsGuarded, request-IsGuarded)

finish_listener-IsGuarded :
    (ssl : Option SslConfigurationDetails) (now : Option String) (a : Option String)
    → IsGuarded now (finish_listener ssl a)
finish_listener-IsGuarded ssl now none = tt
finish_listener-IsGuarded ssl now (some request) =
    try_call-IsGuarded now (wait_for_work_request request) _ _ (λ x. tt) (λ later a. tt)

answered-IsGuarded :
    (etag : String) (ssl : Option SslConfigurationDetails) (x : Result (Option String))
    → IsGuarded (some etag) (try_call (done x) (listener_failure ssl) (finish_listener ssl))
unfolding try_call
answered-IsGuarded etag ssl (err e) = tt
answered-IsGuarded etag ssl (ok a) = finish_listener-IsGuarded ssl (some etag) a

pub update_listener-IsGuarded :
    (id etag : String) (l : Listener) (policy : Option String)
    (ssl : Option SslConfigurationDetails) (connection : Option ConnectionConfiguration)
    (protocol backend_set : Option String) (preserve : Bool)
    → IsGuarded
        (some etag)
        (update_listener id etag l policy ssl connection protocol backend_set preserve)
unfolding update_listener try_call
update_listener-IsGuarded id etag l policy ssl connection protocol backend_set preserve =
    elim (Result-cases (ssl_to_send preserve ssl l)) [
      | inl (e, q) ↦ rw (q, update_listener) tt
      | inr (sent, q) ↦ rw (q, update_listener) (refl, λ x. answered-IsGuarded etag sent x)
    ]

set_routing_policy_on_listener-IsGuarded :
    (last : Option String) (id name : String)
    → IsGuarded last (set_routing_policy_on_listener id name)
unfolding set_routing_policy_on_listener try_call
set_routing_policy_on_listener-IsGuarded last id name (err e) = tt
set_routing_policy_on_listener-IsGuarded last id name (ok (lb, etag)) =
    elim (Option-cases (listener_named name lb.listeners)) [
      | inl q ↦ rw (q, set_routing_policy_on_listener) tt
      | inr (l, q) ↦
          rw (q, set_routing_policy_on_listener)
            (search (if-IsGuarded, done-IsGuarded, update_listener-IsGuarded))
    ]

pub ensure_routing_policy-IsGuarded :
    (last : Option String) (id name : String) (rules : List RoutingRule)
    → IsGuarded last (ensure_routing_policy id name rules)
unfolding ensure_routing_policy try_call
ensure_routing_policy-IsGuarded last id name rules (err e) = tt
ensure_routing_policy-IsGuarded last id name rules (ok (lb, etag)) =
    try_call-IsGuarded (some etag)
      (if is_some (lookup name lb.routing_policies)
        then done (ok tt)
        else create_routing_policy id name rules)
      err _
      (if-IsGuarded (some etag) (is_some (lookup name lb.routing_policies)) (done (ok tt))
        (create_routing_policy id name rules) tt
        (create_routing_policy-IsGuarded (some etag) id name rules))
      (λ now u.
        try_call-IsGuarded now (set_routing_policy_on_listener id name) err _
          (set_routing_policy_on_listener-IsGuarded now id name)
          (λ later v. update_routing_policy_rules-IsGuarded later id name rules))

update_backends-IsGuarded :
    (last : Option String) (id name : String) (backends : List BackendDetails)
    → IsGuarded last (update_backends id name backends)
unfolding update_backends update_backend_set try_call
update_backends-IsGuarded last id name backends (err e) = tt
update_backends-IsGuarded last id name backends (ok (lb, etag)) =
    elim (Option-cases (lookup name lb.backend_sets)) [
      | inl q ↦ rw (q, update_backends) tt
      | inr (b, q) ↦ elim (Result-cases (backends_request b backends)) [
        | inl (e, p) ↦ rw (q, p, update_backends) (search (if-IsGuarded, done-IsGuarded))
        | inr (details, p) ↦
            rw (q, p, update_backends) (search (if-IsGuarded, done-IsGuarded, request-IsGuarded))
      ]
    ]

with_etag-IsGuarded :
    (last : Option String) (text : String) (request : Change)
    → Matches last (if_match request)
    → IsGuarded last (with_etag text request)
with_etag-IsGuarded last text request h =
    try_call-IsGuarded last (send request) (λ e. err (etag_mismatch text e)) (λ r. done (ok r))
      (h, λ x. tt) (λ now a. tt)

refresh_after-IsGuarded : (last : Option String) (r : String) → IsGuarded last (refresh_after r)
refresh_after-IsGuarded last r =
    try_call-IsGuarded last (wait_for_work_request r) err _ (λ x. tt)
      (λ now id.
        try_call-IsGuarded now (get_load_balancer_bust_cache id) err _ (λ x. tt) (λ later a. tt))

update_network_security_groups-IsGuarded :
    (last : Option String) (id : String) (groups : List String)
    → IsGuarded last (update_network_security_groups id groups)
unfolding update_network_security_groups try_call
update_network_security_groups-IsGuarded last id groups (err e) = tt
update_network_security_groups-IsGuarded last id groups (ok (lb, etag)) =
    let text = "unable to update NSG for LB " <> id in
    let request = Change.update_network_security_groups id etag groups in
    try_call-IsGuarded (some etag) (with_etag text request) err
      (λ r. do fresh ← refresh_after r; done (ok r))
      (with_etag-IsGuarded (some etag) text request refl)
      (λ now r.
        try_call-IsGuarded now (refresh_after r) err (λ fresh. done (ok r))
          (refresh_after-IsGuarded now r) (λ later a. tt))

update_load_balancer-IsGuarded :
    (last : Option String) (id name : String) (defined : DefinedTags) (freeform : Map String String)
    (attributes : Option DefinedTags)
    → IsGuarded last (update_load_balancer id name defined freeform attributes)
unfolding update_load_balancer try_call
update_load_balancer-IsGuarded last id name defined freeform attributes (err e) = tt
update_load_balancer-IsGuarded last id name defined freeform attributes (ok (lb, etag)) =
    let details : UpdateLoadBalancerDetails = record {
      display_name = name;
      defined_tags = defined;
      freeform_tags = freeform;
      security_attributes = security_attributes_to_send lb attributes;
    } in
    let request = Change.update_load_balancer id etag details in
    let text = "unable to update LB " <> id in
    try_call-IsGuarded (some etag) (with_etag text request) err refresh_after
      (with_etag-IsGuarded (some etag) text request refl) refresh_after-IsGuarded

-- Every update that a method sends has the etag of the last load balancer that the method was given,
-- whatever is answered to it, for the methods that look at the load balancer themselves.
pub methods-IsGuarded :
    (last : Option String) (id name : String) (rules : List RoutingRule)
    (backends : List BackendDetails) (groups : List String) (defined : DefinedTags)
    (freeform : Map String String) (attributes : Option DefinedTags)
    → IsGuarded last (ensure_routing_policy id name rules)
      × IsGuarded last (update_backends id name backends)
      × IsGuarded last (update_network_security_groups id groups)
      × IsGuarded last (update_load_balancer id name defined freeform attributes)
methods-IsGuarded last id name rules backends groups defined freeform attributes = (
  ensure_routing_policy-IsGuarded last id name rules,
  update_backends-IsGuarded last id name backends,
  update_network_security_groups-IsGuarded last id groups,
  update_load_balancer-IsGuarded last id name defined freeform attributes,
)
