-- ===== src/LoadBalancer/Conflict.antt =====
-- The methods of the client where an etag no longer matches (pkg/loadbalancer/loadbalancer.go).
use oci_native_ingress_contr.Common.{
  ◌≡◌, refl, ap, String, ◌<>◌, Bool, true, Option, none, some, List, inl, inr, is_some, string_eq,
  nat_eq, if◌then◌else◌, Option-cases, or_else, [], ◌∷◌,
}
use oci_native_ingress_contr.Common.Map.{Map, lookup}
use oci_native_ingress_contr.Exception.{
  Error, Result, ok, err, service, transient, has_transient_error, is_service_error,
  as_service_error, service_status,
}
use oci_native_ingress_contr.Exception.Laws.{Result-cases}
use oci_native_ingress_contr.RoutingPolicy.{RoutingRule}
use oci_native_ingress_contr.LoadBalancer.Types.{
  Listener, BackendDetails, SslConfigurationDetails, ConnectionConfiguration,
  UpdateBackendSetDetails, DefinedTags, UpdateLoadBalancerDetails,
}
use oci_native_ingress_contr.LoadBalancer.Program.{Change, done, try_call, ◌>>=◌}
use oci_native_ingress_contr.LoadBalancer.Policies.{
  create_routing_policy, update_routing_policy_rules, set_routing_policy_on_listener,
  ensure_routing_policy, listener_named, missing_backend_set, rules_differ,
}
use oci_native_ingress_contr.LoadBalancer.ListenerDetails.{ssl_to_send, wrap_multi_certificate}
use oci_native_ingress_contr.LoadBalancer.Listeners.{
  update_listener, finish_listener, listener_failure,
}
use oci_native_ingress_contr.LoadBalancer.BackendSets.{
  update_backends, update_backend_set, backends_request,
}
use oci_native_ingress_contr.LoadBalancer.Lifecycle.{
  refresh_after, with_etag, etag_mismatch, security_attributes_to_send,
  update_network_security_groups, update_load_balancer,
}
use oci_native_ingress_contr.LoadBalancer.Retried.{
  IsRetried, if-IsRetried, done-IsRetried, >>=-IsRetried, request-IsRetried, with_etag-IsRetried,
  refresh_after-IsRetried,
}

-- The errors that the methods make of the answer 412.
Transient : Result (Unit {0}) → Type 0
Transient r = (e : Error) × (r ≡ err e) × (has_transient_error e ≡ true)

rules_conflict :
    (text code : String)
    → Transient (err (etag_mismatch text (missing_backend_set (service 412 code))))
unfolding Transient etag_mismatch missing_backend_set is_service_error service_status
    has_transient_error nat_eq native.Mathlib.Decide.ℕ_discrete
rules_conflict text code = (_, refl, refl)

backend_set_conflict :
    (code : String)
    → Transient (
        if as_service_error (service 412 code) (409 ∷ 412 ∷ [])
        then err (transient (service 412 code))
        else err (service 412 code))
unfolding Transient as_service_error is_service_error service_status has_transient_error nat_eq
    native.Mathlib.Decide.ℕ_discrete
backend_set_conflict code = (_, refl, refl)

listener_conflict :
    (ssl : Option SslConfigurationDetails) (code : String)
    → Transient (listener_failure ssl (service 412 code))
unfolding Transient as_service_error is_service_error service_status has_transient_error nat_eq
    native.Mathlib.Decide.ℕ_discrete
listener_conflict ssl code = (_, refl, refl)

create_routing_policy-IsRetried :
    (id name : String) (rules : List RoutingRule) → IsRetried (create_routing_policy id name rules)
unfolding create_routing_policy try_call
create_routing_policy-IsRetried id name rules (err e) = tt
create_routing_policy-IsRetried id name rules (ok (lb, etag)) =
    if-IsRetried (is_some (lookup name lb.routing_policies)) (done (ok tt)) _ tt
      (request-IsRetried (Change.create_routing_policy lb.id name rules) _ (λ p. cc))

update_routing_policy_rules-IsRetried :
    (id name : String) (rules : List RoutingRule)
    → IsRetried (update_routing_policy_rules id name rules)
unfolding update_routing_policy_rules try_call Transient
update_routing_policy_rules-IsRetried id name rules (err e) = tt
update_routing_policy_rules-IsRetried id name rules (ok (lb, etag)) =
    if-IsRetried (rules_differ (or_else (lookup name lb.routing_policies) []) rules) _
      (done (ok tt))
      (request-IsRetried (Change.update_routing_policy lb.id etag name rules) _
        (λ p code. rules_conflict ("unable to update routing policy " <> name) code))
      tt

waited-IsRetried :
    (ssl : Option SslConfigurationDetails) (x : Result String)
    → IsRetried (try_call (done x) (λ e. err (wrap_multi_certificate ssl e)) (λ id. done (ok tt)))
unfolding try_call
waited-IsRetried ssl (err e) = tt
waited-IsRetried ssl (ok id) = tt

finish_listener-IsRetried :
    (ssl : Option SslConfigurationDetails) (a : Option String) → IsRetried (finish_listener ssl a)
unfolding try_call
finish_listener-IsRetried ssl none = tt
finish_listener-IsRetried ssl (some request) = λ x. waited-IsRetried ssl x

answered-IsRetried :
    (ssl : Option SslConfigurationDetails) (x : Result (Option String))
    → IsRetried (try_call (done x) (listener_failure ssl) (finish_listener ssl))
unfolding try_call
answered-IsRetried ssl (err e) = tt
answered-IsRetried ssl (ok a) = finish_listener-IsRetried ssl a

pub update_listener-IsRetried :
    (id etag : String) (l : Listener) (policy : Option String)
    (ssl : Option SslConfigurationDetails) (connection : Option ConnectionConfiguration)
    (protocol backend_set : Option String) (preserve : Bool)
    → IsRetried (update_listener id etag l policy ssl connection protocol backend_set preserve)
unfolding update_listener try_call Transient
update_listener-IsRetried id etag l policy ssl connection protocol backend_set preserve =
    elim (Result-cases (ssl_to_send preserve ssl l)) [
      | inl (e, q) ↦ rw (q, update_listener) tt
      | inr (sent, q) ↦
          rw (q, update_listener)
            (
              λ code. let (e, r, t) = listener_conflict sent code in (e, ap done r, t),
              λ x. answered-IsRetried sent x,
            )
    ]

set_routing_policy_on_listener-IsRetried :
    (id name : String) → IsRetried (set_routing_policy_on_listener id name)
unfolding set_routing_policy_on_listener try_call
set_routing_policy_on_listener-IsRetried id name (err e) = tt
set_routing_policy_on_listener-IsRetried id name (ok (lb, etag)) =
    elim (Option-cases (listener_named name lb.listeners)) [
      | inl q ↦ rw (q, set_routing_policy_on_listener) tt
      | inr (l, q) ↦
          rw (q, set_routing_policy_on_listener)
            (search (if-IsRetried, done-IsRetried, update_listener-IsRetried))
    ]

pub ensure_routing_policy-IsRetried :
    (id name : String) (rules : List RoutingRule) → IsRetried (ensure_routing_policy id name rules)
unfolding ensure_routing_policy try_call
ensure_routing_policy-IsRetried id name rules (err e) = tt
ensure_routing_policy-IsRetried id name rules (ok (lb, etag)) =
    let there = is_some (lookup name lb.routing_policies) in
    >>=-IsRetried (if there then done (ok tt) else create_routing_policy id name rules) _
      (if-IsRetried there (done (ok tt)) (create_routing_policy id name rules) tt
        (create_routing_policy-IsRetried id name rules))
      (λ u.
        >>=-IsRetried (set_routing_policy_on_listener id name) _
          (set_routing_policy_on_listener-IsRetried id name)
          (λ v. update_routing_policy_rules-IsRetried id name rules))

update_backend_set-IsRetried :
    (id etag name : String) (details : UpdateBackendSetDetails)
    → IsRetried (update_backend_set id etag name details)
unfolding update_backend_set Transient
update_backend_set-IsRetried id etag name details =
    request-IsRetried (Change.update_backend_set id etag name details) _ (λ p. backend_set_conflict)

pub update_backends-IsRetried :
    (id name : String) (backends : List BackendDetails)
    → IsRetried (update_backends id name backends)
unfolding update_backends try_call
update_backends-IsRetried id name backends (err e) = tt
update_backends-IsRetried id name backends (ok (lb, etag)) =
    elim (Option-cases (lookup name lb.backend_sets)) [
      | inl q ↦ rw (q, update_backends) tt
      | inr (b, q) ↦ elim (Result-cases (backends_request b backends)) [
        | inl (e, p) ↦ rw (q, p, update_backends) (search (if-IsRetried, done-IsRetried))
        | inr (details, p) ↦
            rw (q, p, update_backends)
              (search (if-IsRetried, done-IsRetried, update_backend_set-IsRetried))
      ]
    ]

pub update_network_security_groups-IsRetried :
    (id : String) (groups : List String) → IsRetried (update_network_security_groups id groups)
unfolding update_network_security_groups try_call
update_network_security_groups-IsRetried id groups (err e) = tt
update_network_security_groups-IsRetried id groups (ok (lb, etag)) =
    let text = "unable to update NSG for LB " <> id in
    let request = Change.update_network_security_groups id etag groups in
    >>=-IsRetried (with_etag text request) (λ r. do fresh ← refresh_after r; done (ok r))
      (with_etag-IsRetried text request)
      (λ r.
        >>=-IsRetried (refresh_after r) (λ fresh. done (ok r)) (refresh_after-IsRetried r)
          (λ a. tt))

pub update_load_balancer-IsRetried :
    (id name : String) (defined : DefinedTags) (freeform : Map String String)
    (attributes : Option DefinedTags)
    → IsRetried (update_load_balancer id name defined freeform attributes)
unfolding update_load_balancer try_call
update_load_balancer-IsRetried id name defined freeform attributes (err e) = tt
update_load_balancer-IsRetried id name defined freeform attributes (ok (lb, etag)) =
    let details : UpdateLoadBalancerDetails = record {
      display_name = name;
      defined_tags = defined;
      freeform_tags = freeform;
      security_attributes = security_attributes_to_send lb attributes;
    } in
    let request = Change.update_load_balancer id etag details in
    let text = "unable to update LB " <> id in
    >>=-IsRetried (with_etag text request) refresh_after (with_etag-IsRetried text request)
      refresh_after-IsRetried

-- Where OCI answers 412 to an update of a method that looks at the load balancer itself, the method
-- stops at once with a transient error, whatever was answered before.
pub methods-IsRetried :
    (id name : String) (rules : List RoutingRule) (backends : List BackendDetails)
    (groups : List String) (defined : DefinedTags) (freeform : Map String String)
    (attributes : Option DefinedTags)
    → IsRetried (ensure_routing_policy id name rules)
      × IsRetried (update_backends id name backends)
      × IsRetried (update_network_security_groups id groups)
      × IsRetried (update_load_balancer id name defined freeform attributes)
methods-IsRetried id name rules backends groups defined freeform attributes = (
  ensure_routing_policy-IsRetried id name rules,
  update_backends-IsRetried id name backends,
  update_network_security_groups-IsRetried id groups,
  update_load_balancer-IsRetried id name defined freeform attributes,
)
