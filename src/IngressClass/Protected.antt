-- ===== src/IngressClass/Protected.antt =====
-- The protection of a load balancer from deletion (pkg/controllers/ingressclass/ingressclass.go).
use oci_native_ingress_contr.Common.{
  ◌≡◌, String, ◌<>◌, true, Option, none, some, List, [], ◌∷◌, ◌==◌, string_eq, if◌then◌else◌,
}
use oci_native_ingress_contr.Exception.{Result, ok, err, is_service_error}
use oci_native_ingress_contr.Kube.{IngressClass}
use oci_native_ingress_contr.Util.Names.{default_backend_set_name}
use oci_native_ingress_contr.Util.Class.{
  get_ingress_class_load_balancer_id, get_network_security_group_ids, get_delete_protection_enabled,
}
use oci_native_ingress_contr.LoadBalancer.Types.{
  LoadBalancer, UpdateListenerDetails, UpdateLoadBalancerDetails,
}
use oci_native_ingress_contr.LoadBalancer.Program.{
  Change, Program, done, try_call, ◌>>=◌, ◌>>◌, send, get_load_balancer, wait_for_work_request,
  get_load_balancer_bust_cache,
}
use oci_native_ingress_contr.LoadBalancer.Every.{
  Every, if-Every, done-Every, attempt-Every, try_call-Every, request-Every,
}
use oci_native_ingress_contr.LoadBalancer.Lifecycle.{
  update_network_security_groups, update_load_balancer, with_etag, etag_mismatch, refresh_after,
  security_attributes_to_send,
}
use oci_native_ingress_contr.LoadBalancer.BackendSets.{delete_backend_set}
use oci_native_ingress_contr.IngressClass.Reconcile.{
  get_class_load_balancer, ignore, clear_groups, clear_load_balancer, delete_ingress_class,
}

abbrev Harmless : Change → Type 0
Harmless (Change.delete_load_balancer id) = ⊥
Harmless (Change.create_load_balancer token) = ⊥
Harmless _ = Unit

abbrev Anything : String → UpdateListenerDetails → Type 0
Anything name details = Unit

-- Whatever a program is answered, it neither deletes nor creates a load balancer.
abbrev pub IsHarmless : {A : Type 0} → Program A → Type 0
IsHarmless m = Every Harmless Anything m

with_etag-IsHarmless :
    (text : String) (request : Change) → Harmless request → IsHarmless (with_etag text request)
with_etag-IsHarmless text request h =
    try_call-Every Harmless Anything (send request) (λ e. err (etag_mismatch text e))
      (λ r. done (ok r)) (h, λ x. tt) (λ r. tt)

refresh_after-IsHarmless : (r : String) → IsHarmless (refresh_after r)
refresh_after-IsHarmless r =
    try_call-Every Harmless Anything (wait_for_work_request r) err _ (λ x. tt)
      (λ id.
        try_call-Every Harmless Anything (get_load_balancer_bust_cache id) err
          (λ answer. done (ok answer.0)) (λ x. tt) (λ a. tt))

ignore-IsHarmless : {A : Type 0} (m : Program A) → IsHarmless m → IsHarmless (ignore m)
unfolding ignore
ignore-IsHarmless m h = attempt-Every Harmless Anything m (λ r. done (ok tt)) h (λ r. tt)

update_network_security_groups-IsHarmless :
    (id : String) (groups : List String) → IsHarmless (update_network_security_groups id groups)
unfolding update_network_security_groups try_call
update_network_security_groups-IsHarmless id groups (err e) = tt
update_network_security_groups-IsHarmless id groups (ok (lb, etag)) =
    let text = "unable to update NSG for LB " <> id in
    let request = Change.update_network_security_groups id etag groups in
    try_call-Every Harmless Anything (with_etag text request) err
      (λ r. do fresh ← refresh_after r; done (ok r)) (with_etag-IsHarmless text request tt)
      (λ r.
        try_call-Every Harmless Anything (refresh_after r) err (λ fresh. done (ok r))
          (refresh_after-IsHarmless r) (λ a. tt))

update_load_balancer-IsHarmless :
    (id name : String) → IsHarmless (update_load_balancer id name [] [] none)
unfolding update_load_balancer try_call
update_load_balancer-IsHarmless id name (err e) = tt
update_load_balancer-IsHarmless id name (ok (lb, etag)) =
    let details : UpdateLoadBalancerDetails = record {
      display_name = name;
      defined_tags = [];
      freeform_tags = [];
      security_attributes = security_attributes_to_send lb none;
    } in
    let request = Change.update_load_balancer id etag details in
    let text = "unable to update LB " <> id in
    try_call-Every Harmless Anything (with_etag text request) err refresh_after
      (with_etag-IsHarmless text request tt) refresh_after-IsHarmless

delete_backend_set-IsHarmless : (id name : String) → IsHarmless (delete_backend_set id name)
unfolding delete_backend_set try_call
delete_backend_set-IsHarmless id name (err e) = tt
delete_backend_set-IsHarmless id name (ok (lb, etag)) = search (if-Every, done-Every, request-Every)

clear_groups-IsHarmless : (ic : IngressClass) (lb : LoadBalancer) → IsHarmless (clear_groups ic lb)
unfolding clear_groups
clear_groups-IsHarmless ic lb =
    elim (get_network_security_group_ids ic)
      as (λ ids. IsHarmless (elim ids [
        | [] ↦ done (ok tt)
        | id ∷ rest ↦ ignore (update_network_security_groups lb.id [])
      ])) [
        | [] ↦ tt
        | id ∷ rest ↦
            ignore-IsHarmless (update_network_security_groups lb.id [])
              (update_network_security_groups-IsHarmless lb.id [])
      ]

-- The answer to the look at the load balancer of the class.
looked-IsHarmless :
    (r : Result (LoadBalancer × String))
    → IsHarmless {A = Option (LoadBalancer × String)} (elim r [
      | ok found ↦ done (ok (some found))
      | err e ↦ if is_service_error e 404 then done (ok none) else done (err e)
    ])
looked-IsHarmless (ok found) = tt
looked-IsHarmless (err e) =
    if-Every Harmless Anything (is_service_error e 404) (done (ok none)) (done (err e)) tt tt

get_class_load_balancer-IsHarmless : (ic : IngressClass) → IsHarmless (get_class_load_balancer ic)
unfolding get_class_load_balancer
get_class_load_balancer-IsHarmless ic =
    if-Every Harmless Anything (get_ingress_class_load_balancer_id ic == "") (done (ok none)) _ tt (
      attempt-Every Harmless Anything (get_load_balancer (get_ingress_class_load_balancer_id ic)) _
        (λ x. tt) looked-IsHarmless)

-- The load balancer that was found is emptied.
abbrev clear_found : IngressClass → Option (LoadBalancer × String) → Program (Unit {0})
clear_found ic none = done (ok tt)
clear_found ic (some (lb, etag)) = do
  clear_groups ic lb
  ignore (delete_backend_set lb.id default_backend_set_name)
  ignore (update_load_balancer lb.id lb.display_name [] [] none)

clear_found-IsHarmless :
    (ic : IngressClass) (found : Option (LoadBalancer × String)) → IsHarmless (clear_found ic found)
clear_found-IsHarmless ic none = tt
clear_found-IsHarmless ic (some (lb, etag)) =
    try_call-Every Harmless Anything (clear_groups ic lb) err _ (clear_groups-IsHarmless ic lb)
      (λ a.
        try_call-Every Harmless Anything
          (ignore (delete_backend_set lb.id default_backend_set_name)) err _
          (ignore-IsHarmless _ (delete_backend_set-IsHarmless lb.id default_backend_set_name))
          (λ b. ignore-IsHarmless _ (update_load_balancer-IsHarmless lb.id lb.display_name)))

clear_load_balancer-IsHarmless : (ic : IngressClass) → IsHarmless (clear_load_balancer ic)
unfolding clear_load_balancer
clear_load_balancer-IsHarmless ic =
    try_call-Every Harmless Anything (get_class_load_balancer ic) err _
      (get_class_load_balancer-IsHarmless ic) (clear_found-IsHarmless ic)

-- Where the deletion protection of a class is enabled, its deletion asks for neither the deletion nor
-- the creation of a load balancer, whatever OCI answers.
pub delete_ingress_class-IsHarmless :
    (ic : IngressClass)
    → get_delete_protection_enabled ic ≡ true
    → IsHarmless (delete_ingress_class ic)
unfolding delete_ingress_class
delete_ingress_class-IsHarmless ic h = rw h (clear_load_balancer-IsHarmless ic)
