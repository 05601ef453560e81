-- ===== src/IngressClass/Reconcile.antt =====
-- What the controller of a class asks of the load balancer
-- (pkg/controllers/ingressclass/ingressclass.go). The firewall and the patches of the IngressClass
-- are left out.
use oci_native_ingress_contr.Common.{
  String, Bool, false, not, ◌&&◌, Option, none, some, List, [], ◌∷◌, ◌==◌, string_eq, if◌then◌else◌,
  or_else,
}
use oci_native_ingress_contr.Common.Text.{trim_space}
use oci_native_ingress_contr.Exception.{Result, ok, err, plain, is_service_error}
use oci_native_ingress_contr.Kube.{IngressClass}
use oci_native_ingress_contr.Util.Names.{default_backend_set_name}
use oci_native_ingress_contr.Util.Class.{
  get_ingress_class_load_balancer_id, get_network_security_group_ids, get_delete_protection_enabled,
}
use oci_native_ingress_contr.LoadBalancer.Types.{LoadBalancer, IpAddress}
use oci_native_ingress_contr.LoadBalancer.Program.{
  Program, done, attempt, ◌>>=◌, ◌>>◌, get_load_balancer,
}
use oci_native_ingress_contr.LoadBalancer.Lifecycle.{
  update_network_security_groups, update_load_balancer, delete_load_balancer,
}
use oci_native_ingress_contr.LoadBalancer.BackendSets.{delete_backend_set, same_set}

-- `getLoadBalancer`: none if the class has no identifier, or OCI no such load balancer.
unfoldable pub get_class_load_balancer : IngressClass → Program (Option (LoadBalancer × String))
unfolding get_ingress_class_load_balancer_id is_service_error
get_class_load_balancer ic =
    if get_ingress_class_load_balancer_id ic == ""
    then done (ok none)
    else attempt (get_load_balancer (get_ingress_class_load_balancer_id ic)) (λ r. elim r [
      | ok found ↦ done (ok (some found))
      | err e ↦ if is_service_error e 404 then done (ok none) else done (err e)
    ])

-- `checkForNetworkSecurityGroupsUpdate`, which panics without a load balancer.
unfoldable pub check_for_network_security_groups_update : IngressClass → Program (Unit {0})
unfolding get_class_load_balancer update_network_security_groups get_network_security_group_ids
    same_set
check_for_network_security_groups_update ic = do
  found ← get_class_load_balancer ic
  elim found [
    | none ↦ done (err (plain "panic: nil pointer dereference"))
    | some (lb, etag) ↦
        if same_set (get_network_security_group_ids ic) lb.network_security_group_ids
        then done (ok tt)
        else do
          request ← update_network_security_groups lb.id (get_network_security_group_ids ic)
          done (ok tt)
  ]

-- `validateReservedPrivateIPSupport`
unfoldable pub validate_reserved_private_ip_support : String → Bool → Result (Unit {0})
validate_reserved_private_ip_support id is_private =
    if not (id == "") && not is_private
    then err (plain "reserved private IP is only supported for private load balancers")
    else ok tt

-- The loop of `getLoadBalancerReservedIpIds`: the public and the private address found so far.
unfoldable pub reserved_ip_ids : List IpAddress → String × String → String × String
unfolding trim_space
reserved_ip_ids [] found = found
reserved_ip_ids (a ∷ addresses) (public, private) = reserved_ip_ids addresses (elim a.reserved_id [
  | none ↦ (public, private)
  | some id ↦
      if trim_space id == ""
      then (public, private)
      else if or_else a.is_public false
      then (trim_space id, private)
      else (public, trim_space id)
])

-- `getLoadBalancerReservedIpIds`
unfoldable pub get_load_balancer_reserved_ip_ids : Option LoadBalancer → String × String
unfolding reserved_ip_ids
get_load_balancer_reserved_ip_ids none = ("", "")
get_load_balancer_reserved_ip_ids (some lb) = reserved_ip_ids lb.ip_addresses ("", "")

-- A call whose error is only logged.
unfoldable pub ignore : {A : Type 0} → Program A → Program (Unit {0})
ignore m = attempt m (λ r. done (ok tt))

-- The groups are taken off if the class has any.
unfoldable pub clear_groups : IngressClass → LoadBalancer → Program (Unit {0})
unfolding ignore update_network_security_groups get_network_security_group_ids
clear_groups ic lb = elim (get_network_security_group_ids ic) [
  | [] ↦ done (ok tt)
  | id ∷ ids ↦ ignore (update_network_security_groups lb.id [])
]

-- `clearLoadBalancer`
unfoldable pub clear_load_balancer : IngressClass → Program (Unit {0})
unfolding get_class_load_balancer clear_groups ignore delete_backend_set update_load_balancer
clear_load_balancer ic = do
  found ← get_class_load_balancer ic
  elim found [
    | none ↦ done (ok tt)
    | some (lb, etag) ↦ do
      clear_groups ic lb
      ignore (delete_backend_set lb.id default_backend_set_name)
      ignore (update_load_balancer lb.id lb.display_name [] [] none)
  ]

-- `deleteLoadBalancer`
unfoldable pub delete_class_load_balancer : IngressClass → Program (Unit {0})
unfolding get_ingress_class_load_balancer_id delete_load_balancer
delete_class_load_balancer ic =
    if get_ingress_class_load_balancer_id ic == ""
    then done (ok tt)
    else delete_load_balancer (get_ingress_class_load_balancer_id ic)

-- `deleteIngressClass`, before the finalizer is taken off
unfoldable pub delete_ingress_class : IngressClass → Program (Unit {0})
unfolding get_delete_protection_enabled clear_load_balancer delete_class_load_balancer
delete_ingress_class ic =
    if get_delete_protection_enabled ic
    then clear_load_balancer ic
    else delete_class_load_balancer ic
