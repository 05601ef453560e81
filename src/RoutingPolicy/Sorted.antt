-- ===== src/RoutingPolicy/Sorted.antt =====
-- The list of rules that buildRoutingRules makes (pkg/controllers/routingpolicy/routingpolicy.go).
use mathlib.Core.List.{Mem, Perm}
use mathlib.Core.List.Perm
use mathlib.Core.Bool.{Bool-set}
use oci_native_ingress_contr.Common.{◌≡◌, refl, sym, subst, Option, List, All, true}
use oci_native_ingress_contr.Common.Sort.{
  sort_slice, IsSorted, sort_slice-perm, sort_slice-IsSorted,
}
use oci_native_ingress_contr.Common.Member.{sort_slice-agree, IsSorted-agree, All_mem}
use oci_native_ingress_contr.Kube.{Digest}
use oci_native_ingress_contr.RoutingPolicy.{
  ListenerPath, by_path_less, rules_of, build_routing_rules,
}
use oci_native_ingress_contr.RoutingPolicy.Order.{
  has_folded_host, by_path_order, by_path_order-IsWeakOrder, by_path_less-order,
}

-- When no host has an upper-case letter, the rules are those of all the given paths, each as often
-- as it is given, in an order in which no rule stands behind one that it should precede.
pub build_routing_rules-IsSorted :
    (sha256_hex : Digest) (l : List (Option ListenerPath))
    → All (λ o. has_folded_host o ≡ true) l
    → (r : List (Option ListenerPath)) × Perm r l
      × IsSorted by_path_less r
      × (build_routing_rules sha256_hex l ≡ rules_of sha256_hex r)
unfolding build_routing_rules
build_routing_rules-IsSorted sha256_hex l all_folded =
    let folded = All_mem (λ o. has_folded_host o ≡ true) l (λ o. Bool-set _ true) all_folded in
    let perm = sort_slice-perm by_path_less l in
    let mem : (y : Option ListenerPath) → Mem y (sort_slice by_path_less l) → Mem y l =
      λ y m. (Perm.mem_iff perm).0 m in
    let same =
      sort_slice-agree by_path_less by_path_order l
        (λ a b p q. by_path_less-order a b (folded a p) (folded b q)) in
    let sorted : IsSorted by_path_order (sort_slice by_path_less l) =
      subst (IsSorted by_path_order) (sym same)
        (sort_slice-IsSorted by_path_order by_path_order-IsWeakOrder l) in
    (
      sort_slice by_path_less l,
      perm,
      IsSorted-agree by_path_less by_path_order (sort_slice by_path_less l)
          (λ a b p q. by_path_less-order a b (folded a (mem a p)) (folded b (mem b q))) sorted,
      refl,
    )
