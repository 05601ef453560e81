-- ===== src/Webhook.antt =====
-- The readiness gates that a new pod gets (pkg/podreadiness/webhook.go). The request and the patch are
-- left out: the pod is given decoded, and the new list of its gates is the answer.
pub mod Gates
pub mod Wanted
use oci_native_ingress_contr.Common.{
  ◌≡◌, refl, String, Bool, true, false, not, ◌&&◌, ◌||◌, Option, none, some, List, [], ◌∷◌, ◌++◌,
  ◌==◌, string_eq, option_string_eq, if◌then◌else◌, arith, ==_refl, eq_of_==,
}
use oci_native_ingress_contr.Common.Map.{Map, lookup}
use oci_native_ingress_contr.Common.Set.{has}
use oci_native_ingress_contr.Exception.{Result, ok, err, ◌>>=◌}
use oci_native_ingress_contr.Kube.{
  Ingress, IngressRule, HttpIngressPath, IngressServiceBackend, Service, ServiceLister, Digest,
}
use oci_native_ingress_contr.Util.Names.{get_pod_readiness_condition}

-- What the webhook reads of a pod.
pub record NewPod : Type 0 where
  pub namespace : String
  pub labels : Map String String
  pub readiness_gates : List String

-- `labels.SelectorFromSet`, and no pod for an empty selector.
unfoldable pub holds_labels : Map String String → Map String String → Bool
holds_labels [] labels = true
holds_labels ((key, value) ∷ selector) labels =
    lookup key labels == some value && holds_labels selector labels

unfoldable pub selects : Map String String → Map String String → Bool
unfolding holds_labels
selects [] labels = false
selects (entry ∷ selector) labels = holds_labels (entry ∷ selector) labels

module _ (sha256_hex : Digest) (services : ServiceLister) (namespace : String)
    (labels : Map String String) where
  -- The conditions for the paths of a rule whose service selects the pod.
  unfoldable pub path_gates : Ingress → String → List HttpIngressPath → Result (List String)
  unfolding selects get_pod_readiness_condition
  path_gates i host [] = ok []
  path_gates i host (p ∷ paths) = elim p.backend.service [
    | none ↦ path_gates i host paths
    | some s ↦ do
      svc ← services namespace s.name
      rest ← path_gates i host paths
      ok (
          if selects svc.selector labels
          then get_pod_readiness_condition sha256_hex i.name host p ∷ rest
          else rest)
  ]

  unfoldable pub rule_gates : Ingress → List IngressRule → Result (List String)
  unfolding path_gates
  rule_gates i [] = ok []
  rule_gates i (rule ∷ rules) = elim rule.http [
    | none ↦ rule_gates i rules
    | some paths ↦ do
      gates ← path_gates i rule.host paths
      rest ← rule_gates i rules
      ok (gates ++ rest)
  ]

  unfoldable pub target_gates : List Ingress → Result (List String)
  unfolding rule_gates
  target_gates [] = ok []
  target_gates (i ∷ is) = do
    gates ← rule_gates i i.rules
    rest ← target_gates is
    ok (gates ++ rest)

-- The loop that adds the gates that are not there.
unfoldable pub add_gates : List String → List String → List String
unfolding has
add_gates [] gates = gates
add_gates (g ∷ targets) gates = add_gates targets (if has g gates then gates else gates ++ (g ∷ []))

-- `handleCreate` on the lister's answer for the namespace: the gates of the pod after it.
unfoldable pub handle_create :
    Digest → ServiceLister → Result (List Ingress) → NewPod → Result (List String)
unfolding target_gates add_gates
handle_create sha256_hex services listed pod = do
  ingresses ← listed
  targets ← target_gates sha256_hex services pod.namespace pod.labels ingresses
  ok (add_gates targets pod.readiness_gates)
