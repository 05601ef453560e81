-- ===== src/Tests/Nodes.antt =====
-- The theorems on node ports and readiness gates, applied to concrete inputs.
use native.Mathlib.Decide.{ℕ_discrete}
use oci_native_ingress_contr.Common.{
  ◌↔◌, ◌⊎◌, ◌≡◌, refl, String, ℤ, pos, int_eq, string_eq, option_string_eq, ◌==◌, true, false, none,
  some, List, [], ◌∷◌, All,
}
use oci_native_ingress_contr.Common.Map.{lookup}
use oci_native_ingress_contr.Common.Text.{parse_bool}
use oci_native_ingress_contr.Common.Set.{has}
use oci_native_ingress_contr.Exception.{ok, err, not_found}
use oci_native_ingress_contr.Kube.{IngressClass, Ingress, IngressServiceBackend, Service, number}
use oci_native_ingress_contr.LoadBalancer.Types.{BackendDetails}
use oci_native_ingress_contr.Backend.{new_backend}
use oci_native_ingress_contr.NodeBackend.{
  Node, Listers, filter_nodes, backends_of, node_path_backends,
}
use oci_native_ingress_contr.NodeBackend.Sync.{ensure_backends}
use oci_native_ingress_contr.NodeBackend.Ports.{IsUpdating, ensure_backends-IsUpdating}
use oci_native_ingress_contr.NodeBackend.Ready.{
  HasPort, IsOfReady, node_path_backends-HasPort, backends_of-IsOfReady,
}
use oci_native_ingress_contr.Webhook.{NewPod, handle_create}
use oci_native_ingress_contr.Webhook.Wanted.{Wanted, handle_create_lem}
use oci_native_ingress_contr.Tests.{plain_digest}

abbrev web : Service
web = record {
  ports =
      record {
        name = "http";
        port = pos 80;
        target_port = number (pos 8080);
        node_port = pos 30080;
      }
      ∷ [];
  external_traffic_policy = "Cluster";
  selector = ("app", "web") ∷ [];
}

abbrev to_web : IngressServiceBackend
to_web = record { name = "web"; port = record { number = pos 80; name = "" } }

abbrev good_node : Node
good_node = record {
  taints = [];
  conditions = ("Ready", true) ∷ [];
  addresses = ("Hostname", "n1") ∷ ("InternalIP", "10.0.0.1") ∷ [];
}

abbrev leaving_node : Node
leaving_node = record {
  taints = "ToBeDeletedByClusterAutoscaler" ∷ [];
  conditions = ("Ready", true) ∷ [];
  addresses = ("InternalIP", "10.0.0.2") ∷ [];
}

abbrev listers : Listers
listers = record {
  endpoints = λ namespace name. ok [];
  services = λ namespace name. ok web;
  pod_node = λ namespace name. err not_found;
  node = λ name. err not_found;
  is_not_found = λ e. true;
}

abbrev sent : List BackendDetails
sent = new_backend "10.0.0.1" (pos 30080) ∷ []

node_path_backends-HasPort_example : (q : ℤ) × ((q == pos 0) ≡ false) × All (HasPort q) sent
unfolding node_path_backends string_eq int_eq ℕ_discrete
node_path_backends-HasPort_example =
    node_path_backends-HasPort listers (good_node ∷ []) "ns" to_web (pos 80) sent refl

backends_of-IsOfReady_example : All (IsOfReady (good_node ∷ leaving_node ∷ [])) sent
unfolding filter_nodes backends_of parse_bool
backends_of-IsOfReady_example =
    backends_of-IsOfReady listers (good_node ∷ leaving_node ∷ []) (good_node ∷ []) "ns" "web" web
      (pos 30080) sent refl refl refl

abbrev site : Ingress
site = record {
  namespace = "ns";
  name = "site";
  annotations = [];
  deletion_timestamp = none;
  ingress_class_name = none;
  default_backend = none;
  tls = [];
  rules =
      record {
        host = "a.com";
        http = some (
            record { path = "/"; path_type = none; backend = record { service = some to_web } }
            ∷ []);
      }
      ∷ [];
}

abbrev new_pod : NewPod
new_pod = record { namespace = "ns"; labels = ("app", "web") ∷ []; readiness_gates = "other" ∷ [] }

abbrev web_gate : String
web_gate = "podreadiness.ingress.oraclecloud.com/k8s_sitea.comI"

handle_create_example :
    ((g : String)
      → (has g ("other" ∷ web_gate ∷ []) ≡ true) ↔ (
          (has g ("other" ∷ []) ≡ true)
          ⊎ Wanted plain_digest
              (λ namespace name. ok web)
              "ns"
              (("app", "web") ∷ [])
              g
              (site ∷ [])))
    × (handle_create plain_digest
          (λ namespace name. ok web)
          (ok (site ∷ []))
          (record new_pod { readiness_gates = "other" ∷ web_gate ∷ [] })
        ≡ ok ("other" ∷ web_gate ∷ []))
unfolding string_eq option_string_eq lookup handle_create
handle_create_example =
    handle_create_lem plain_digest (λ namespace name. ok web) (site ∷ []) new_pod
      ("other" ∷ web_gate ∷ []) refl

abbrev oci : IngressClass
oci = record {
  name = "oci";
  annotations = ("ingressclass.kubernetes.io/is-default-class", "true") ∷ [];
  controller = "oci";
}

ensure_backends-IsUpdating_example : IsUpdating (
    ensure_backends plain_digest listers "lb_1"
      (ok (site ∷ []))
      (ok (good_node ∷ leaving_node ∷ []))
      oci)
ensure_backends-IsUpdating_example =
    ensure_backends-IsUpdating plain_digest listers "lb_1" (ok (site ∷ []))
      (ok (good_node ∷ leaving_node ∷ [])) oci
