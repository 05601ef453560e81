-- ===== src/NodeBackend/Sync.antt =====
-- The updates of the backend sets (pkg/controllers/nodeBackend/nodeBackend.go).
use oci_native_ingress_contr.Common.{◌<>◌, String, ℤ, Option, none, some, List, [], ◌∷◌}
use oci_native_ingress_contr.Exception.{Result, ok, err, plain, wrapped}
use oci_native_ingress_contr.Kube.{
  IngressServiceBackend, Ingress, IngressClass, IngressRule, HttpIngressPath, Digest,
}
use oci_native_ingress_contr.LoadBalancer.Types.{BackendDetails}
use oci_native_ingress_contr.LoadBalancer.Program.{try_call, Program, done, attempt, ◌>>=◌, ◌>>◌}
use oci_native_ingress_contr.LoadBalancer.BackendSets.{update_backends}
use oci_native_ingress_contr.Util.Names.{generate_backend_set_name, default_backend_set_name}
use oci_native_ingress_contr.Util.Class.{get_ingresses_for_class}
use oci_native_ingress_contr.NodeBackend.{
  Node, Listers, filter_nodes, node_path_backends, get_node_default_backends,
}

module _ (sha256_hex : Digest) (l : Listers) (lb_id : String) where
  -- The end of the inner loop of `ensureBackendsForIngress`: the path is skipped without backends.
  unfoldable pub send_backends :
      Ingress → String → Option (ℤ × List BackendDetails) → Program (Unit {0})
  unfolding update_backends generate_backend_set_name try_call
  send_backends i service none = done (ok tt)
  send_backends i service (some (port, backends)) =
      let name = generate_backend_set_name sha256_hex i.namespace service port in
      try_call (update_backends lb_id name backends)
        (λ e. err (wrapped ("unable to update backends for " <> name) e)) (λ u. done (ok tt))

  -- The body of the inner loop
  unfoldable pub update_path :
      List Node → Ingress → Option IngressServiceBackend → Program (Unit {0})
  unfolding node_path_backends send_backends
  update_path nodes i none = done (ok tt)
  update_path nodes i (some s) = do
    found ← done (node_path_backends l nodes i.namespace s)
    send_backends i s.name found

  unfoldable pub update_paths : List Node → Ingress → List HttpIngressPath → Program (Unit {0})
  unfolding update_path
  update_paths nodes i [] = done (ok tt)
  update_paths nodes i (p ∷ paths) = do
    update_path nodes i p.backend.service
    update_paths nodes i paths

  unfoldable pub update_rule :
      List Node → Ingress → Option (List HttpIngressPath) → Program (Unit {0})
  unfolding update_paths
  update_rule nodes i none = done (ok tt)
  update_rule nodes i (some paths) = update_paths nodes i paths

  -- The outer loop.
  unfoldable pub update_rules : List Node → Ingress → List IngressRule → Program (Unit {0})
  unfolding update_rule
  update_rules nodes i [] = done (ok tt)
  update_rules nodes i (rule ∷ rules) = do update_rule nodes i rule.http; update_rules nodes i rules

  -- The loop of `ensureBackends`
  unfoldable pub update_ingresses : List Node → List Ingress → Program (Unit {0})
  unfolding update_rules try_call
  update_ingresses nodes [] = done (ok tt)
  update_ingresses nodes (i ∷ is) =
      try_call (update_rules nodes i i.rules)
        (λ e. err (
          wrapped ("for ingress " <> (i.namespace <> ("/" <> (i.name <> ", encountered error"))))
            e))
        (λ u. update_ingresses nodes is)

  -- `syncDefaultBackend`, which only logs that there is no backend to send.
  unfoldable pub sync_default_backend : Result (List BackendDetails) → Program (Unit {0})
  unfolding update_backends
  sync_default_backend (err e) = done (ok tt)
  sync_default_backend (ok backends) = update_backends lb_id default_backend_set_name backends

  -- Without a node that is ready there is nothing to send; the error of the default backend is dropped.
  unfoldable pub update_all : List Node → List Ingress → Program (Unit {0})
  unfolding update_ingresses sync_default_backend get_node_default_backends
  update_all [] ingresses =
      done (err (plain "error: UnAvailableNodes due to : There are no available provisioned nodes"))
  update_all (n ∷ ns) ingresses = do
    update_ingresses (n ∷ ns) ingresses
    attempt (sync_default_backend (get_node_default_backends l ingresses)) (λ r. done (ok tt))

  -- `ensureBackends` on the listers' answers
  unfoldable pub ensure_backends :
      Result (List Ingress) → Result (List Node) → IngressClass → Program (Unit {0})
  unfolding get_ingresses_for_class filter_nodes update_all
  ensure_backends listed nodes ic = do
    ingresses ← done (get_ingresses_for_class listed ic)
    ready ← done (filter_nodes nodes)
    update_all ready ingresses
