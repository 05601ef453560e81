-- ===== src/NodeBackend/Ready.antt =====
-- The nodes that get traffic (pkg/controllers/nodeBackend/nodeBackend.go).
use mathlib.Core.List.{Mem, mem-cons_self, mem-cons_of_mem}
use oci_native_ingress_contr.Common.{
  ◌≡◌, ◌≢◌, arith, refl, ap, ◌∙◌, ==_refl, String, ℤ, pos, int_eq, Bool, true, false, Option, none,
  some, List, [], ◌∷◌, ◌==◌, string_eq, select, map, All, if◌then◌else◌, subst, Bool-cases, inl,
  inr,
}
use oci_native_ingress_contr.Common.Set.{has}
use oci_native_ingress_contr.Exception.{Error, Result, ok, err, ◌>>=◌}
use oci_native_ingress_contr.Exception.Laws.{>>=-eq-ok, ok-injective, err_not_ok}
use oci_native_ingress_contr.Kube.{IngressServiceBackend, Service}
use oci_native_ingress_contr.LoadBalancer.Types.{BackendDetails}
use oci_native_ingress_contr.Backend.{new_backend, get_target_port_for_service}
use oci_native_ingress_contr.NodeBackend.{
  Node, Listers, to_be_deleted_taint, no_failing_ready, accepts, filter_nodes, node_internal_ip,
  backends_of, node_path_backends, node_backends, retrieve_pods, get_backends_from_pods,
}

-- A backend has a port, which is that of the nodes.
abbrev pub HasPort : ℤ → BackendDetails → Type 0
HasPort port b = b.port ≡ port

-- One step of the loop over the nodes of the pods.
step-HasPort :
    (gone : Error → Bool) (port : ℤ) (rest : Result (List BackendDetails)) (r : Result Node)
    (backends : List BackendDetails)
    → ((bs : List BackendDetails) → rest ≡ ok bs → All (HasPort port) bs)
    → elim r [
      | err e ↦ if gone e then rest else err e
      | ok n ↦ do bs ← rest; ok (new_backend (node_internal_ip n) port ∷ bs)
    ]
      ≡ ok backends
    → All (HasPort port) backends
unfolding new_backend
step-HasPort gone port rest (err e) backends later h = elim (Bool-cases (gone e)) [
  | inl skipped ↦ later backends (rw skipped at h)
  | inr other ↦ err_not_ok e (rw other at h)
]
step-HasPort gone port rest (ok n) backends later h =
    let (bs, found, all) = >>=-eq-ok rest _ h in
    subst (All (HasPort port)) (ok-injective all) (refl, later bs found)

pub node_backends-HasPort :
    (l : Listers) (port : ℤ) (names : List String) (backends : List BackendDetails)
    → node_backends l port names ≡ ok backends
    → All (HasPort port) backends
unfolding node_backends new_backend
node_backends-HasPort l port [] backends h = subst (All (HasPort port)) (ok-injective h) tt
node_backends-HasPort l port (name ∷ names) backends h =
    step-HasPort l.is_not_found port (node_backends l port names) (l.node name) backends
      (node_backends-HasPort l port names) h

cluster-HasPort :
    (port : ℤ) (nodes : List Node)
    → All (HasPort port) (map (λ n. new_backend (node_internal_ip n) port) nodes)
unfolding new_backend
cluster-HasPort port [] = tt
cluster-HasPort port (n ∷ nodes) = (refl, cluster-HasPort port nodes)

backends_of-HasPort :
    (l : Listers) (nodes : List Node) (namespace name : String) (svc : Service) (port : ℤ)
    (backends : List BackendDetails)
    → backends_of l nodes namespace name svc port ≡ ok backends
    → All (HasPort port) backends
unfolding backends_of get_backends_from_pods
backends_of-HasPort l nodes namespace name svc port backends h =
    elim (Bool-cases (svc.external_traffic_policy == "Cluster")) [
      | inl all ↦
          subst (All (HasPort port)) (ok-injective (rw all at h)) (cluster-HasPort port nodes)
      | inr pods ↦
          let (names, found, rest) =
            >>=-eq-ok (retrieve_pods l namespace name) (node_backends l port) (rw pods at h) in
          node_backends-HasPort l port names backends rest
    ]

-- The branch on the port of the nodes.
sent :
    (zero : Bool) (port p node_port : ℤ) (found : Result (List BackendDetails))
    (backends : List BackendDetails)
    → (node_port == pos 0) ≡ zero
    → if◌then◌else◌ {A = Result (Option (ℤ × List BackendDetails))} zero
        (ok none)
        (do bs ← found; ok (some (p, bs)))
      ≡ ok (some (port, backends))
    → ((node_port == pos 0) ≡ false) × (found ≡ ok backends)
sent true port p node_port found backends q h = cc
sent false port p node_port (err e) backends q h = err_not_ok e h
sent false port p node_port (ok bs) backends q h = (
  q,
  ap ok (
      ap (λ (x : Option (ℤ × List BackendDetails)). elim x [ none ↦ [] | some y ↦ y.1 ])
        (ok-injective h)),
)

-- The backends of a path have all the same port, and it is not 0.
pub node_path_backends-HasPort :
    (l : Listers) (nodes : List Node) (namespace : String) (s : IngressServiceBackend) (port : ℤ)
    (backends : List BackendDetails)
    → node_path_backends l nodes namespace s ≡ ok (some (port, backends))
    → (q : ℤ) × ((q == pos 0) ≡ false) × All (HasPort q) backends
unfolding node_path_backends
node_path_backends-HasPort l nodes namespace s port backends h =
    let (svc, h1, rest) = >>=-eq-ok (l.services namespace s.name) _ h in
    let (ports, h2, last) =
      >>=-eq-ok
        (get_target_port_for_service l.endpoints svc namespace s.name s.port.number s.port.name
          true)
        _ rest in
    let (positive, found) =
      sent (ports.1 == pos 0) port ports.0 ports.1
        (backends_of l nodes namespace s.name svc ports.1) backends refl last in
    (ports.1, positive, backends_of-HasPort l nodes namespace s.name svc ports.1 backends found)

-- A node that is not about to be deleted, has a condition, and no Ready condition that is not true.
abbrev pub IsReady : Node → Type 0
IsReady n =
    (has to_be_deleted_taint n.taints ≡ false)
    × (n.conditions ≢ [])
    × All (λ c. c.0 ≡ "Ready" → c.1 ≡ true) n.conditions

no_failing_ready-All :
    (conditions : List (String × Bool))
    → no_failing_ready conditions ≡ true
    → All (λ c. c.0 ≡ "Ready" → c.1 ≡ true) conditions
unfolding no_failing_ready
no_failing_ready-All [] h = tt
no_failing_ready-All ((type, status) ∷ cs) h =
    (λ q. ground (arith, ==_refl {A = String} "Ready"), no_failing_ready-All cs (ground arith))

accepted :
    (tainted : Bool) (conditions : List (String × Bool))
    → (if tainted
        then false
        else elim conditions [ [] ↦ false | c ∷ cs ↦ no_failing_ready (c ∷ cs) ])
      ≡ true
    → (tainted ≡ false) × (conditions ≢ []) × (no_failing_ready conditions ≡ true)
accepted true conditions h = cc
accepted false [] h = cc
accepted false (c ∷ cs) h = (refl, λ q. cc, h)

accepts-IsReady : (n : Node) → accepts n ≡ true → IsReady n
unfolding accepts
accepts-IsReady n h =
    let (kept, some_condition, passes) =
      accepted (has to_be_deleted_taint n.taints) n.conditions h in
    (kept, some_condition, no_failing_ready-All n.conditions passes)

-- The address is the internal one of a node of the list that is ready.
abbrev pub IsOfReady : List Node → BackendDetails → Type 0
IsOfReady all b = (n : Node) × Mem n all × (b.ip_address ≡ node_internal_ip n) × IsReady n

module _ (all : List Node) (port : ℤ) where
  chosen-IsOfReady :
      (n : Node) (rest : List Node) (b : Bool)
      → Mem n all
      → accepts n ≡ b
      → All (IsOfReady all) (map (λ n. new_backend (node_internal_ip n) port) rest)
      → All
          (IsOfReady all)
          (map (λ n. new_backend (node_internal_ip n) port) (if b then n ∷ rest else rest))
  unfolding new_backend
  chosen-IsOfReady n rest true m h later = ((n, m, refl, accepts-IsReady n h), later)
  chosen-IsOfReady n rest false m h later = later

  selected-IsOfReady :
      (nodes : List Node)
      → ((n : Node) → Mem n nodes → Mem n all)
      → All
          (IsOfReady all)
          (map (λ n. new_backend (node_internal_ip n) port) (select accepts nodes))
  unfolding new_backend
  selected-IsOfReady [] within = tt
  selected-IsOfReady (n ∷ nodes) within =
      chosen-IsOfReady n (select accepts nodes) (accepts n) (within n mem-cons_self) refl
        (selected-IsOfReady nodes (λ m there. within m (mem-cons_of_mem n there)))

-- Where the traffic policy is Cluster, every backend has the internal address of a node of the cluster
-- that is not about to be deleted, has a condition, and has no Ready condition that is not true.
pub backends_of-IsOfReady :
    (l : Listers) (all nodes : List Node) (namespace name : String) (svc : Service) (port : ℤ)
    (backends : List BackendDetails)
    → svc.external_traffic_policy ≡ "Cluster"
    → filter_nodes (ok all) ≡ ok nodes
    → backends_of l nodes namespace name svc port ≡ ok backends
    → All (IsOfReady all) backends
unfolding backends_of filter_nodes
backends_of-IsOfReady l all nodes namespace name svc port backends policy filtered h =
    let address : Node → BackendDetails = λ n. new_backend (node_internal_ip n) port in
    subst (All (IsOfReady all))
      (ap (map address) (ok-injective filtered)
        ∙ ok-injective (rw (policy, ==_refl {A = String} "Cluster") at h))
      (selected-IsOfReady all port all (λ n m. m))
