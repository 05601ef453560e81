-- ===== src/RoutingPolicy/Stale.antt =====
-- Which routing policies ensureRoutingRules deletes
-- (pkg/controllers/routingpolicy/routingpolicy.go).
use oci_native_ingress_contr.Common.{
  ◌≡◌, String, Bool, true, false, Option, none, some, List, [], ◌∷◌, is_some, arith, if◌then◌else◌,
  string_eq, All, Option-cases, inl, inr,
}
use oci_native_ingress_contr.Common.Map.{Map, lookup, keys}
use oci_native_ingress_contr.Common.Set
use oci_native_ingress_contr.Common.Set.{Set, has}
use oci_native_ingress_contr.Exception.{Result, ok, err}
use oci_native_ingress_contr.Exception.Laws.{Result-cases}
use oci_native_ingress_contr.Kube.{Digest}
use oci_native_ingress_contr.RoutingPolicy.{ListenerPath, Routes, RoutingRule, build_routing_rules}
use oci_native_ingress_contr.RoutingPolicy.Sync.{
  first_error, detach, ensure_listeners, delete_stale, delete_all_stale, sync_routes,
}
use oci_native_ingress_contr.LoadBalancer.Types.{
  LoadBalancer, Listener, SslConfigurationDetails, ConnectionConfiguration, UpdateListenerDetails,
}
use oci_native_ingress_contr.LoadBalancer.Program.{
  Change, Program, done, try_call, get_load_balancer, waits,
}
use oci_native_ingress_contr.LoadBalancer.Every.{
  Every, if-Every, done-Every, attempt-Every, try_call-Every, request-Every,
}
use oci_native_ingress_contr.LoadBalancer.ListenerDetails.{ssl_to_send, wrap_multi_certificate}
use oci_native_ingress_contr.LoadBalancer.Listeners.{
  update_listener, update_listener_with_connection, finish_listener, listener_failure,
}
use oci_native_ingress_contr.LoadBalancer.Policies.{
  create_routing_policy, update_routing_policy_rules, set_routing_policy_on_listener,
  ensure_routing_policy, delete_routing_policy, listener_named,
}

-- No policy of the set is deleted, and nothing else is deleted or created than routing policies.
abbrev pub Spares : Set String → Change → Type 0
Spares desired (Change.delete_routing_policy id name) = has name desired ≡ false
Spares desired (Change.create_routing_policy id name rules) = Unit
Spares desired (Change.update_routing_policy id etag name rules) = Unit
Spares desired _ = ⊥

abbrev Anything : String → UpdateListenerDetails → Type 0
Anything name details = Unit

-- Whatever a program is answered, it spares the policies of the set.
abbrev pub IsSparing : {A : Type 0} → Set String → Program A → Type 0
IsSparing desired m = Every (Spares desired) Anything m

pub difference-Stale : (s t : Set String) → All (λ name. has name t ≡ false) (Set.difference s t)
unfolding Set.difference
difference-Stale [] t = tt
difference-Stale (x ∷ xs) t = ground (arith, difference-Stale xs t)

module _ (desired : Set String) where
  waited :
      (ssl : Option SslConfigurationDetails) (a : Option String)
      → IsSparing desired (finish_listener ssl a)
  waited ssl none = tt
  waited ssl (some r) =
      try_call-Every (Spares desired) Anything (waits r done)
        (λ e. err (wrap_multi_certificate ssl e)) (λ id. done (ok tt)) (λ x. tt) (λ id. tt)

  answered :
      (ssl : Option SslConfigurationDetails) (x : Result (Option String))
      → IsSparing desired (try_call (done x) (listener_failure ssl) (finish_listener ssl))
  unfolding try_call
  answered ssl (err e) = tt
  answered ssl (ok a) = waited ssl a

  update_listener-IsSparing :
      (id etag : String) (l : Listener) (policy : Option String)
      (ssl : Option SslConfigurationDetails) (connection : Option ConnectionConfiguration)
      (protocol backend_set : Option String) (preserve : Bool)
      → IsSparing desired
          (update_listener id etag l policy ssl connection protocol backend_set preserve)
  unfolding update_listener try_call
  update_listener-IsSparing id etag l policy ssl connection protocol backend_set preserve =
      elim (Result-cases (ssl_to_send preserve ssl l)) [
        | inl (e, q) ↦ rw (q, update_listener) tt
        | inr (sent, q) ↦ rw (q, update_listener) (tt, answered sent)
      ]

  create_routing_policy-IsSparing :
      (id name : String) (rules : List RoutingRule)
      → IsSparing desired (create_routing_policy id name rules)
  unfolding create_routing_policy try_call
  create_routing_policy-IsSparing id name rules (err e) = tt
  create_routing_policy-IsSparing id name rules (ok (lb, etag)) =
      search (if-Every, done-Every, request-Every)

  update_routing_policy_rules-IsSparing :
      (id name : String) (rules : List RoutingRule)
      → IsSparing desired (update_routing_policy_rules id name rules)
  unfolding update_routing_policy_rules try_call
  update_routing_policy_rules-IsSparing id name rules (err e) = tt
  update_routing_policy_rules-IsSparing id name rules (ok (lb, etag)) =
      search (if-Every, done-Every, request-Every)

  set_routing_policy_on_listener-IsSparing :
      (id name : String) → IsSparing desired (set_routing_policy_on_listener id name)
  unfolding set_routing_policy_on_listener try_call
  set_routing_policy_on_listener-IsSparing id name (err e) = tt
  set_routing_policy_on_listener-IsSparing id name (ok (lb, etag)) =
      elim (Option-cases (listener_named name lb.listeners)) [
        | inl q ↦ rw (q, set_routing_policy_on_listener) tt
        | inr (l, q) ↦
            rw (q, set_routing_policy_on_listener)
              (search (if-Every, done-Every, update_listener-IsSparing))
      ]

  ensure_routing_policy-IsSparing :
      (id name : String) (rules : List RoutingRule)
      → IsSparing desired (ensure_routing_policy id name rules)
  unfolding ensure_routing_policy try_call
  ensure_routing_policy-IsSparing id name rules (err e) = tt
  ensure_routing_policy-IsSparing id name rules (ok (lb, etag)) =
      let there = is_some (lookup name lb.routing_policies) in
      try_call-Every (Spares desired) Anything
        (if there then done (ok tt) else create_routing_policy id name rules) err _
        (if-Every (Spares desired) Anything there (done (ok tt))
          (create_routing_policy id name rules) tt (create_routing_policy-IsSparing id name rules))
        (λ u.
          try_call-Every (Spares desired) Anything (set_routing_policy_on_listener id name) err _
            (set_routing_policy_on_listener-IsSparing id name)
            (λ v. update_routing_policy_rules-IsSparing id name rules))

  ensure_listeners-IsSparing :
      (sha256_hex : Digest) (id : String) (paths : Map String (List (Option ListenerPath)))
      → IsSparing desired (ensure_listeners sha256_hex id paths)
  unfolding ensure_listeners
  ensure_listeners-IsSparing sha256_hex id [] = tt
  ensure_listeners-IsSparing sha256_hex id ((name, ps) ∷ rest) =
      attempt-Every (Spares desired) Anything
        (ensure_routing_policy id name (build_routing_rules sha256_hex ps)) _
        (ensure_routing_policy-IsSparing id name (build_routing_rules sha256_hex ps))
        (λ r.
          try_call-Every (Spares desired) Anything (ensure_listeners sha256_hex id rest) err
            (λ later. done (ok (first_error r later)))
            (ensure_listeners-IsSparing sha256_hex id rest) (λ later. tt))

  detach-IsSparing :
      (lb : LoadBalancer) (etag : String) (l : Option Listener)
      → IsSparing desired (detach lb etag l)
  unfolding update_listener_with_connection
  detach-IsSparing lb etag none = tt
  detach-IsSparing lb etag (some l) =
      update_listener-IsSparing lb.id etag l none none none l.protocol none true

  delete_routing_policy-IsSparing :
      (id name : String)
      → has name desired ≡ false
      → IsSparing desired (delete_routing_policy id name)
  unfolding delete_routing_policy
  delete_routing_policy-IsSparing id name stale =
      request-Every (Spares desired) Anything (Change.delete_routing_policy id name) _ stale

  delete_stale-IsSparing :
      (id name : String) → has name desired ≡ false → IsSparing desired (delete_stale id name)
  unfolding delete_stale try_call
  delete_stale-IsSparing id name stale (err e) = tt
  delete_stale-IsSparing id name stale (ok (lb, etag)) =
      try_call-Every (Spares desired) Anything (detach lb etag (lookup name lb.listeners)) err _
        (detach-IsSparing lb etag (lookup name lb.listeners))
        (λ u.
          try_call-Every (Spares desired) Anything (get_load_balancer id) err _ (λ x. tt)
            (λ (lb', etag').
              if-Every (Spares desired) Anything (is_some (lookup name lb'.routing_policies))
                (delete_routing_policy id name) (done (ok tt))
                (delete_routing_policy-IsSparing id name stale) tt))

  delete_all_stale-IsSparing :
      (id : String) (names : List String)
      → All (λ name. has name desired ≡ false) names
      → IsSparing desired (delete_all_stale id names)
  unfolding delete_all_stale
  delete_all_stale-IsSparing id [] stale = tt
  delete_all_stale-IsSparing id (name ∷ names) stale =
      try_call-Every (Spares desired) Anything (delete_stale id name) err _
        (delete_stale-IsSparing id name stale.0) (λ u. delete_all_stale-IsSparing id names stale.1)

-- Whatever OCI answers, the sync deletes no routing policy that an Ingress wants, and changes
-- nothing but routing policies and listeners.
pub sync_routes-IsSparing :
    (sha256_hex : Digest) (id : String) (routes : Routes)
    → IsSparing routes.desired (sync_routes sha256_hex id routes)
unfolding sync_routes try_call
sync_routes-IsSparing sha256_hex id routes =
    let listeners = ensure_listeners sha256_hex id routes.listener_paths in
    try_call-Every (Spares routes.desired) Anything listeners err _
      (ensure_listeners-IsSparing routes.desired sha256_hex id routes.listener_paths)
      (λ failure.
        try_call-Every (Spares routes.desired) Anything (get_load_balancer id) err _ (λ x. tt)
          (λ (lb, etag).
            let stale = Set.difference (Set.from_list (keys lb.routing_policies)) routes.desired in
            try_call-Every (Spares routes.desired) Anything (delete_all_stale id stale) err _
              (delete_all_stale-IsSparing routes.desired id stale
                (difference-Stale (Set.from_list (keys lb.routing_policies)) routes.desired))
              (λ u. tt)))
