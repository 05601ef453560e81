-- ===== src/LoadBalancer/Cache.antt =====
-- Every operation of the client keeps its cache sound (pkg/loadbalancer/loadbalancer.go).
use oci_native_ingress_contr.Common.{
  ℕ, ◌+◌, ◌≡◌, string_eq, sym, subst, String, inl, inr, Option-cases, Bool-cases,
}
use oci_native_ingress_contr.Common.Map.{lookup, lookup-insert_cases}
use oci_native_ingress_contr.Exception.{Result}
use oci_native_ingress_contr.Exception.Laws.{Result-cases}
use oci_native_ingress_contr.LoadBalancer.Types.{LoadBalancer}
use oci_native_ingress_contr.LoadBalancer.Client.{
  Oci, Client, send, set_cache, get_load_balancer_bust_cache, get_load_balancer,
  wait_for_work_request, work_request_timeout, is_fresh, poll, poll_pause, max_polls, run,
}
use oci_native_ingress_contr.LoadBalancer.Program.{
  Program, done, looks, refreshes, waits, changes, updates_listener, asks_health, forgets,
}
use oci_native_ingress_contr.LoadBalancer.History.{History, IsHistory, IsSound, Keeps, send-Keeps}
use oci_native_ingress_contr.LoadBalancer.Wait.{
  Waits, fails, ends_well, ends_badly, goes_on, poll-Waits,
}

module _ {W : Type 0} (seen : History W) (oci : Oci W) where
  -- An answer that was just seen may be put into the cache.
  pub set_cache-IsSound :
      (lb : LoadBalancer) (etag : String) (c : Client W)
      → seen c.world (oci.now c.world) lb etag
      → IsSound seen c
      → IsSound seen (set_cache oci lb etag c)
  unfolding set_cache
  set_cache-IsSound lb etag c fresh sound id entry p =
      elim (lookup-insert_cases id lb.id (record { lb = lb; age = oci.now c.world; etag = etag })
        entry c.cache p) [
          | inl (same, new) ↦
              subst (λ x. (x.lb.id ≡ id) × seen c.world x.age x.lb x.etag) new (sym same, fresh)
          | inr old ↦ sound id entry old
        ]

module _ {W : Type 0} (seen : History W) (oci : Oci W) (history : IsHistory seen oci) where
  pub get_load_balancer_bust_cache-Keeps :
      (id : String) → Keeps seen (get_load_balancer_bust_cache oci id)
  unfolding get_load_balancer_bust_cache
  get_load_balancer_bust_cache-Keeps id c sound =
      let asked = send-Keeps seen (oci.get_load_balancer id) (history.gets id) c sound in
      elim (Result-cases (oci.get_load_balancer id c.world).0) [
        | inl (e, q) ↦ rw (q, get_load_balancer_bust_cache) asked
        | inr (answer, q) ↦
            rw (q, get_load_balancer_bust_cache)
              (set_cache-IsSound seen oci answer.0 answer.1 (send (oci.get_load_balancer id) c).1
                (history.answered id c.world answer.0 answer.1 q).1 asked)
      ]

  pub get_load_balancer-Keeps : (id : String) → Keeps seen (get_load_balancer oci id)
  unfolding get_load_balancer
  get_load_balancer-Keeps id c sound = elim (Option-cases (lookup id c.cache)) [
    | inl q ↦ rw (q, get_load_balancer) (get_load_balancer_bust_cache-Keeps id c sound)
    | inr (entry, q) ↦ elim (Bool-cases (is_fresh (oci.now c.world) entry)) [
      | inl fresh ↦ rw (q, fresh, get_load_balancer) sound
      | inr old ↦ rw (q, old, get_load_balancer) (get_load_balancer_bust_cache-Keeps id c sound)
    ]
  ]

  sleep-IsSound :
      (c : Client W)
      → IsSound seen c
      → IsSound seen (record c { world = oci.sleep poll_pause c.world })
  sleep-IsSound c sound id entry p =
      let (same, old) = sound id entry p in
      (same, history.sleeps poll_pause c.world entry.age entry.lb entry.etag old)

  -- A run of the loop, by its steps.
  Waits-IsSound :
      (d : ℕ) (r : String) {c : Client W} {result : Result String × Client W}
      → Waits oci d r c result
      → IsSound seen c
      → IsSound seen result.1
  Waits-IsSound d r (fails c e p) sound =
      send-Keeps seen (oci.get_work_request d r) (history.looks d r) c sound
  Waits-IsSound d r (ends_well c a p q) sound =
      get_load_balancer_bust_cache-Keeps a.load_balancer_id (send (oci.get_work_request d r) c).1
        (send-Keeps seen (oci.get_work_request d r) (history.looks d r) c sound)
  Waits-IsSound d r (ends_badly c a p q) sound =
      send-Keeps seen (oci.get_work_request d r) (history.looks d r) c sound
  Waits-IsSound d r (goes_on c a s result p q rest) sound = Waits-IsSound d r rest (
      sleep-IsSound (send (oci.get_work_request d r) c).1
        (send-Keeps seen (oci.get_work_request d r) (history.looks d r) c sound))

  pub wait_for_work_request-Keeps : (r : String) → Keeps seen (wait_for_work_request oci r)
  unfolding wait_for_work_request
  wait_for_work_request-Keeps r c sound =
      let d = oci.now c.world + work_request_timeout in
      elim (Option-cases (poll oci max_polls d r c)) [
        | inl stuck ↦ rw (stuck, wait_for_work_request) sound
        | inr (result, q) ↦
            rw (q, wait_for_work_request)
              (Waits-IsSound d r (poll-Waits oci max_polls d r c result q) sound)
      ]

  -- No method breaks the cache, whatever OCI answers to it.
  pub run-Keeps : {A : Type 0} (m : Program A) → Keeps seen (run oci m)
  unfolding run
  run-Keeps (done r) c sound = sound
  run-Keeps (looks id m) c sound =
      run-Keeps (m (get_load_balancer oci id c).0) (get_load_balancer oci id c).1
        (get_load_balancer-Keeps id c sound)
  run-Keeps (refreshes id m) c sound =
      run-Keeps (m (get_load_balancer_bust_cache oci id c).0)
        (get_load_balancer_bust_cache oci id c).1 (get_load_balancer_bust_cache-Keeps id c sound)
  run-Keeps (waits id m) c sound =
      run-Keeps (m (wait_for_work_request oci id c).0) (wait_for_work_request oci id c).1
        (wait_for_work_request-Keeps id c sound)
  run-Keeps (changes request m) c sound =
      run-Keeps (m (send (oci.change request) c).0) (send (oci.change request) c).1
        (send-Keeps seen (oci.change request) (history.changed request) c sound)
  run-Keeps (updates_listener id etag name details m) c sound =
      let call = oci.update_listener id etag name details in
      run-Keeps (m (send call c).0) (send call c).1
        (send-Keeps seen call (history.updates id etag name details) c sound)
  run-Keeps (asks_health id name m) c sound =
      let call = oci.get_backend_set_health id name in
      run-Keeps (m (send call c).0) (send call c).1
        (send-Keeps seen call (history.healths id name) c sound)
  run-Keeps (forgets id m) c sound = run-Keeps m c sound
