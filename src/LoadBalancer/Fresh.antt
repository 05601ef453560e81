-- ===== src/LoadBalancer/Fresh.antt =====
-- What GetLoadBalancer answers after any calls of the client's methods
-- (pkg/loadbalancer/loadbalancer.go).
use oci_native_ingress_contr.Common.{
  ℕ, ◌+◌, ◌<◌, ◌≡◌, true, subst, String, List, [], ◌∷◌, inl, inr, arith, Option-cases, Bool-cases,
  string_eq,
}
use oci_native_ingress_contr.Common.Map.{lookup}
use oci_native_ingress_contr.Exception.{ok}
use oci_native_ingress_contr.Exception.Laws.{Result-cases, ok-injective, err_not_ok}
use oci_native_ingress_contr.LoadBalancer.Types.{LoadBalancer, LbCacheObj}
use oci_native_ingress_contr.LoadBalancer.Client.{
  Oci, Client, run, cache_max_age, is_fresh, get_load_balancer, get_load_balancer_bust_cache,
}
use oci_native_ingress_contr.LoadBalancer.Program.{Program}
use oci_native_ingress_contr.LoadBalancer.History.{History, IsHistory, IsSound}
use oci_native_ingress_contr.LoadBalancer.Cache.{run-Keeps}

-- `New`
abbrev pub new_client : {W : Type 0} → W → Client W
new_client w = record { cache = []; world = w }

module _ {W : Type 0} (oci : Oci W) where
  -- Calls of methods, one after the other.
  unfoldable pub run_all : List (Program (Unit {0})) → Client W → Client W
  run_all [] c = c
  run_all (m ∷ ms) c = run_all ms (run oci m c).1

is_fresh-lt :
    (now : ℕ) (entry : LbCacheObj) → is_fresh now entry ≡ true → now < entry.age + cache_max_age
unfolding is_fresh
is_fresh-lt now entry h = ground arith

module _ {W : Type 0} (seen : History W) (oci : Oci W) where
  -- An answer for the identifier that OCI gave when the clock showed `t`, less than a minute ago.
  abbrev pub IsRecent : String → LoadBalancer × String → W → Type 0
  IsRecent id (lb, etag) w =
      (lb.id ≡ id) × ((t : ℕ) × seen w t lb etag × (oci.now w < t + cache_max_age))

module _ {W : Type 0} (seen : History W) (oci : Oci W) (history : IsHistory seen oci) where
  run_all-IsSound :
      (ms : List (Program (Unit {0}))) (c : Client W)
      → IsSound seen c
      → IsSound seen (run_all oci ms c)
  unfolding run_all
  run_all-IsSound [] c sound = sound
  run_all-IsSound (m ∷ ms) c sound =
      run_all-IsSound ms (run oci m c).1 (run-Keeps seen oci history m c sound)

  new_client-IsSound : (w : W) → IsSound seen (new_client w)
  unfolding lookup
  new_client-IsSound w id entry p = cc

  get_load_balancer_bust_cache-IsRecent :
      (id : String) (c : Client W) (answer : LoadBalancer × String)
      → (get_load_balancer_bust_cache oci id c).0 ≡ ok answer
      → IsRecent seen oci id answer (get_load_balancer_bust_cache oci id c).1.world
  unfolding get_load_balancer_bust_cache
  get_load_balancer_bust_cache-IsRecent id c answer p =
      elim (Result-cases (oci.get_load_balancer id c.world).0) [
        | inl (e, q) ↦ err_not_ok e (rw (q, get_load_balancer_bust_cache) at p)
        | inr (given, q) ↦
            let d = (oci.get_load_balancer id c.world).1 in
            let known = history.answered id c.world given.0 given.1 q in
            rw (q, get_load_balancer_bust_cache)
              (subst (λ x. IsRecent seen oci id x d)
                (ok-injective (rw (q, get_load_balancer_bust_cache) at p))
                (known.0, (oci.now d, known.1, omega arith)))
      ]

  get_load_balancer-IsRecent :
      (id : String) (c : Client W) (answer : LoadBalancer × String)
      → IsSound seen c
      → (get_load_balancer oci id c).0 ≡ ok answer
      → IsRecent seen oci id answer (get_load_balancer oci id c).1.world
  unfolding get_load_balancer
  get_load_balancer-IsRecent id c answer sound p = elim (Option-cases (lookup id c.cache)) [
    | inl q ↦
        rw (q, get_load_balancer)
          (get_load_balancer_bust_cache-IsRecent id c answer (rw (q, get_load_balancer) at p))
    | inr (entry, q) ↦ elim (Bool-cases (is_fresh (oci.now c.world) entry)) [
      | inl fresh ↦
          let (same, old) = sound id entry q in
          rw (q, fresh, get_load_balancer)
            (subst (λ x. IsRecent seen oci id x c.world)
              (ok-injective (rw (q, fresh, get_load_balancer) at p))
              (same, (entry.age, old, is_fresh-lt (oci.now c.world) entry fresh)))
      | inr old ↦
          rw (q, old, get_load_balancer)
            (get_load_balancer_bust_cache-IsRecent id c answer
              (rw (q, old, get_load_balancer) at p))
    ]
  ]

  -- Whatever methods were called before, from a new client, and whatever OCI answered to them: a
  -- load balancer that `GetLoadBalancer` returns has the identifier that was asked for, and OCI
  -- answered it, with this etag, less than a minute ago.
  pub run_all-IsRecent :
      (ms : List (Program (Unit {0}))) (w : W) (id : String) (answer : LoadBalancer × String)
      → (get_load_balancer oci id (run_all oci ms (new_client w))).0 ≡ ok answer
      → IsRecent seen oci id answer
          (get_load_balancer oci id (run_all oci ms (new_client w))).1.world
  run_all-IsRecent ms w id answer p =
      get_load_balancer-IsRecent id (run_all oci ms (new_client w)) answer
        (run_all-IsSound ms (new_client w) (new_client-IsSound w)) p
