-- ===== src/LoadBalancer/Client.antt =====
-- The client's state, its cache and the wait for a work request (pkg/loadbalancer/loadbalancer.go).
-- OCI and the clock are a parameter: each call of the SDK takes the world to an answer and a world.
-- A request's context is its deadline; times are in nanoseconds.
use oci_native_ingress_contr.Common.{
  ℕ, zero, suc, ◌-◌, ◌+◌, String, Bool, false, ◌&&◌, ◌||◌, ltb, Option, none, some, List, [], ◌∷◌,
  ◌==◌, string_eq, if◌then◌else◌,
}
use oci_native_ingress_contr.Common.Map.{Map, lookup, insert}
use oci_native_ingress_contr.Common.Text.{contains}
use oci_native_ingress_contr.Exception.{Error, Result, ok, err, plain, transient}
use oci_native_ingress_contr.LoadBalancer.Types.{
  LoadBalancer, LbCacheObj, WorkRequest, WorkRequestError, succeeded, failed, other_state,
  UpdateListenerDetails,
}
use oci_native_ingress_contr.LoadBalancer.Program.{
  Change, Program, done, looks, refreshes, waits, changes, updates_listener, asks_health, forgets,
}

-- A call of the SDK.
abbrev pub Call : Type 0 → Type 0 → Type 0
Call W A = W → Result A × W

-- `client.LoadBalancerInterface`, `time.Now` and `time.Sleep`. A look at a work request takes its
-- deadline.
pub record Oci (W : Type 0) : Type 0 where
  pub now : W → ℕ
  pub sleep : ℕ → W → W
  pub get_load_balancer : String → Call W (LoadBalancer × String)
  pub get_work_request : ℕ → String → Call W WorkRequest
  pub get_backend_set_health : String → String → Call W String
  pub change : Change → Call W String
  -- The identifier may be missing.
  pub update_listener : String → String → String → UpdateListenerDetails → Call W (Option String)

-- `LoadBalancerClient` and the world around it.
pub record Client (W : Type 0) : Type 0 where
  pub cache : Map String LbCacheObj
  pub world : W

-- What a call returns, and the client after it, also where it fails.
abbrev pub Action : Type 0 → Type 0 → Type 0
Action W A = Client W → Result A × Client W

abbrev pub send : {W A : Type 0} → Call W A → Action W A
send call c = let (r, w) = call c.world in (r, record c { world = w })

-- `LBCacheMaxAgeInMinutes`, the timeout of a work request, and the pause between two looks at it.
abbrev pub cache_max_age : ℕ
cache_max_age = 60000000000

abbrev pub work_request_timeout : ℕ
work_request_timeout = 300000000000

abbrev pub poll_pause : ℕ
poll_pause = 10000000000

-- More looks do not fit into the timeout.
abbrev pub max_polls : ℕ
max_polls = 31

-- `"has no listener"` or `"has no backend set"` in a text that may be missing
abbrev names_missing_part : Option String → Bool
names_missing_part none = false
names_missing_part (some m) = contains m "has no listener" || contains m "has no backend set"

-- The error of a work request that failed.
unfoldable pub work_request_failure : List WorkRequestError → Error
unfolding contains
work_request_failure [] = plain "work request failed"
work_request_failure (e ∷ es) =
    if e.error_code == "BAD_INPUT" && names_missing_part e.message
    then transient (plain "work request failed")
    else plain "work request failed"

-- The age of an entry, which a clock that went back makes 0, is less than a minute.
unfoldable pub is_fresh : ℕ → LbCacheObj → Bool
is_fresh now entry = ltb (now - entry.age) cache_max_age

module _ {W : Type 0} (oci : Oci W) where
  -- `setCache`
  unfoldable pub set_cache : LoadBalancer → String → Client W → Client W
  set_cache lb etag c = record c {
    cache = insert lb.id (record { lb = lb; age = oci.now c.world; etag = etag }) c.cache;
  }

  -- `getLoadBalancerBustCache`
  unfoldable pub get_load_balancer_bust_cache : String → Action W (LoadBalancer × String)
  unfolding set_cache
  get_load_balancer_bust_cache lb_id c =
      let (r, d) = send (oci.get_load_balancer lb_id) c in
      elim r [ err e ↦ (err e, d) | ok answer ↦ (ok answer, set_cache answer.0 answer.1 d) ]

  -- `GetLoadBalancer`
  unfoldable pub get_load_balancer : String → Action W (LoadBalancer × String)
  unfolding get_load_balancer_bust_cache is_fresh
  get_load_balancer lb_id c = elim (lookup lb_id c.cache) [
    | none ↦ get_load_balancer_bust_cache lb_id c
    | some entry ↦
        if is_fresh (oci.now c.world) entry
        then (ok (entry.lb, entry.etag), c)
        else get_load_balancer_bust_cache lb_id c
  ]

  -- The loop of `waitForWorkRequest`; `none` if it goes on after the given number of rounds.
  unfoldable pub poll : ℕ → ℕ → String → Client W → Option (Result String × Client W)
  unfolding get_load_balancer_bust_cache work_request_failure
  poll zero deadline request c = none
  poll (suc n) deadline request c =
      let (r, w) = oci.get_work_request deadline request c.world in
      elim r [
        | err e ↦ some (err e, record c { world = w })
        | ok answer ↦ elim answer.lifecycle_state [
          | succeeded ↦ some (
            ok answer.load_balancer_id,
            (get_load_balancer_bust_cache answer.load_balancer_id (record c { world = w })).1,
          )
          | failed ↦ some (err (work_request_failure answer.error_details), record c { world = w })
          | other_state s ↦ poll n deadline request (record c { world = oci.sleep poll_pause w })
        ]
      ]

  -- `waitForWorkRequest`
  unfoldable pub wait_for_work_request : String → Action W String
  unfolding poll
  wait_for_work_request request c =
      elim (poll max_polls (oci.now c.world + work_request_timeout) request c) [
        | none ↦ (err (plain "the loop goes on"), c)
        | some result ↦ result
      ]

  -- `removeFromCache`, which reads the entry and keeps it.
  unfoldable pub remove_from_cache : String → Client W → Option LbCacheObj × Client W
  remove_from_cache lb_id c = (lookup lb_id c.cache, c)

  -- The run of a method.
  unfoldable pub run : {A : Type 0} → Program A → Action W A
  unfolding get_load_balancer get_load_balancer_bust_cache wait_for_work_request remove_from_cache
  run (done r) c = (r, c)
  run (looks id m) c = let (r, d) = get_load_balancer id c in run (m r) d
  run (refreshes id m) c = let (r, d) = get_load_balancer_bust_cache id c in run (m r) d
  run (waits id m) c = let (r, d) = wait_for_work_request id c in run (m r) d
  run (changes request m) c = let (r, d) = send (oci.change request) c in run (m r) d
  run (updates_listener id etag name details m) c =
      let (r, d) = send (oci.update_listener id etag name details) c in run (m r) d
  run (asks_health id name m) c =
      let (r, d) = send (oci.get_backend_set_health id name) c in run (m r) d
  run (forgets id m) c = let (entry, d) = remove_from_cache id c in run m d
