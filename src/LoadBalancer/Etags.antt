-- ===== src/LoadBalancer/Etags.antt =====
-- The etags of the updates (pkg/loadbalancer/loadbalancer.go).
use oci_native_ingress_contr.Common.{
  ◌≡◌, String, Bool, true, false, Option, none, some, if◌then◌else◌, string_eq,
}
use oci_native_ingress_contr.Exception.{Error, Result, ok, err}
use oci_native_ingress_contr.LoadBalancer.Types.{LoadBalancer}
use oci_native_ingress_contr.LoadBalancer.Program.{
  Change, Program, done, looks, refreshes, waits, changes, updates_listener, asks_health, forgets,
  attempt, try_call, send, wait,
}

-- The etag that a request must match, if it has one.
abbrev pub if_match : Change → Option String
if_match (Change.update_network_security_groups id etag x) = some etag
if_match (Change.update_load_balancer_shape id etag x) = some etag
if_match (Change.update_load_balancer id etag x) = some etag
if_match (Change.update_routing_policy id etag name x) = some etag
if_match (Change.update_backend_set id etag name x) = some etag
if_match _ = none

abbrev pub Matches : Option String → Option String → Type 0
Matches last none = Unit
Matches last (some etag) = last ≡ some etag

abbrev etag_after : Option String → Result (LoadBalancer × String) → Option String
etag_after last (ok (lb, etag)) = some etag
etag_after last (err e) = last

module _ {A : Type 0} where
  -- Every update has the etag of the last load balancer that the method was given, which is `last`
  -- at its start, whatever is answered to it.
  abbrev pub IsGuarded : Option String → Program A → Type 0
  IsGuarded last (done r) = Unit
  IsGuarded last (looks id m) =
      (x : Result (LoadBalancer × String)) → IsGuarded (etag_after last x) (m x)
  IsGuarded last (refreshes id m) =
      (x : Result (LoadBalancer × String)) → IsGuarded (etag_after last x) (m x)
  IsGuarded last (waits id m) = (x : Result String) → IsGuarded last (m x)
  IsGuarded last (changes request m) =
      Matches last (if_match request) × ((x : Result String) → IsGuarded last (m x))
  IsGuarded last (updates_listener id etag name details m) =
      (last ≡ some etag) × ((x : Result (Option String)) → IsGuarded last (m x))
  IsGuarded last (asks_health id name m) = (x : Result String) → IsGuarded last (m x)
  IsGuarded last (forgets id m) = IsGuarded last m

  pub if-IsGuarded :
      (last : Option String) (b : Bool) (m n : Program A)
      → IsGuarded last m
      → IsGuarded last n
      → IsGuarded last (if b then m else n)
  if-IsGuarded last true m n h k = h
  if-IsGuarded last false m n h k = k

  pub done-IsGuarded : (last : Option String) (r : Result A) → IsGuarded last (done r)
  done-IsGuarded last r = tt

-- The second method looks for itself.
pub attempt-IsGuarded :
    {A B : Type 0} (last : Option String) (m : Program A) (k : Result A → Program B)
    → IsGuarded last m
    → ((now : Option String) (r : Result A) → IsGuarded now (k r))
    → IsGuarded last (attempt m k)
unfolding attempt
attempt-IsGuarded last (done r) k h g = g last r
attempt-IsGuarded last (looks id m) k h g =
    λ x. attempt-IsGuarded (etag_after last x) (m x) k (h x) g
attempt-IsGuarded last (refreshes id m) k h g =
    λ x. attempt-IsGuarded (etag_after last x) (m x) k (h x) g
attempt-IsGuarded last (waits id m) k h g = λ x. attempt-IsGuarded last (m x) k (h x) g
attempt-IsGuarded last (changes request m) k h g =
    (h.0, λ x. attempt-IsGuarded last (m x) k (h.1 x) g)
attempt-IsGuarded last (updates_listener id etag name details m) k h g =
    (h.0, λ x. attempt-IsGuarded last (m x) k (h.1 x) g)
attempt-IsGuarded last (asks_health id name m) k h g = λ x. attempt-IsGuarded last (m x) k (h x) g
attempt-IsGuarded last (forgets id m) k h g = attempt-IsGuarded last m k h g

pub try_call-IsGuarded :
    {A B : Type 0} (last : Option String) (m : Program A) (failure : Error → Result B)
    (rest : A → Program B)
    → IsGuarded last m
    → ((now : Option String) (a : A) → IsGuarded now (rest a))
    → IsGuarded last (try_call m failure rest)
unfolding try_call
try_call-IsGuarded last m failure rest h g = attempt-IsGuarded last m _ h after_it
  where
    after_it :
        (now : Option String) (r : Result _)
        → IsGuarded now (elim r [ err e ↦ done (failure e) | ok a ↦ rest a ])
    after_it now (ok a) = g now a
    after_it now (err e) = tt

pub wait-IsGuarded : (last : Option String) (r : String) → IsGuarded last (wait r)
wait-IsGuarded last r = try_call-IsGuarded last (waits r done) err _ (λ x. tt) (λ now a. tt)

pub request-IsGuarded :
    (last : Option String) (request : Change) (failure : Error → Result (Unit {0}))
    → Matches last (if_match request)
    → IsGuarded last (try_call (send request) failure wait)
request-IsGuarded last request failure h =
    try_call-IsGuarded last (send request) failure wait (h, λ x. tt) wait-IsGuarded
