-- ===== src/LoadBalancer/Retried.antt =====
-- What an update does when its etag no longer matches (pkg/loadbalancer/loadbalancer.go).
use oci_native_ingress_contr.Common.{
  ◌≡◌, refl, ap, String, Bool, true, false, Option, is_some, string_eq, nat_eq, if◌then◌else◌,
}
use oci_native_ingress_contr.Exception.{
  Error, Result, ok, err, service, has_transient_error, is_service_error, service_status,
}
use oci_native_ingress_contr.LoadBalancer.Types.{LoadBalancer}
use oci_native_ingress_contr.LoadBalancer.Program.{
  Change, Program, done, looks, refreshes, waits, changes, updates_listener, asks_health, forgets,
  try_call, ◌>>=◌, send, wait, wait_for_work_request, get_load_balancer_bust_cache,
}
use oci_native_ingress_contr.LoadBalancer.Etags.{if_match}
use oci_native_ingress_contr.LoadBalancer.Lifecycle.{refresh_after, with_etag, etag_mismatch}

-- The method ends at once with an error that is transient.
abbrev pub GivesUp : {A : Type 0} → Program A → Type 0
GivesUp m = (e : Error) × (m ≡ done (err e)) × (has_transient_error e ≡ true)

module _ {A : Type 0} where
  -- Where OCI answers 412 to an update with an etag, the method gives up and asks for a retry,
  -- whatever was answered before.
  abbrev pub IsRetried : Program A → Type 0
  IsRetried (done r) = Unit
  IsRetried (looks id m) = (x : Result (LoadBalancer × String)) → IsRetried (m x)
  IsRetried (refreshes id m) = (x : Result (LoadBalancer × String)) → IsRetried (m x)
  IsRetried (waits id m) = (x : Result String) → IsRetried (m x)
  IsRetried (changes request m) =
      (is_some (if_match request) ≡ true → (code : String) → GivesUp (m (err (service 412 code))))
      × ((x : Result String) → IsRetried (m x))
  IsRetried (updates_listener id etag name details m) =
      ((code : String) → GivesUp (m (err (service 412 code))))
      × ((x : Result (Option String)) → IsRetried (m x))
  IsRetried (asks_health id name m) = (x : Result String) → IsRetried (m x)
  IsRetried (forgets id m) = IsRetried m

  pub if-IsRetried :
      (b : Bool) (m n : Program A) → IsRetried m → IsRetried n → IsRetried (if b then m else n)
  if-IsRetried true m n h k = h
  if-IsRetried false m n h k = k

  pub done-IsRetried : (r : Result A) → IsRetried (done r)
  done-IsRetried r = tt

module _ {A B : Type 0} where
  pub GivesUp-bind : (m : Program A) (rest : A → Program B) → GivesUp m → GivesUp (m >>= rest)
  unfolding try_call
  GivesUp-bind m rest (e, p, q) = (e, ap (λ x. x >>= rest) p, q)

  pub >>=-IsRetried :
      (m : Program A) (rest : A → Program B)
      → IsRetried m
      → ((a : A) → IsRetried (rest a))
      → IsRetried (m >>= rest)
  unfolding try_call
  >>=-IsRetried (done (ok a)) rest h g = g a
  >>=-IsRetried (done (err e)) rest h g = tt
  >>=-IsRetried (looks id m) rest h g = λ x. >>=-IsRetried (m x) rest (h x) g
  >>=-IsRetried (refreshes id m) rest h g = λ x. >>=-IsRetried (m x) rest (h x) g
  >>=-IsRetried (waits id m) rest h g = λ x. >>=-IsRetried (m x) rest (h x) g
  >>=-IsRetried (changes request m) rest h g = (
    λ p code. GivesUp-bind (m (err (service 412 code))) rest (h.0 p code),
    λ x. >>=-IsRetried (m x) rest (h.1 x) g,
  )
  >>=-IsRetried (updates_listener id etag name details m) rest h g = (
    λ code. GivesUp-bind (m (err (service 412 code))) rest (h.0 code),
    λ x. >>=-IsRetried (m x) rest (h.1 x) g,
  )
  >>=-IsRetried (asks_health id name m) rest h g = λ x. >>=-IsRetried (m x) rest (h x) g
  >>=-IsRetried (forgets id m) rest h g = >>=-IsRetried m rest h g

pub wait-IsRetried : (r : String) → IsRetried (wait r)
wait-IsRetried r = >>=-IsRetried (waits r done) (λ id. done (ok tt)) (λ x. tt) (λ a. tt)

-- A request whose failure is looked at.
pub request-IsRetried :
    (request : Change) (failure : Error → Result (Unit {0}))
    → (is_some (if_match request) ≡ true
        → (code : String)
        → (e : Error) × (failure (service 412 code) ≡ err e) × (has_transient_error e ≡ true))
    → IsRetried (try_call (send request) failure wait)
unfolding try_call
request-IsRetried request failure h =
    (λ p code. let (e, q, t) = h p code in (e, ap done q, t), answered)
  where
    answered : (x : Result String) → IsRetried (try_call (done x) failure wait)
    answered (ok r) = wait-IsRetried r
    answered (err e) = tt

pub with_etag-IsRetried : (text : String) (request : Change) → IsRetried (with_etag text request)
unfolding try_call etag_mismatch is_service_error service_status has_transient_error nat_eq
    native.Mathlib.Decide.ℕ_discrete
with_etag-IsRetried text request = (
  λ p code. (_, refl, refl),
  λ x.
      elim x
        as (λ y.
          IsRetried (try_call (done y) (λ e. err (etag_mismatch text e)) (λ r. done (ok r)))) [
            | ok a ↦ tt
            | err e ↦ tt
          ],
)

pub refresh_after-IsRetried : (r : String) → IsRetried (refresh_after r)
refresh_after-IsRetried r =
    >>=-IsRetried (wait_for_work_request r) _ (λ x. tt)
      (λ id.
        >>=-IsRetried (get_load_balancer_bust_cache id) (λ answer. done (ok answer.0)) (λ x. tt)
          (λ a. tt))
