-- ===== src/LoadBalancer/Every.antt =====
-- The changes that a program may ask for.
use oci_native_ingress_contr.Common.{◌≡◌, refl, String, Bool, true, false, Option, if◌then◌else◌}
use oci_native_ingress_contr.Exception.{Error, Result, ok, err}
use oci_native_ingress_contr.LoadBalancer.Types.{LoadBalancer, UpdateListenerDetails}
use oci_native_ingress_contr.LoadBalancer.Program.{
  Change, Program, done, looks, refreshes, waits, changes, updates_listener, asks_health, forgets,
  attempt, try_call, send, wait,
}

module _ (P : Change → Type 0) (Q : String → UpdateListenerDetails → Type 0) where
  -- Every change satisfies `P`, every update of a listener `Q`, whatever is answered.
  abbrev pub Every : {A : Type 0} → Program A → Type 0
  Every (done r) = Unit
  Every (looks id m) = (x : Result (LoadBalancer × String)) → Every (m x)
  Every (refreshes id m) = (x : Result (LoadBalancer × String)) → Every (m x)
  Every (waits id m) = (x : Result String) → Every (m x)
  Every (changes request m) = P request × ((x : Result String) → Every (m x))
  Every (updates_listener id etag name details m) =
      Q name details × ((x : Result (Option String)) → Every (m x))
  Every (asks_health id name m) = (x : Result String) → Every (m x)
  Every (forgets id m) = Every m

  pub if-Every :
      {A : Type 0} (b : Bool) (m n : Program A) → Every m → Every n → Every (if b then m else n)
  if-Every true m n h k = h
  if-Every false m n h k = k

  pub done-Every : {A : Type 0} (r : Result A) → Every (done r)
  done-Every r = tt

  pub attempt-Every :
      {A B : Type 0} (m : Program A) (k : Result A → Program B)
      → Every m
      → ((r : Result A) → Every (k r))
      → Every (attempt m k)
  unfolding attempt
  attempt-Every (done r) k h g = g r
  attempt-Every (looks id m) k h g = λ x. attempt-Every (m x) k (h x) g
  attempt-Every (refreshes id m) k h g = λ x. attempt-Every (m x) k (h x) g
  attempt-Every (waits id m) k h g = λ x. attempt-Every (m x) k (h x) g
  attempt-Every (changes request m) k h g = (h.0, λ x. attempt-Every (m x) k (h.1 x) g)
  attempt-Every (updates_listener id etag name details m) k h g =
      (h.0, λ x. attempt-Every (m x) k (h.1 x) g)
  attempt-Every (asks_health id name m) k h g = λ x. attempt-Every (m x) k (h x) g
  attempt-Every (forgets id m) k h g = attempt-Every m k h g

  branches :
      {A B : Type 0} (failure : Error → Result B) (rest : A → Program B)
      → ((a : A) → Every (rest a))
      → (r : Result A) → Every (try_call (done r) failure rest)
  unfolding try_call
  branches failure rest g (ok a) = g a
  branches failure rest g (err e) = tt

  pub try_call-Every :
      {A B : Type 0} (m : Program A) (failure : Error → Result B) (rest : A → Program B)
      → Every m
      → ((a : A) → Every (rest a))
      → Every (try_call m failure rest)
  unfolding try_call
  try_call-Every m failure rest h g = attempt-Every m _ h (branches failure rest g)

  pub try_done-Every :
      {A B : Type 0} (r : Result A) (failure : Error → Result B) (rest : A → Program B)
      → ((a : A) → r ≡ ok a → Every (rest a))
      → Every (try_call (done r) failure rest)
  unfolding try_call
  try_done-Every (ok a) failure rest g = g a refl
  try_done-Every (err e) failure rest g = tt

  pub request-Every :
      (request : Change) (failure : Error → Result (Unit {0}))
      → P request
      → Every (try_call (send request) failure wait)
  request-Every request failure h =
      try_call-Every (send request) failure wait (h, λ x. tt)
        (λ r. try_call-Every (waits r done) err (λ id. done (ok tt)) (λ x. tt) (λ a. tt))
