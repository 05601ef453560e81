-- ===== src/LoadBalancer/Wait.antt =====
-- The wait for a work request ends (pkg/loadbalancer/loadbalancer.go).
use oci_native_ingress_contr.Common.{
  ℕ, zero, suc, ◌+◌, ◌*◌, ◌≤◌, ◌≡◌, ◌≢◌, refl, ◌⊎◌, subst, String, none, some, arith, Option-cases,
  inl, inr,
}
use oci_native_ingress_contr.Exception.{Error, Result, ok, err}
use oci_native_ingress_contr.Exception.Laws.{Result-cases}
use oci_native_ingress_contr.LoadBalancer.Types.{
  WorkRequest, LifecycleState, succeeded, failed, other_state,
}
use oci_native_ingress_contr.LoadBalancer.Client.{
  Oci, Client, send, get_load_balancer_bust_cache, work_request_failure, poll, poll_pause,
  max_polls, work_request_timeout, wait_for_work_request,
}

-- The clock: it never goes back over a look at a work request, a pause takes its time, and a look
-- whose deadline has passed is an error (the contexts of Go's standard library).
pub record IsClock {W : Type 0} (oci : Oci W) : Type 0 where
  pub look_forth : (d : ℕ) (r : String) (w : W) → oci.now w ≤ oci.now (oci.get_work_request d r w).1
  pub pause : (t : ℕ) (w : W) → oci.now w + t ≤ oci.now (oci.sleep t w)
  pub expired :
      (d : ℕ) (r : String) (w : W)
      → d ≤ oci.now w
      → (e : Error) × ((oci.get_work_request d r w).0 ≡ err e)

cases :
    (s : LifecycleState) → (s ≡ succeeded) ⊎ ((s ≡ failed) ⊎ ((t : String) × (s ≡ other_state t)))
cases succeeded = inl refl
cases failed = inr (inl refl)
cases (other_state t) = inr (inr (t, refl))

-- The answer to a look at a work request, and the client after it.
abbrev look : {W : Type 0} → Oci W → ℕ → String → Client W → Result WorkRequest × Client W
look oci d r = send (oci.get_work_request d r)

abbrev sleep : {W : Type 0} → Oci W → Client W → Client W
sleep oci c = record c { world = oci.sleep poll_pause c.world }

-- The runs of Go's loop that end, as it is written: no count of the rounds. The deadline and the
-- request stay the same; a client leads to what is returned and the client then.
pub data Waits {W : Type 0} (oci : Oci W) (d : ℕ) (r : String)
    : Client W → Result String × Client W → Type 0 where
  fails :
      (c : Client W) (e : Error)
      → (look oci d r c).0 ≡ err e
      → Waits oci d r c (err e, (look oci d r c).1)
  ends_well :
      (c : Client W) (a : WorkRequest)
      → (look oci d r c).0 ≡ ok a
      → a.lifecycle_state ≡ succeeded
      → Waits oci d r c (
        ok a.load_balancer_id,
        (get_load_balancer_bust_cache oci a.load_balancer_id (look oci d r c).1).1,
      )
  ends_badly :
      (c : Client W) (a : WorkRequest)
      → (look oci d r c).0 ≡ ok a
      → a.lifecycle_state ≡ failed
      → Waits oci d r c (err (work_request_failure a.error_details), (look oci d r c).1)
  goes_on :
      (c : Client W) (a : WorkRequest) (s : String) (result : Result String × Client W)
      → (look oci d r c).0 ≡ ok a
      → a.lifecycle_state ≡ other_state s
      → Waits oci d r (sleep oci (look oci d r c).1) result
      → Waits oci d r c result

some-injective {ℓ} : {A : Type ℓ} {a b : A} → some a ≡ some b → a ≡ b
some-injective h = cc

module _ {W : Type 0} (oci : Oci W) where
  -- What the loop on fuel returns, a run of Go's loop does.
  pub poll-Waits :
      (n d : ℕ) (r : String) (c : Client W) (result : Result String × Client W)
      → poll oci n d r c ≡ some result
      → Waits oci d r c result
  unfolding poll
  poll-Waits zero d r c result h = cc
  poll-Waits (suc n) d r c result h = elim (Result-cases (look oci d r c).0) [
    | inl (e, q) ↦ subst (Waits oci d r c) (ground arith) (fails c e q)
    | inr (a, q) ↦ elim (cases a.lifecycle_state) [
      | inl p ↦ subst (Waits oci d r c) (ground arith) (ends_well c a q p)
      | inr (inl p) ↦ subst (Waits oci d r c) (ground arith) (ends_badly c a q p)
      | inr (inr (t, p)) ↦
          goes_on c a t result q p
            (poll-Waits n d r (sleep oci (look oci d r c).1) result (ground arith))
    ]
  ]

module _ {W : Type 0} (oci : Oci W) (clock : IsClock oci) where
  pending :
      (n d : ℕ) (r : String) (c : Client W)
      → d ≤ oci.now c.world + suc n * poll_pause
      → d ≤ oci.now (oci.sleep poll_pause (oci.get_work_request d r c.world).1) + n * poll_pause
  pending n d r c h = omega (
    arith,
    clock.look_forth d r c.world,
    clock.pause poll_pause (oci.get_work_request d r c.world).1,
  )

  -- With a round for every pause until the deadline and one more, the loop has a result.
  pub poll_ends :
      (n d : ℕ) (r : String) (c : Client W)
      → d ≤ oci.now c.world + n * poll_pause
      → poll oci (suc n) d r c ≢ none
  unfolding poll
  poll_ends zero d r c h = let (e, late) = clock.expired d r c.world (omega arith) in ground arith
  poll_ends (suc n) d r c h =
      let after = record c { world = oci.sleep poll_pause (oci.get_work_request d r c.world).1 } in
      ground (arith, poll_ends n d r after (pending n d r c h))

  -- The wait for a work request ends, and does what a run of Go's loop does.
  pub wait_for_work_request-Waits :
      (r : String) (c : Client W)
      → Waits oci (oci.now c.world + work_request_timeout) r c (wait_for_work_request oci r c)
  unfolding wait_for_work_request
  wait_for_work_request-Waits r c =
      let d = oci.now c.world + work_request_timeout in
      elim (Option-cases (poll oci max_polls d r c)) [
        | inl stuck ↦ absurd (poll_ends 30 d r c (omega arith) stuck)
        | inr (result, q) ↦ rw q (poll-Waits oci max_polls d r c result q)
      ]
