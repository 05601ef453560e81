-- ===== src/Backend/Readiness.antt =====
-- The readiness condition of a pod (pkg/controllers/backend/backend.go).
use oci_native_ingress_contr.Common.{
  ℕ, ◌≡◌, String, Bool, true, false, not, ◌&&◌, ◌||◌, Option, none, some, List, [], ◌∷◌, ◌==◌,
  string_eq, arith, if◌then◌else◌, ==_refl,
}
use oci_native_ingress_contr.Common.Set.{has}

-- `PodCondition`; the status is True or False. A time that is not set is `none`.
pub record Condition : Type 0 where
  pub type : String
  pub status : Bool
  pub reason : String
  pub message : String
  pub last_transition_time : Option ℕ

pub record Pod : Type 0 where
  pub readiness_gates : List String
  pub conditions : List Condition

-- `BackendSetHealth`, the names of the backends in each state.
pub record Health : Type 0 where
  pub critical : List String
  pub warning : List String
  pub unknown : List String

-- `getPodCondition`
unfoldable pub get_pod_condition : String → List Condition → Option Condition
get_pod_condition type [] = none
get_pod_condition type (c ∷ cs) =
    let rest = get_pod_condition type cs in if c.type == type then some c else rest

-- The status and the reason: the last list that has the backend decides the reason.
unfoldable pub state_of : Health → String → Bool × String
unfolding has
state_of health backend =
    if has backend health.unknown
    then (false, "backend is UNKNOWN")
    else if has backend health.warning
    then (false, "backend is WARNING")
    else if has backend health.critical
    then (false, "backend is CRITICAL")
    else (true, "backend is healthy")

abbrev unchanged : Option Condition → Bool → String → Bool
unchanged none status reason = false
unchanged (some c) status reason =
    (if c.status then status else not status) && (c.reason == reason && c.message == "")

abbrev pub exists : Option Condition → Bool
exists none = false
exists (some c) = true

-- The condition that `ensurePodReadinessCondition` patches, if any. The test of the status compares
-- the new condition with the value that was just put into it, so only a new condition has a time.
unfoldable pub readiness_update : ℕ → Pod → String → Health → String → Option Condition
unfolding get_pod_condition state_of has
readiness_update now pod gate health backend =
    let (status, reason) = state_of health backend in
    let existing = get_pod_condition gate pod.conditions in
    if not (has gate pod.readiness_gates) || unchanged existing status reason
    then none
    else some (record {
      type = gate;
      status = status;
      reason = reason;
      message = "";
      last_transition_time = if exists existing then none else some now;
    })

-- Where the pod has the patched condition, the next pass patches nothing while the health stays.
pub readiness_update-settles :
    (now later : ℕ) (pod patched : Pod) (gate : String) (health : Health) (backend : String)
    (c : Condition)
    → readiness_update now pod gate health backend ≡ some c
    → get_pod_condition gate patched.conditions ≡ some c
    → readiness_update later patched gate health backend ≡ none
unfolding readiness_update state_of
readiness_update-settles now later pod patched gate health backend c h there =
    ground (arith, ==_refl c.reason, ==_refl c.message)
