-- ===== src/State/BackendSet.antt =====
-- What the paths of several Ingresses ask of one backend set (pkg/state/ingressstate.go).
pub mod Shared
pub mod Checkers
use oci_native_ingress_contr.Common.{
  String, ◌<>◌, Bool, false, not, ◌&&◌, Option, none, some, ◌==◌, string_eq, is_some, if◌then◌else◌,
}
use oci_native_ingress_contr.Common.Map.{Map, lookup, insert}
use oci_native_ingress_contr.Exception.{Error, Result, ok, err, plain, wrap, guard, ◌>>=◌, ◌>>◌}
use oci_native_ingress_contr.Kube.{Ingress, HealthCheckerDetails, CookieJson, health_checker_eq}
use oci_native_ingress_contr.Util.Annotation.{get_ingress_policy}
use oci_native_ingress_contr.Util.HealthCheck.{get_health_checker, get_default_health_checker}
use oci_native_ingress_contr.Util.Session.{
  get_session_persistence_configs, has_session_persistence_annotation,
}
use oci_native_ingress_contr.State.Types.{SessionPersistence, persistence_eq}

abbrev pub conflict_on : String → String → Error
conflict_on what bs_name = plain (
    "validation failure: incompatible "
    <> (what
        <> (" config across ingresses sharing backend set "
            <> (bs_name <> " in the ingress class"))))

-- The condition of the conflict in `validateBackendSetHealthChecker`.
unfoldable pub health_checker_conflicts : HealthCheckerDetails → Option HealthCheckerDetails → Bool
health_checker_conflicts checker none = false
health_checker_conflicts checker (some current) =
    not (checker == get_default_health_checker) && not (checker == current)

-- `validateBackendSetHealthChecker`
unfoldable pub validate_backend_set_health_checker :
    Ingress → Map String HealthCheckerDetails → String → Result (Map String HealthCheckerDetails)
unfolding health_checker_conflicts
validate_backend_set_health_checker i m bs_name = do
  checker ← get_health_checker i
  if health_checker_conflicts checker (lookup bs_name m)
      then err (conflict_on "health checker" bs_name)
      else ok (insert bs_name checker m)

-- `validateBackendSetPolicy`
unfoldable pub validate_backend_set_policy :
    Ingress → Map String String → String → Result (Map String String)
validate_backend_set_policy i m bs_name =
    let policy = get_ingress_policy i in
    elim (lookup bs_name m) [
      | none ↦ ok (insert bs_name policy m)
      | some current ↦
          if not (current == policy)
          then err (conflict_on "policy" bs_name)
          else ok (insert bs_name policy m)
    ]

-- How `validateBackendSetSessionPersistence` joins a new configuration to the current one.
unfoldable pub reconcile : SessionPersistence → SessionPersistence → SessionPersistence
reconcile current incoming =
    if current == incoming
    then current
    else if is_some current.lb_cookie
    then current
    else if is_some incoming.lb_cookie
    then record { app_cookie = none; lb_cookie = incoming.lb_cookie }
    else if is_some current.app_cookie
    then current
    else if is_some incoming.app_cookie
    then record { app_cookie = incoming.app_cookie; lb_cookie = none }
    else record { app_cookie = none; lb_cookie = none }

-- The first writer wins; later ones are reconciled.
unfoldable pub join_persistence :
    Option SessionPersistence → SessionPersistence → SessionPersistence
unfolding reconcile
join_persistence none incoming = incoming
join_persistence (some current) incoming = reconcile current incoming

-- `validateBackendSetSessionPersistence`
unfoldable pub validate_backend_set_session_persistence :
    CookieJson
    → Ingress
    → Map String SessionPersistence
    → String
    → Result (Map String SessionPersistence)
unfolding join_persistence
validate_backend_set_session_persistence json i m bs_name = do
  (app, lb) ←
      wrap
        ("invalid session persistence configuration on ingress "
          <> (i.namespace <> ("/" <> i.name)))
        (get_session_persistence_configs json i)
  guard (not (is_some app && is_some lb))
      (plain ("Provide only one of LB cookie or App cookie config for " <> (bs_name <> ".")))
  guard (not (has_session_persistence_annotation i && not (is_some app) && not (is_some lb))) (
      plain
        ("validation failure: empty session persistence configuration for backend set " <> bs_name))
  ok (
      insert bs_name
        (join_persistence (lookup bs_name m) (record { app_cookie = app; lb_cookie = lb })) m)
