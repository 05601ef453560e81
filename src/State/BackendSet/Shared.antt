-- ===== src/State/BackendSet/Shared.antt =====
-- The session persistence of several Ingresses on one backend set (pkg/state/ingressstate.go).
use oci_native_ingress_contr.Common.{
  ◌≡◌, false, ◌&&◌, ◌||◌, All, Option, none, some, is_some, if◌then◌else◌, arith, string_eq, List,
  [], ◌∷◌,
}
use oci_native_ingress_contr.Common.Map.{}
use oci_native_ingress_contr.Exception.{}
use oci_native_ingress_contr.Kube.{health_checker_eq, AppCookie, LbCookie}
use oci_native_ingress_contr.Util.HealthCheck.{}
use oci_native_ingress_contr.State.Types.{SessionPersistence, persistence_eq}
use oci_native_ingress_contr.State.BackendSet.{reconcile}

abbrev pub first_lb : List SessionPersistence → Option LbCookie
first_lb [] = none
first_lb (p ∷ ps) = elim p.lb_cookie [ none ↦ first_lb ps | some c ↦ some c ]

abbrev pub first_app : List SessionPersistence → Option AppCookie
first_app [] = none
first_app (p ∷ ps) = elim p.app_cookie [ none ↦ first_app ps | some c ↦ some c ]

unfoldable pub join_all : SessionPersistence → List SessionPersistence → SessionPersistence
unfolding reconcile
join_all p [] = p
join_all p (q ∷ qs) = join_all (reconcile p q) qs

-- A configuration has at most one kind of cookie.
abbrev pub IsExclusive : SessionPersistence → Type 0
IsExclusive p = (is_some p.app_cookie && is_some p.lb_cookie) ≡ false

reconcile_lem :
    (p q : SessionPersistence)
    → IsExclusive p
    → IsExclusive q
    → IsExclusive (reconcile p q)
      × ((reconcile p q).lb_cookie ≡ (if is_some p.lb_cookie then p.lb_cookie else q.lb_cookie))
      × ((reconcile p q).app_cookie ≡ (
          if is_some p.lb_cookie || is_some q.lb_cookie
          then none
          else if is_some p.app_cookie
          then p.app_cookie
          else q.app_cookie))
unfolding reconcile
reconcile_lem p q hp hq = (ground arith, ground arith, ground arith)

-- The first LB cookie of the configurations that the Ingresses bring in turn, each with at most one
-- kind of cookie, is the one that stays, and the first application cookie if there is none.
pub join_all_lem :
    (p : SessionPersistence) (qs : List SessionPersistence)
    → IsExclusive p
    → All IsExclusive qs
    → ((join_all p qs).lb_cookie ≡ first_lb (p ∷ qs))
      × ((join_all p qs).app_cookie
          ≡ (if is_some (first_lb (p ∷ qs)) then none else first_app (p ∷ qs)))
unfolding join_all
join_all_lem p [] hp hqs = (ground arith, ground arith)
join_all_lem p (q ∷ qs) hp (hq, hqs) =
    let (exclusive, lb, app) = reconcile_lem p q hp hq in
    let (ih_lb, ih_app) = join_all_lem (reconcile p q) qs exclusive hqs in
    (ground arith, ground arith)
