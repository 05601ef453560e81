-- ===== src/State/Build/Claims.antt =====
-- The claims of all paths through the loops of BuildState (pkg/state/ingressstate.go).
use oci_native_ingress_contr.Common.{
  ◌≡◌, subst, ap, String, ℤ, int_eq, string_eq, true, some, List, [], ◌∷◌, All, All-map, Bool-cases,
  Option-cases, inl, inr, arith,
}
use oci_native_ingress_contr.Common.Map.{Map}
use oci_native_ingress_contr.Common.Set.{Set}
use oci_native_ingress_contr.Exception.{ok}
use oci_native_ingress_contr.Exception.Laws.{>>=-eq-ok, ok-injective, Result-cases, err_not_ok}
use oci_native_ingress_contr.Kube.{
  Ingress, IngressClass, IngressRule, HttpIngressPath, ServiceLister, Digest, CookieJson,
}
use oci_native_ingress_contr.Util.Names.{has_service_backend}
use oci_native_ingress_contr.State.Types.{Draft, Progress, IngressState}
use oci_native_ingress_contr.State.Path.{resolve_path, process_path}
use oci_native_ingress_contr.State.Path.Later.{
  Synced, Later, Later-trans, Later-refl, Claims, Claims-Later,
}
use oci_native_ingress_contr.State.Path.Claimed.{claim_path_lem}
use oci_native_ingress_contr.State.Build.{
  process_paths, process_rules, process_ingress, process_ingresses, claim_default_backend,
  tls_hosts_of, fresh_progress,
}

module _ (services : ServiceLister) (sha256_hex : Digest) where
  -- A path with a service resolves, and has its claims.
  abbrev pub PathClaims : Ingress → Set String → String → Draft → HttpIngressPath → Type 0
  PathClaims i hosts host d path =
      has_service_backend path ≡ true
      → (port : ℤ) × (b : String) × (resolve_path services sha256_hex i hosts host path
          ≡ ok (port, b))
        × Claims i port b d

  abbrev pub RuleClaims : Ingress → Set String → Draft → IngressRule → Type 0
  RuleClaims i hosts d rule =
      (paths : List HttpIngressPath)
      → rule.http ≡ some paths
      → All (PathClaims i hosts rule.host d) paths

  abbrev pub IngressClaims : Draft → Ingress → Type 0
  IngressClaims d i = All (RuleClaims i (tls_hosts_of i).0 d) i.rules

  PathClaims-Later :
      (i : Ingress) (hosts : Set String) (host : String) {d d' : Draft}
      → Later d d'
      → (path : HttpIngressPath) → PathClaims i hosts host d path
      → PathClaims i hosts host d' path
  PathClaims-Later i hosts host later path c is_service =
      let (port, b, resolved, claims) = c is_service in
      (port, b, resolved, Claims-Later later claims)

  RuleClaims-Later :
      (i : Ingress) (hosts : Set String) {d d' : Draft}
      → Later d d'
      → (rule : IngressRule) → RuleClaims i hosts d rule
      → RuleClaims i hosts d' rule
  RuleClaims-Later i hosts later rule c paths is_http =
      All-map _ _ paths (PathClaims-Later i hosts rule.host later) (c paths is_http)

  IngressClaims-Later :
      {d d' : Draft} → Later d d' → (i : Ingress) → IngressClaims d i → IngressClaims d' i
  IngressClaims-Later later i c =
      All-map _ _ i.rules (RuleClaims-Later i (tls_hosts_of i).0 later) c

  module _ (cookies : CookieJson) where
    process_path_lem :
        (i : Ingress) (hosts : Set String) (secrets : Map String String) (host : String)
        (path : HttpIngressPath) (d : Draft) (p : Progress) {d' : Draft} {p' : Progress}
        → process_path services sha256_hex cookies i hosts secrets host path d p ≡ ok (d', p')
        → Synced d
        → Synced d' × Later d d' × PathClaims i hosts host d' path
    unfolding process_path
    process_path_lem i hosts secrets host path d p h sync =
        let ((port, b), resolved, rest) =
          >>=-eq-ok (resolve_path services sha256_hex i hosts host path) _ h in
        let (synced, later, claims) = claim_path_lem cookies i secrets host port b d p rest sync in
        (synced, later, λ _. (port, b, resolved, claims))

    process_paths_lem :
        (i : Ingress) (hosts : Set String) (secrets : Map String String) (host : String)
        (paths : List HttpIngressPath) (d : Draft) (p : Progress) {d' : Draft} {p' : Progress}
        → process_paths services sha256_hex cookies i hosts secrets host paths d p ≡ ok (d', p')
        → Synced d
        → Synced d' × Later d d' × All (PathClaims i hosts host d') paths
    unfolding process_paths
    process_paths_lem i hosts secrets host [] d p {d'} {p'} h sync =
        subst (λ x. Synced x × Later d x × Unit) (ap (λ x. x.0) (ok-injective h))
          (sync, Later-refl d, tt)
    process_paths_lem i hosts secrets host (path ∷ paths) d p {d'} {p'} h sync =
        elim (Bool-cases (has_service_backend path)) [
          | inl is_service ↦
              let ((d1, p1), h1, rest) =
                >>=-eq-ok (process_path services sha256_hex cookies i hosts secrets host path d p) _
                  (rw (is_service, process_paths) at h) in
              let (sync1, later1, c) = process_path_lem i hosts secrets host path d p h1 sync in
              let (sync2, later2, cs) =
                process_paths_lem i hosts secrets host paths d1 p1 rest sync1 in
              (sync2, Later-trans later1 later2, (PathClaims-Later i hosts host later2 path c, cs))
          | inr skipped ↦
              let (sync2, later2, cs) =
                process_paths_lem i hosts secrets host paths d p (rw (skipped, process_paths) at h)
                  sync in
              (sync2, later2, ((λ is_service. cc), cs))
        ]

    process_rules_lem :
        (i : Ingress) (hosts : Set String) (secrets : Map String String) (rules : List IngressRule)
        (d : Draft) (p : Progress) {d' : Draft} {p' : Progress}
        → process_rules services sha256_hex cookies i hosts secrets rules d p ≡ ok (d', p')
        → Synced d
        → Synced d' × Later d d' × All (RuleClaims i hosts d') rules
    unfolding process_rules
    process_rules_lem i hosts secrets [] d p {d'} {p'} h sync =
        subst (λ x. Synced x × Later d x × Unit) (ap (λ x. x.0) (ok-injective h))
          (sync, Later-refl d, tt)
    process_rules_lem i hosts secrets (rule ∷ rules) d p {d'} {p'} h sync =
        elim (Option-cases rule.http) [
          | inl skipped ↦
              let (sync2, later2, cs) =
                process_rules_lem i hosts secrets rules d p (rw (skipped, process_rules) at h)
                  sync in
              (sync2, later2, ((λ paths is_http. cc), cs))
          | inr (paths, is_http) ↦
              let ((d1, p1), h1, rest) =
                >>=-eq-ok
                  (process_paths services sha256_hex cookies i hosts secrets rule.host paths d p) _
                  (rw (is_http, process_rules) at h) in
              let (sync1, later1, c) =
                process_paths_lem i hosts secrets rule.host paths d p h1 sync in
              let (sync2, later2, cs) = process_rules_lem i hosts secrets rules d1 p1 rest sync1 in
              let c' : RuleClaims i hosts d1 rule = λ ps at.
                let same : paths ≡ ps = cc in
                subst (All (PathClaims i hosts rule.host d1)) same c in
              (sync2, Later-trans later1 later2, (RuleClaims-Later i hosts later2 rule c', cs))
        ]

    claim_default_backend_lem :
        (i : Ingress) (d : Draft) {d' : Draft}
        → claim_default_backend i d ≡ ok d'
        → Synced d
        → Synced d' × Later d d'
    unfolding claim_default_backend
    claim_default_backend_lem i d {d'} h sync =
        let d1 : Draft = record d {
          bs_health_checker = d'.bs_health_checker;
          default_health_check_owner = d'.default_health_check_owner;
        } in
        let same : d1 ≡ d' = ground arith in
        let later : Later d d1 = record {
          protocols = λ k v h. h;
          defaults = λ k v h. h;
          timeouts = λ k v h. h;
          policies = λ k v h. h;
          listeners = λ p h. h;
          backend_sets = λ b h. h;
          reaches = λ p b h. h;
        } in
        subst (λ x. Synced x × Later d x) same (sync, later)

    process_ingress_lem :
        (i : Ingress) (d : Draft) {d' : Draft} {p' : Progress}
        → process_ingress services sha256_hex cookies i d ≡ ok (d', p')
        → Synced d
        → Synced d' × Later d d' × IngressClaims d' i
    unfolding process_ingress
    process_ingress_lem i d h sync =
        let (d0, h0, rest) = >>=-eq-ok (claim_default_backend i d) _ h in
        let (sync0, later0) = claim_default_backend_lem i d h0 sync in
        let (sync1, later1, claims) =
          process_rules_lem i (tls_hosts_of i).0 (tls_hosts_of i).1 i.rules d0 fresh_progress rest
            sync0 in
        (sync1, Later-trans later0 later1, claims)

    pub process_ingresses_lem :
        (class : IngressClass) (is : List Ingress) (d : Draft) (states : Map String IngressState)
        {states' : Map String IngressState} {d' : Draft}
        → process_ingresses services sha256_hex cookies class is d states ≡ (states', ok d')
        → Synced d
        → Synced d' × Later d d' × All (IngressClaims d') is
    unfolding process_ingresses
    process_ingresses_lem class [] d states {states'} {d'} h sync =
        subst (λ x. Synced x × Later d x × Unit) (ok-injective (ap (λ x. x.1) h))
          (sync, Later-refl d, tt)
    process_ingresses_lem class (i ∷ is) d states {states'} {d'} h sync =
        elim (Result-cases (process_ingress services sha256_hex cookies i d)) [
          | inl (e, failed) ↦ err_not_ok e (ap (λ x. x.1) (rw (failed, process_ingresses) at h))
          | inr ((d1, p1), processed) ↦
              let (sync1, later1, c) = process_ingress_lem i d processed sync in
              let (sync2, later2, cs) =
                process_ingresses_lem class is d1 _ (rw (processed, process_ingresses) at h)
                  sync1 in
              (sync2, Later-trans later1 later2, (IngressClaims-Later later2 i c, cs))
        ]
