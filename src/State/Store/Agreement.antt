-- ===== src/State/Store/Agreement.antt =====
-- The store after BuildState, against the Ingresses that it was built from (pkg/state/ingressstate.go).
use oci_native_ingress_contr.Common.{
  ◌≡◌, refl, sym, subst, ap, String, ℤ, int_eq, string_eq, true, none, some, List, or_else, All,
  All-map, inl, inr,
}
use oci_native_ingress_contr.Common.Map.{Map, lookup}
use oci_native_ingress_contr.Common.Set.{has}
use oci_native_ingress_contr.Exception.{Error, Result, ok, err}
use oci_native_ingress_contr.Exception.Laws.{>>=-eq-ok, ok-injective, Result-cases}
use oci_native_ingress_contr.Kube.{
  Ingress, IngressClass, HttpIngressPath, ServiceLister, Digest, CookieJson,
}
use oci_native_ingress_contr.TlsPolicy.{PolicyJson}
use oci_native_ingress_contr.Util.Names.{has_service_backend}
use oci_native_ingress_contr.Util.Annotation.{
  get_ingress_protocol, get_ingress_policy, get_ingress_listener_connection_idle_timeout,
}
use oci_native_ingress_contr.State.Types.{Draft, IngressState, IngressClassState, StateStore}
use oci_native_ingress_contr.State.Listener.{default_backend_set_for}
use oci_native_ingress_contr.State.TlsConfigs.{build_listener_tls_config_map}
use oci_native_ingress_contr.State.Policies.{
  build_listener_tls_policy_map, build_backend_set_tls_policy_map,
}
use oci_native_ingress_contr.State.Path.{resolve_path}
use oci_native_ingress_contr.State.Path.Later.{Claims}
use oci_native_ingress_contr.State.Build.{
  tls_hosts_of, process_ingresses, empty_draft, ingress_group,
}
use oci_native_ingress_contr.State.Build.Claims.{IngressClaims, process_ingresses_lem}
use oci_native_ingress_contr.State.Store.{
  finish, commit, build_group, build_state, is_default_class, get_listener_protocol,
  get_listener_default_backend_set, get_listener_connection_idle_timeout, get_backend_set_policy,
  get_backend_sets_for_listener,
}

-- The store serves a path of the Ingress on the port, from the backend set.
pub record Serves (i : Ingress) (port : ℤ) (b : String) (s : StateStore) : Type 0 where
  pub protocol : get_listener_protocol s port ≡ get_ingress_protocol i
  pub default : get_listener_default_backend_set s port ≡ default_backend_set_for i b
  pub timeout :
      (t : ℤ)
      → get_ingress_listener_connection_idle_timeout i ≡ ok (some t)
      → get_listener_connection_idle_timeout s port ≡ some t
  pub policy : get_backend_set_policy s b ≡ get_ingress_policy i
  pub listener : has port s.group.listeners ≡ true
  pub backend_set : has b s.group.backend_sets ≡ true
  pub reached : has b (get_backend_sets_for_listener s port) ≡ true
  pub default_reached :
      has (default_backend_set_for i b) (get_backend_sets_for_listener s port) ≡ true

some_not_none {ℓ κ} : {A : Type ℓ} {C : Type κ} {a : A} → some a ≡ none → C
some_not_none h = cc

module _ (services : ServiceLister) (sha256_hex : Digest) where
  -- Every path with a service resolves to a port and a backend set from which the store serves it.
  abbrev pub ServesIngress : StateStore → Ingress → Type 0
  ServesIngress s i =
      All
        (λ rule.
          (paths : List HttpIngressPath)
          → rule.http ≡ some paths
          → All
              (λ path.
                has_service_backend path ≡ true
                → (port : ℤ) × (b : String) × (resolve_path services sha256_hex i (tls_hosts_of i).0
                      rule.host path
                    ≡ ok (port, b))
                  × Serves i port b s)
              paths)
        i.rules

  module _ (policies : PolicyJson) (d : Draft) {group : IngressClassState}
      (states : Map String IngressState) where
    Serves-of :
        (i : Ingress) (port : ℤ) (b : String)
        → finish policies d ≡ ok group
        → Claims i port b d
        → Serves i port b (record { group = group; ingresses = states })
    unfolding finish get_listener_protocol get_listener_default_backend_set
        get_listener_connection_idle_timeout get_backend_set_policy get_backend_sets_for_listener
    Serves-of i port b h c =
        let configs = build_listener_tls_config_map d.listener_tls_candidates in
        let (listener_policies, _, r1) =
          >>=-eq-ok
            (build_listener_tls_policy_map policies d.listener_tls_policy_candidates configs) _ h in
        let (bs_policies, _, r2) =
          >>=-eq-ok
            (build_backend_set_tls_policy_map policies d.bs_tls_policy_candidates d.bs_tls_config) _
            r1 in
        subst (λ g. Serves i port b (record { group = g; ingresses = states })) (ok-injective r2)
          (record {
            protocol = ap (λ o. or_else o "") c.protocol;
            default = ap (λ o. or_else o "") c.default;
            timeout = c.timeout;
            policy = ap (λ o. or_else o "") c.policy;
            listener = c.listener;
            backend_set = c.backend_set;
            reached = c.reached;
            default_reached = c.default_reached;
          })

    ServesIngress-of :
        (h : finish policies d ≡ ok group) (i : Ingress)
        → IngressClaims services sha256_hex d i
        → ServesIngress (record { group = group; ingresses = states }) i
    ServesIngress-of h i claims =
        All-map _ _ i.rules
          (λ rule c paths is_http.
            All-map _ _ paths
              (λ path c' is_service.
                let (port, b, resolved, at) = c' is_service in
                (port, b, resolved, Serves-of i port b h at))
              (c paths is_http))
          claims

  module _ (cookies : CookieJson) (policies : PolicyJson) (class : IngressClass) where
    build_group_lem :
        (is : List Ingress) (states : Map String IngressState) {states' : Map String IngressState}
        {group : IngressClassState}
        → build_group services sha256_hex cookies policies class is states ≡ (states', ok group)
        → All (ServesIngress (record { group = group; ingresses = states' })) is
    unfolding build_group lookup int_eq
    build_group_lem is states {states'} {group} h =
        let run = process_ingresses services sha256_hex cookies class is empty_draft states in
        let (d, h1, h2) = >>=-eq-ok run.1 (finish policies) (ap (λ x. x.1) h) in
        let whole : run ≡ (run.0, ok d) = ap (λ r. (run.0, r)) h1 in
        let (_, _, claims) =
          process_ingresses_lem services sha256_hex cookies class is empty_draft states whole
            (λ port. refl) in
        All-map _ _ is (ServesIngress-of policies d states' h2) claims

    -- When `BuildState` succeeds, the store serves every path of every Ingress of the class: the path
    -- resolves to a port and a backend set, and the store's protocol, default backend set, idle
    -- timeout and policy for them are the ones that this Ingress asks for, whatever the others ask.
    pub build_state-ServesIngress :
        (ingresses : List Ingress) (s s' : StateStore)
        → build_state services sha256_hex cookies policies class (ok ingresses) s ≡ (s', none)
        → All (ServesIngress s') (ingress_group class (is_default_class class) ingresses)
    unfolding build_state
    build_state-ServesIngress ingresses s s' h =
        let is = ingress_group class (is_default_class class) ingresses in
        let run = build_group services sha256_hex cookies policies class is s.ingresses in
        elim (Result-cases run.1) [
          | inl (e, failed) ↦
              let no : commit s run.0 (err e) ≡ (s', none) =
                subst (λ r. commit s run.0 r ≡ (s', none)) failed h in
              some_not_none (ap (λ x. x.1) no)
          | inr (group, built) ↦
              let same : commit s run.0 (ok group) ≡ (s', none) =
                subst (λ r. commit s run.0 r ≡ (s', none)) built h in
              subst (λ x. All (ServesIngress x) is) (ap (λ x. x.0) same)
                (build_group_lem is s.ingresses (ap (λ r. (run.0, r)) built))
        ]

    -- When `BuildState` fails, for any reason, the state of the group is the one from before.
    pub build_state-error :
        (listed : Result (List Ingress)) (s s' : StateStore) (e : Error)
        → build_state services sha256_hex cookies policies class listed s ≡ (s', some e)
        → s'.group ≡ s.group
    unfolding build_state
    build_state-error (err f) s s' e h = ap (λ x. x.0.group) (sym h)
    build_state-error (ok ingresses) s s' e h =
        let is = ingress_group class (is_default_class class) ingresses in
        let run = build_group services sha256_hex cookies policies class is s.ingresses in
        elim (Result-cases run.1) [
          | inl (f, failed) ↦
              let same : commit s run.0 (err f) ≡ (s', some e) =
                subst (λ r. commit s run.0 r ≡ (s', some e)) failed h in
              ap (λ x. x.0.group) (sym same)
          | inr (group, built) ↦
              let no : commit s run.0 (ok group) ≡ (s', some e) =
                subst (λ r. commit s run.0 r ≡ (s', some e)) built h in
              some_not_none (ap (λ x. x.1) (sym no))
        ]
