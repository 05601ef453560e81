-- ===== src/State/Path/Claimed.antt =====
-- The claims of one path through the body of the loop of BuildState (pkg/state/ingressstate.go).
use oci_native_ingress_contr.Common.{
  ◌≡◌, sym, subst, ap, ◌∙◌, String, ℤ, int_eq, string_eq, some, or_else,
}
use oci_native_ingress_contr.Common.Map.{Map, lookup}
use oci_native_ingress_contr.Exception.{ok}
use oci_native_ingress_contr.Exception.Laws.{>>=-eq-ok, ok-injective}
use oci_native_ingress_contr.Kube.{Ingress, CookieJson}
use oci_native_ingress_contr.Util.Annotation.{
  get_ingress_protocol, get_ingress_policy, get_ingress_listener_connection_idle_timeout,
}
use oci_native_ingress_contr.State.Types.{Draft, Progress}
use oci_native_ingress_contr.State.Listener.{
  validate_listener_protocol, default_backend_set_for, validate_listener_default_backend_set,
  validate_listener_connection_idle_timeout, append_listener_backend_set,
}
use oci_native_ingress_contr.State.BackendSet.{
  validate_backend_set_health_checker, validate_backend_set_policy,
  validate_backend_set_session_persistence,
}
use oci_native_ingress_contr.State.Tls.{validate_tls_config}
use oci_native_ingress_contr.State.Path.{
  enter_path, claim_listener, claim_backend_set, claim_tls, claim_path,
}
use oci_native_ingress_contr.State.Path.Claims.{
  Reaches, validate_listener_protocol_lem, validate_listener_default_backend_set_lem,
  validate_backend_set_policy_lem, append_listener_backend_set_self,
  append_listener_backend_set_other, claim_idle_timeout_lem,
}
use oci_native_ingress_contr.State.Path.Later.{
  Synced, Later, Later-trans, enter_path-Later, enter_path_lem, Claims, Claims-Later,
}

-- What `claim_listener` adds to the locals.
record ListenerClaims (i : Ingress) (port : ℤ) (b : String) (d : Draft) : Type 0 where
  protocol : lookup port d.listener_protocol ≡ some (get_ingress_protocol i)
  default : lookup port d.listener_default_bs ≡ some (default_backend_set_for i b)
  timeout :
      (t : ℤ)
      → get_ingress_listener_connection_idle_timeout i ≡ ok (some t)
      → lookup port d.listener_idle_timeout ≡ some t
  default_reached : Reaches port (default_backend_set_for i b) d.listener_backend_sets

module _ (i : Ingress) (port : ℤ) (b : String) (d : Draft) where
  claim_listener_lem :
      {d' : Draft}
      → claim_listener i port b d ≡ ok d'
      → Synced d
      → Synced d' × Later d d' × ListenerClaims i port b d'
  unfolding claim_listener validate_listener_connection_idle_timeout
  claim_listener_lem h sync =
      let (protocols, h1, r1) =
        >>=-eq-ok (validate_listener_protocol i d.listener_protocol port) _ h in
      let (defaults, h2, r2) =
        >>=-eq-ok (validate_listener_default_backend_set i d.listener_default_bs port b) _ r1 in
      let ((timeouts, configs), h3, r3) =
        >>=-eq-ok
          (validate_listener_connection_idle_timeout i d.listener_idle_timeout
            d.listener_idle_timeout_config port)
          _ r2 in
      let (timeout, h4, h5) = >>=-eq-ok (get_ingress_listener_connection_idle_timeout i) _ h3 in
      let (protocol, keeps1) = validate_listener_protocol_lem i _ port h1 in
      let (default, keeps2) = validate_listener_default_backend_set_lem i _ port b h2 in
      let (synced, keeps3, at) = claim_idle_timeout_lem i port timeout _ _ h5 sync in
      let name = or_else (lookup port defaults) "" in
      let sets = append_listener_backend_set d.listener_backend_sets port name in
      let reached : Reaches port (default_backend_set_for i b) sets =
        subst (λ x. Reaches port x sets) (ap (λ o. or_else o "") default)
          (append_listener_backend_set_self d.listener_backend_sets port name) in
      let d1 : Draft = record d {
        listener_protocol = protocols;
        listener_default_bs = defaults;
        listener_idle_timeout = timeouts;
        listener_idle_timeout_config = configs;
        listener_backend_sets = sets;
      } in
      let later : Later d d1 = record {
        protocols = keeps1;
        defaults = keeps2;
        timeouts = keeps3;
        policies = λ k v h. h;
        listeners = λ p h. h;
        backend_sets = λ c h. h;
        reaches = append_listener_backend_set_other d.listener_backend_sets port name;
      } in
      let claims : ListenerClaims i port b d1 = record {
        protocol = protocol;
        default = default;
        timeout = λ t same. at t (ok-injective (sym h4 ∙ same));
        default_reached = reached;
      } in
      subst (λ x. Synced x × Later d x × ListenerClaims i port b x) (ok-injective r3)
        (synced, later, claims)

  claim_backend_set_lem :
      (cookies : CookieJson) {d' : Draft}
      → claim_backend_set cookies i b d ≡ ok d'
      → Synced d
      → Synced d' × Later d d' × (lookup b d'.bs_policy ≡ some (get_ingress_policy i))
  unfolding claim_backend_set
  claim_backend_set_lem cookies h sync =
      let (checkers, _, r1) =
        >>=-eq-ok (validate_backend_set_health_checker i d.bs_health_checker b) _ h in
      let (policies, h2, r2) = >>=-eq-ok (validate_backend_set_policy i d.bs_policy b) _ r1 in
      let (persistence, _, r3) =
        >>=-eq-ok (validate_backend_set_session_persistence cookies i d.bs_session_persistence b) _
          r2 in
      let (policy, keeps) = validate_backend_set_policy_lem i _ b h2 in
      let d1 : Draft = record d {
        bs_health_checker = checkers;
        bs_policy = policies;
        bs_session_persistence = persistence;
      } in
      let later : Later d d1 = record {
        protocols = λ k v h. h;
        defaults = λ k v h. h;
        timeouts = λ k v h. h;
        policies = keeps;
        listeners = λ p h. h;
        backend_sets = λ b h. h;
        reaches = λ p b h. h;
      } in
      subst (λ x. Synced x × Later d x × (lookup b x.bs_policy ≡ some (get_ingress_policy i)))
        (ok-injective r3) (sync, later, policy)

  claim_tls_lem :
      (secrets : Map String String) (host : String) (p : Progress) {d' : Draft} {p' : Progress}
      → claim_tls i secrets host port b d p ≡ ok (d', p')
      → Synced d
      → Synced d' × Later d d'
  unfolding claim_tls
  claim_tls_lem secrets host p {d'} {p'} h sync =
      let ((g, statuses, configs), _, r) =
        >>=-eq-ok
          (validate_tls_config i port b host d.listener_tls_candidates d.bs_tls_config
            d.bs_tls_status secrets p.discovery_order)
          _ h in
      let d1 : Draft = record d {
        listener_tls_candidates = g.candidates;
        bs_tls_config = configs;
        bs_tls_status = statuses;
      } in
      let later : Later d d1 = record {
        protocols = λ k v h. h;
        defaults = λ k v h. h;
        timeouts = λ k v h. h;
        policies = λ k v h. h;
        listeners = λ p h. h;
        backend_sets = λ b h. h;
        reaches = λ p b h. h;
      } in
      let same : d1 ≡ d' = ap (λ x. x.0) (ok-injective r) in
      subst (λ x. Synced x × Later d x) same (sync, later)

pub claim_path_lem :
    (cookies : CookieJson) (i : Ingress) (secrets : Map String String) (host : String) (port : ℤ)
    (b : String) (d : Draft) (p : Progress) {d' : Draft} {p' : Progress}
    → claim_path cookies i secrets host port b d p ≡ ok (d', p')
    → Synced d
    → Synced d' × Later d d' × Claims i port b d'
unfolding claim_path
claim_path_lem cookies i secrets host port b d p {d'} {p'} h sync =
    let d0 = enter_path i port b d in
    let (d1, h1, r1) = >>=-eq-ok (claim_listener i port b d0) _ h in
    let (d2, h2, r2) = >>=-eq-ok (claim_backend_set cookies i b d1) _ r1 in
    let sync0 : Synced d0 = sync in
    let (listener, backend_set, reached) = enter_path_lem i port b d in
    let entered = enter_path-Later i port b d in
    let (sync1, later1, claims1) = claim_listener_lem i port b d0 h1 sync0 in
    let (sync2, later2, policy) = claim_backend_set_lem i port b d1 cookies h2 sync1 in
    let (sync3, later3) = claim_tls_lem i port b d2 secrets host _ r2 sync2 in
    let claims : Claims i port b d2 = record {
      protocol = later2.protocols port _ claims1.protocol;
      default = later2.defaults port _ claims1.default;
      timeout = λ t h. later2.timeouts port t (claims1.timeout t h);
      policy = policy;
      listener = later2.listeners port (later1.listeners port listener);
      backend_set = later2.backend_sets b (later1.backend_sets b backend_set);
      reached = later2.reaches port b (later1.reaches port b reached);
      default_reached = later2.reaches port _ claims1.default_reached;
    } in
    (
      sync3,
      Later-trans entered (Later-trans later1 (Later-trans later2 later3)),
      Claims-Later later3 claims,
    )
