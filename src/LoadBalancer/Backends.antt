-- ===== src/LoadBalancer/Backends.antt =====
-- When UpdateBackends sends a request, and which (pkg/loadbalancer/loadbalancer.go).
use oci_native_ingress_contr.Common.{
  ◌≡◌, ◌≢◌, ap, eq_of_==, ◌↔◌, refl, sym, subst, ==_refl, ◌∙◌, String, true, false, Option, none,
  some, List, [], ◌∷◌, map, string_eq, string_discrete, inl, inr, arith, Bool-cases,
}
use oci_native_ingress_contr.Common.Map.{lookup}
use oci_native_ingress_contr.Common.Set.{has}
use oci_native_ingress_contr.Exception.{Error, ok, err}
use oci_native_ingress_contr.Exception.Laws.{Result-cases, ok-injective, err_not_ok}
use oci_native_ingress_contr.TlsPolicy.{customized_cipher_suite, ensure_requestable_cipher_suite}
use oci_native_ingress_contr.LoadBalancer.Types.{
  SslConfiguration, SslConfigurationDetails, LoadBalancer, BackendDetails, BackendSet,
  UpdateBackendSetDetails,
}
use oci_native_ingress_contr.LoadBalancer.Client.{Oci, Client, run, get_load_balancer}
use oci_native_ingress_contr.LoadBalancer.Program.{try_call}
use oci_native_ingress_contr.LoadBalancer.BackendSets.{
  backend_set_ssl_from_current, update_found, address, is_subset, same_set, backends_request,
  update_backend_set, update_backends,
}

is_subset-has :
    (xs ys : List String) (a : String) → is_subset xs ys ≡ true → has a xs ≡ true → has a ys ≡ true
unfolding is_subset has
is_subset-has [] ys a h p = cc
is_subset-has (x ∷ xs) ys a h p = elim (string_discrete a x) [
  | yes same ↦ subst (λ x'. has x' ys ≡ true) (sym same) (ground arith)
  | no other ↦ ground (arith, is_subset-has xs ys a)
]

has-cons : (a x : String) (xs : List String) → has a xs ≡ true → has a (x ∷ xs) ≡ true
unfolding has
has-cons a x xs p = ground arith

has-is_subset :
    (xs ys : List String)
    → ((a : String) → has a xs ≡ true → has a ys ≡ true)
    → is_subset xs ys ≡ true
unfolding is_subset has
has-is_subset [] ys h = refl
has-is_subset (x ∷ xs) ys h =
    ground (arith, h x, ==_refl x, has-is_subset xs ys (λ a p. h a (has-cons a x xs p)))

-- Two lists count as the same exactly if they have the same elements, in any order and number.
pub same_set_iff :
    (xs ys : List String) → (same_set xs ys ≡ true) ↔ ((a : String) → has a xs ≡ has a ys)
unfolding same_set
same_set_iff xs ys = (
  λ h a. ground (arith, is_subset-has xs ys a, is_subset-has ys xs a),
  λ h.
      ground
        (arith, has-is_subset xs ys (λ a p. sym (h a) ∙ p), has-is_subset ys xs (λ a p. h a ∙ p)),
)

abbrev pub desired_addresses : List BackendDetails → List String
desired_addresses = map (λ d. address d.ip_address d.port)

abbrev pub actual_addresses : BackendSet → List String
actual_addresses b = map (λ a. address a.ip_address a.port) b.backends

abbrev pub KeepsTls : Option SslConfiguration → Option SslConfigurationDetails → Type 0
KeepsTls none sent = sent ≡ none
KeepsTls (some ssl) none = ⊥
KeepsTls (some ssl) (some sent) =
    (sent.trusted_certificate_authority_ids ≡ ssl.trusted_certificate_authority_ids)
    × (sent.cipher_suite_name ≡ ssl.cipher_suite_name)
    × (sent.protocols ≡ ssl.protocols)

-- The request leaves all of the backend set but the backends and the parts of its TLS configuration
-- that the controller does not manage.
abbrev pub KeepsRest : BackendSet → List BackendDetails → UpdateBackendSetDetails → Type 0
KeepsRest b backends d =
    (d.backends ≡ backends)
    × (d.policy ≡ b.policy)
    × (d.health_checker ≡ b.health_checker)
    × (d.session_persistence_configuration ≡ b.session_persistence_configuration)
    × (d.lb_cookie_session_persistence_configuration
        ≡ b.lb_cookie_session_persistence_configuration)
    × KeepsTls b.ssl_configuration d.ssl_configuration

ssl-KeepsTls :
    (current : Option SslConfiguration) (sent : Option SslConfigurationDetails)
    → backend_set_ssl_from_current current ≡ ok sent
    → KeepsTls current sent
unfolding backend_set_ssl_from_current
ssl-KeepsTls none sent h = sym (ok-injective h)
ssl-KeepsTls (some ssl) sent h =
    elim (Result-cases (ensure_requestable_cipher_suite "backend set" ssl.cipher_suite_name)) [
      | inl (e, q) ↦ err_not_ok e (rw (q, backend_set_ssl_from_current) at h)
      | inr (u, q) ↦
          subst (KeepsTls (some ssl)) (ok-injective (rw (q, backend_set_ssl_from_current) at h))
            (refl, refl, refl)
    ]

backends_request-KeepsRest :
    (b : BackendSet) (backends : List BackendDetails) (d : UpdateBackendSetDetails)
    → backends_request b backends ≡ ok d
    → KeepsRest b backends d
unfolding backends_request
backends_request-KeepsRest b backends d h =
    elim (Result-cases (backend_set_ssl_from_current b.ssl_configuration)) [
      | inl (e, q) ↦ err_not_ok e (rw (q, backends_request) at h)
      | inr (sent, q) ↦
          subst (KeepsRest b backends) (ok-injective (rw (q, backends_request) at h))
            (refl, refl, refl, refl, refl, ssl-KeepsTls b.ssl_configuration sent q)
    ]

update_backends-update_found :
    {W : Type 0} (oci : Oci W) (c d : Client W) (id name etag : String) (lb : LoadBalancer)
    (b : BackendSet) (backends : List BackendDetails)
    → get_load_balancer oci id c ≡ (ok (lb, etag), d)
    → lookup name lb.backend_sets ≡ some b
    → run oci (update_backends id name backends) c ≡ run oci (update_found id etag b backends) d
unfolding update_backends run try_call
update_backends-update_found oci c d id name etag lb b backends got found =
    rw (got, found, run) refl

update_found_same :
    {W : Type 0} (oci : Oci W) (d : Client W) (id etag : String) (b : BackendSet)
    (backends : List BackendDetails)
    → same_set (desired_addresses backends) (actual_addresses b) ≡ true
    → run oci (update_found id etag b backends) d ≡ (ok tt, d)
unfolding update_found run try_call
update_found_same oci d id etag b backends p = rw (p, update_found) refl

-- The cipher suite of a TLS configuration, if there are both.
abbrev pub suite_of : Option SslConfiguration → Option String
suite_of current = elim current [ none ↦ none | some ssl ↦ ssl.cipher_suite_name ]

requestable :
    (suite : Option String)
    → suite ≢ some customized_cipher_suite
    → ensure_requestable_cipher_suite "backend set" suite ≡ ok tt
unfolding ensure_requestable_cipher_suite
requestable none h = refl
requestable (some suite) h = elim (string_discrete suite customized_cipher_suite) [
  | yes same ↦ absurd (h (ap some same))
  | no other ↦ ground (arith, eq_of_== suite customized_cipher_suite)
]

not_requestable :
    (suite : Option String)
    → suite ≡ some customized_cipher_suite
    → (e : Error) × (ensure_requestable_cipher_suite "backend set" suite ≡ err e)
unfolding ensure_requestable_cipher_suite
not_requestable suite h =
    elim (Result-cases (ensure_requestable_cipher_suite "backend set" suite)) [
      | inl found ↦ found
      | inr (u, q) ↦ err_not_ok _ (
          rw (h, ensure_requestable_cipher_suite, ==_refl {A = String} customized_cipher_suite) at
            q)
    ]

ssl_from_current-ok :
    (current : Option SslConfiguration)
    → suite_of current ≢ some customized_cipher_suite
    → (sent : Option SslConfigurationDetails) × (backend_set_ssl_from_current current ≡ ok sent)
unfolding backend_set_ssl_from_current
ssl_from_current-ok none h = (none, refl)
ssl_from_current-ok (some ssl) h = elim (Result-cases (backend_set_ssl_from_current (some ssl))) [
  | inl (e, q) ↦
      err_not_ok e
        (sym (rw (requestable ssl.cipher_suite_name h, backend_set_ssl_from_current) at q))
  | inr found ↦ found
]

ssl_from_current-err :
    (current : Option SslConfiguration)
    → suite_of current ≡ some customized_cipher_suite
    → (e : Error) × (backend_set_ssl_from_current current ≡ err e)
unfolding backend_set_ssl_from_current
ssl_from_current-err none h = cc
ssl_from_current-err (some ssl) h =
    let (e, q) = not_requestable ssl.cipher_suite_name h in
    (e, rw (q, backend_set_ssl_from_current) refl)

-- Where `UpdateBackends` finds the backend set: with the addresses that are there already, in any
-- order and number, it sends nothing and succeeds. With any others, it ends like the update of the
-- backend set, with the etag it found and a request that keeps the rest, if the backend set has not
-- the cipher suite that cannot be requested; if it has, it fails and sends nothing.
pub update_backends_lem :
    {W : Type 0} (oci : Oci W) (c d : Client W) (id name etag : String) (lb : LoadBalancer)
    (b : BackendSet) (backends : List BackendDetails)
    → get_load_balancer oci id c ≡ (ok (lb, etag), d)
    → lookup name lb.backend_sets ≡ some b
    → (((a : String) → has a (desired_addresses backends) ≡ has a (actual_addresses b))
        → run oci (update_backends id name backends) c ≡ (ok tt, d))
      × (¬ ((a : String) → has a (desired_addresses backends) ≡ has a (actual_addresses b))
          → suite_of b.ssl_configuration ≢ some customized_cipher_suite
          → (details : UpdateBackendSetDetails) × KeepsRest b backends details
            × (run oci (update_backends id name backends) c
                ≡ run oci (update_backend_set id etag b.name details) d))
      × (¬ ((a : String) → has a (desired_addresses backends) ≡ has a (actual_addresses b))
          → suite_of b.ssl_configuration ≡ some customized_cipher_suite
          → (e : Error) × (run oci (update_backends id name backends) c ≡ (err e, d)))
unfolding update_backends backends_request run try_call
update_backends_lem oci c d id name etag lb b backends got found =
    let now = update_backends-update_found oci c d id name etag lb b backends got found in
    let compared = same_set_iff (desired_addresses backends) (actual_addresses b) in
    let sends : ¬ ((a : String) → has a (desired_addresses backends) ≡ has a (actual_addresses b))
        → same_set (desired_addresses backends) (actual_addresses b) ≡ false =
      λ differ. elim (Bool-cases (same_set (desired_addresses backends) (actual_addresses b))) [
        | inl p ↦ absurd (differ (compared.0 p))
        | inr p ↦ p
      ] in
    (
      λ same. now ∙ update_found_same oci d id etag b backends (compared.1 same),
      λ differ kept.
          let (sent, q) = ssl_from_current-ok b.ssl_configuration kept in
          elim (Result-cases (backends_request b backends)) [
            | inl (e, r) ↦ err_not_ok e (sym (rw (q, backends_request) at r))
            | inr (details, r) ↦ (
              details,
              backends_request-KeepsRest b backends details r,
              now ∙ rw (sends differ, r, update_found) refl,
            )
          ],
      λ differ lost.
          let (e, q) = ssl_from_current-err b.ssl_configuration lost in
          let r : backends_request b backends ≡ err e = rw (q, backends_request) refl in
          (e, now ∙ rw (sends differ, r, update_found) refl),
    )
