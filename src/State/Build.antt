-- ===== src/State/Build.antt =====
-- `BuildState` (pkg/state/ingressstate.go). The parameters are the listers' answers, the hash and
-- the JSON decoders.
pub mod Claims
use oci_native_ingress_contr.Common.{
  String, ◌<>◌, int_eq, Bool, true, false, not, ◌&&◌, none, some, List, [], ◌∷◌, ◌==◌, string_eq,
  select, if◌then◌else◌,
}
use oci_native_ingress_contr.Common.Map.{Map, insert}
use oci_native_ingress_contr.Common.Set
use oci_native_ingress_contr.Common.Set.{Set}
use oci_native_ingress_contr.Common.Sort.{sort_slice, then_by}
use oci_native_ingress_contr.Common.Text.Order.{str_lt}
use oci_native_ingress_contr.Exception.{Result, ok, err, plain, wrap, ◌>>=◌}
use oci_native_ingress_contr.Kube.{
  Ingress, IngressClass, IngressRule, IngressTls, HttpIngressPath, ServiceLister, Digest,
  CookieJson,
}
use oci_native_ingress_contr.Util.Names.{default_backend_set_name, has_service_backend}
use oci_native_ingress_contr.Util.Annotation.{is_ingress_protocol_http_based, is_ingress_deleting}
use oci_native_ingress_contr.Util.HealthCheck.{
  has_default_backend_health_check_annotations, get_default_backend_health_checker,
  get_default_health_checker,
}
use oci_native_ingress_contr.State.Types.{Draft, Progress, IngressState, get_ingress_state_key}
use oci_native_ingress_contr.State.Path.{process_path}

-- The condition of the loop that collects `ingressGroup`.
unfoldable pub belongs_to : IngressClass → Bool → Ingress → Bool
unfolding is_ingress_deleting
belongs_to class is_default i =
    elim i.ingress_class_name [ none ↦ is_default | some name ↦ class.name == name ]
    && not (is_ingress_deleting i)

-- The order of `ingressGroup`.
unfoldable pub ingress_less : Ingress → Ingress → Bool
unfolding str_lt
ingress_less = then_by (λ i. i.namespace) str_lt (λ i j. str_lt i.name j.name)

unfoldable pub ingress_group : IngressClass → Bool → List Ingress → List Ingress
unfolding belongs_to ingress_less sort_slice
ingress_group class is_default ingresses =
    sort_slice ingress_less (select (belongs_to class is_default) ingresses)

-- The hosts of one `tls` entry.
unfoldable pub add_hosts :
    String → List String → Set String × Map String String → Set String × Map String String
add_hosts secret [] m = m
add_hosts secret (host ∷ hosts) (known, secrets) =
    add_hosts secret hosts (Set.insert host known, insert host secret secrets)

unfoldable pub add_tls :
    List IngressTls → Set String × Map String String → Set String × Map String String
unfolding add_hosts
add_tls [] m = m
add_tls (t ∷ ts) m = add_tls ts (add_hosts t.secret_name t.hosts m)

-- `tlsConfiguredHosts` and `hostSecretMap`
unfoldable pub tls_hosts_of : Ingress → Set String × Map String String
unfolding add_tls is_ingress_protocol_http_based
tls_hosts_of i = if is_ingress_protocol_http_based i then add_tls i.tls ([], []) else ([], [])

-- The statements on the health check of the default backend at the start of the loop's body.
unfoldable pub claim_default_backend : Ingress → Draft → Result Draft
unfolding has_default_backend_health_check_annotations
claim_default_backend i d =
    if has_default_backend_health_check_annotations i
    then elim i.default_backend [
      | none ↦ err (
          plain
            "validation failure: default backend health check annotations must be defined on an ingress with spec.defaultBackend")
      | some backend ↦ elim d.default_health_check_owner [
        | some owner ↦ err (
            plain (
              "validation failure: default backend health check annotations are already defined by ingress "
              <> (owner.namespace <> ("/" <> (owner.name <> " in the ingress class")))))
        | none ↦ do
          checker ←
              wrap
                ("error parsing default backend health check on ingress "
                  <> (i.namespace <> ("/" <> i.name)))
                (get_default_backend_health_checker i)
          ok (record d {
            bs_health_checker = insert default_backend_set_name checker d.bs_health_checker;
            default_health_check_owner = some i;
          })
      ]
    ]
    else ok d

-- The locals before the loop.
unfoldable pub empty_draft : Draft
unfolding get_default_health_checker
empty_draft = record {
  bs_tls_config = [];
  bs_tls_status = [];
  bs_tls_policy_candidates = [];
  listener_protocol = [];
  listener_tls_candidates = [];
  listener_tls_policy_candidates = [];
  listener_default_bs = [];
  listener_idle_timeout = [];
  listener_idle_timeout_config = [];
  listener_backend_sets = [];
  bs_health_checker = (default_backend_set_name, get_default_health_checker) ∷ [];
  bs_policy = (default_backend_set_name, "LEAST_CONNECTIONS") ∷ [];
  bs_session_persistence = [];
  all_backend_sets = default_backend_set_name ∷ [];
  all_listeners = [];
  default_health_check_owner = none;
}

abbrev pub fresh_progress : Progress
fresh_progress = record {
  discovery_order = 0;
  ports = [];
  backend_sets = default_backend_set_name ∷ [];
}

module _ (services : ServiceLister) (sha256_hex : Digest) (cookies : CookieJson) where
  unfoldable pub process_paths :
      Ingress
      → Set String
      → Map String String
      → String
      → List HttpIngressPath
      → Draft
      → Progress
      → Result (Draft × Progress)
  unfolding process_path has_service_backend
  process_paths i hosts secrets host [] d p = ok (d, p)
  process_paths i hosts secrets host (path ∷ paths) d p = elim (has_service_backend path) [
    | false ↦ process_paths i hosts secrets host paths d p
    | true ↦ do
      (d', p') ← process_path services sha256_hex cookies i hosts secrets host path d p
      process_paths i hosts secrets host paths d' p'
  ]

  unfoldable pub process_rules :
      Ingress
      → Set String
      → Map String String
      → List IngressRule
      → Draft
      → Progress
      → Result (Draft × Progress)
  unfolding process_paths
  process_rules i hosts secrets [] d p = ok (d, p)
  process_rules i hosts secrets (rule ∷ rules) d p = elim rule.http [
    | none ↦ process_rules i hosts secrets rules d p
    | some paths ↦ do
      (d', p') ← process_paths i hosts secrets rule.host paths d p
      process_rules i hosts secrets rules d' p'
  ]

  -- The body of the loop over `ingressGroup`.
  unfoldable pub process_ingress : Ingress → Draft → Result (Draft × Progress)
  unfolding claim_default_backend tls_hosts_of process_rules
  process_ingress i d = do
    d' ← claim_default_backend i d
    let (hosts, secrets) = tls_hosts_of i
    process_rules i hosts secrets i.rules d' fresh_progress

  -- The loop. `s.IngressState` is written as it goes, and stays written if a later Ingress fails.
  unfoldable pub process_ingresses :
      IngressClass
      → List Ingress
      → Draft
      → Map String IngressState
      → Map String IngressState × Result Draft
  unfolding process_ingress get_ingress_state_key
  process_ingresses class [] d states = (states, ok d)
  process_ingresses class (i ∷ is) d states = elim (process_ingress i d) [
    | err e ↦ (states, err e)
    | ok (d', p) ↦ process_ingresses class is d' (
        insert (get_ingress_state_key i.namespace i.name)
          (record { backend_sets = p.backend_sets; ports = p.ports; class_name = class.name })
          states)
  ]
