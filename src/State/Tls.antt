-- ===== src/State/Tls.antt =====
-- The TLS artifacts that an Ingress brings to a listener and a backend set (pkg/state/ingressstate.go).
pub mod Status
use oci_native_ingress_contr.Common.{
  ℕ, ◌+◌, String, ◌<>◌, ℤ, int_eq, Bool, true, false, not, ◌&&◌, none, some, List, [], ◌∷◌, ◌++◌,
  ◌==◌, Eq, string_eq, or_else, if◌then◌else◌,
}
use mathlib.Core.Bool.{xor}
use oci_native_ingress_contr.Common.Map.{Map, lookup, insert}
use oci_native_ingress_contr.Exception.{Error, Result, ok, plain, guard, ◌>>=◌, ◌>>◌}
use oci_native_ingress_contr.Kube.{Ingress}
use oci_native_ingress_contr.Util.Annotation.{
  annotation, get_backend_tls_enabled, get_listener_tls_certificate_ocids,
  is_ingress_protocol_http_based,
}
use oci_native_ingress_contr.State.Types.{
  TlsConfig, tls_config_eq, no_tls_config, ListenerTlsCandidate, BackendTlsStatus,
  TlsPolicyCandidate, get_ingress_state_key,
}

abbrev pub artifact_type_secret : String
artifact_type_secret = "secret"

abbrev pub artifact_type_certificate : String
artifact_type_certificate = "certificate"

-- `appendTLSPolicyCandidate`
unfoldable pub append_tls_policy_candidate {ℓ} :
    {K : Type ℓ} ⦃e : Eq K⦄
    → Map K (List TlsPolicyCandidate)
    → K
    → Ingress
    → String
    → Map K (List TlsPolicyCandidate)
append_tls_policy_candidate m target i name = elim (annotation name i) [
  | none ↦ m
  | some value ↦
      insert target
        (or_else (lookup target m) []
          ++ (record {
            ingress_key = get_ingress_state_key i.namespace i.name;
            annotation_name = name;
            raw_value = value;
          }
              ∷ []))
        m
]

-- The listener's candidates, the order counter, and what the backend set would use.
pub record Gathered : Type 0 where
  pub candidates : Map ℤ (List ListenerTlsCandidate)
  pub discovery_order : ℕ
  pub has_tls_artifact_input : Bool
  pub backend_tls_config : TlsConfig

-- `appendListenerTLSCandidate`
unfoldable pub append_listener_tls_candidate : ℤ → String → TlsConfig → Gathered → Gathered
append_listener_tls_candidate port key config g = record g {
  candidates =
      insert port
        (or_else (lookup port g.candidates) []
          ++ (record { ingress_key = key; discovery_order = g.discovery_order; config = config }
              ∷ []))
        g.candidates;
  discovery_order = g.discovery_order + 1;
}

abbrev pub certificate_config : Ingress → String → TlsConfig
certificate_config i ocid = record {
  artifact = ocid;
  type = artifact_type_certificate;
  namespace = i.namespace;
}

abbrev pub secret_config : Ingress → String → TlsConfig
secret_config i name = record {
  artifact = name;
  type = artifact_type_secret;
  namespace = i.namespace;
}

unfoldable pub append_certificates : Ingress → ℤ → String → List String → Gathered → Gathered
unfolding append_listener_tls_candidate
append_certificates i port key [] g = g
append_certificates i port key (ocid ∷ ocids) g =
    append_certificates i port key ocids
      (append_listener_tls_candidate port key (certificate_config i ocid) g)

-- The first `if` of `validateTlsConfig`.
unfoldable pub gather_certificates : Ingress → ℤ → String → List String → Gathered → Gathered
unfolding append_certificates
gather_certificates i port key [] g = g
gather_certificates i port key (ocid ∷ ocids) g =
    if is_ingress_protocol_http_based i
    then record (append_certificates i port key (ocid ∷ ocids) g) {
      has_tls_artifact_input = true;
      backend_tls_config = certificate_config i ocid;
    }
    else g

-- The second `if`: the secret of the host.
unfoldable pub gather_secret :
    Ingress → ℤ → String → String → Map String String → Gathered → Gathered
unfolding append_listener_tls_candidate
gather_secret i port key host host_secrets g =
    let secret = or_else (lookup host host_secrets) "" in
    if not (host == "") && not (secret == "")
    then record (append_listener_tls_candidate port key (secret_config i secret) g) {
      has_tls_artifact_input = true;
      backend_tls_config = secret_config i secret;
    }
    else g

abbrev backend_conflict : String → String → Error
backend_conflict what bs_name = plain (
    "validation failure: incompatible "
    <> (what <> (" across ingresses sharing backend set " <> (bs_name <> " in the ingress class"))))

-- The map of the configurations at the end of `updateBackendTlsStatus`.
unfoldable pub set_backend_config :
    Bool → Bool → Map String TlsConfig → String → TlsConfig → Map String TlsConfig
set_backend_config enabled has_input configs bs_name config =
    if has_input
    then insert bs_name (if enabled then config else no_tls_config) configs
    else configs

-- The status that stays for a backend set that is known already.
unfoldable pub adopt_status : Bool → TlsConfig → BackendTlsStatus → BackendTlsStatus
adopt_status has_input config current =
    if has_input && not current.has_tls_artifact_input
    then record current { has_tls_artifact_input = true; config = config }
    else current

-- `updateBackendTlsStatus`
unfoldable pub update_backend_tls_status :
    Bool
    → Bool
    → Map String BackendTlsStatus
    → Map String TlsConfig
    → String
    → TlsConfig
    → Result (Map String BackendTlsStatus × Map String TlsConfig)
unfolding set_backend_config adopt_status xor
update_backend_tls_status enabled has_input statuses configs bs_name config =
    elim (lookup bs_name statuses) [
      | none ↦ ok (
        insert bs_name
            (record { enabled = enabled; has_tls_artifact_input = has_input; config = config })
            statuses,
        set_backend_config enabled has_input configs bs_name config,
      )
      | some current ↦ do
        guard (not (xor current.enabled enabled))
            (backend_conflict "backend-tls-enabled config" bs_name)
        guard
            (not (
              enabled
              && current.has_tls_artifact_input
              && has_input
              && not (current.config == config)))
            (backend_conflict "backend TLS certificate or secret" bs_name)
        ok (
          insert bs_name (adopt_status has_input config current) statuses,
          set_backend_config enabled has_input configs bs_name config,
        )
    ]

-- `validateTlsConfig`
unfoldable pub validate_tls_config :
    Ingress
    → ℤ
    → String
    → String
    → Map ℤ (List ListenerTlsCandidate)
    → Map String TlsConfig
    → Map String BackendTlsStatus
    → Map String String
    → ℕ
    → Result (Gathered × Map String BackendTlsStatus × Map String TlsConfig)
unfolding gather_certificates gather_secret update_backend_tls_status
validate_tls_config i port bs_name host candidates configs statuses host_secrets order =
    let key = get_ingress_state_key i.namespace i.name in
    let start : Gathered = record {
      candidates = candidates;
      discovery_order = order;
      has_tls_artifact_input = false;
      backend_tls_config = no_tls_config;
    } in
    let g =
      gather_secret i port key host host_secrets
        (gather_certificates i port key (get_listener_tls_certificate_ocids i) start) in
    do
      (statuses', configs') ←
          update_backend_tls_status (get_backend_tls_enabled i) g.has_tls_artifact_input statuses
            configs bs_name g.backend_tls_config
      ok (g, statuses', configs')
