-- ===== src/State/Tls/Status.antt =====
-- updateBackendTlsStatus (pkg/state/ingressstate.go): the two maps that it writes.
use mathlib.Core.Bool.{xor}
use oci_native_ingress_contr.Common.{
  ◌≡◌, refl, String, Bool, true, false, not, Option, none, some, string_eq, if◌then◌else◌, arith,
  Option-cases, inl, inr,
}
use oci_native_ingress_contr.Common.Map.{Map, lookup, insert, lookup-insert}
use oci_native_ingress_contr.Exception.{ok}
use oci_native_ingress_contr.State.Types.{TlsConfig, no_tls_config, tls_config_eq, BackendTlsStatus}
use oci_native_ingress_contr.State.Tls.{set_backend_config, adopt_status, update_backend_tls_status}

-- The configuration that a backend set's status stands for.
abbrev pub tls_of : Option BackendTlsStatus → Option TlsConfig
tls_of none = none
tls_of (some status) =
    if status.has_tls_artifact_input
    then some (if status.enabled then status.config else no_tls_config)
    else none

-- The map of configurations holds what the statuses stand for, and nothing else.
abbrev pub Tracks : Map String BackendTlsStatus → Map String TlsConfig → Type 0
Tracks statuses configs = (b : String) → lookup b configs ≡ tls_of (lookup b statuses)

equal_switch : (a b : Bool) → not (xor a b) ≡ true → a ≡ b
unfolding xor
equal_switch true true h = refl
equal_switch true false h = cc
equal_switch false true h = cc
equal_switch false false h = refl

-- A status that is written beside the configuration of the update.
written :
    (b : String) (enabled has_input : Bool) (config : TlsConfig) (next : BackendTlsStatus)
    (statuses : Map String BackendTlsStatus) (configs : Map String TlsConfig)
    → Tracks statuses configs
    → (has_input ≡ true → tls_of (some next) ≡ some (if enabled then config else no_tls_config))
    → (has_input ≡ false → tls_of (some next) ≡ tls_of (lookup b statuses))
    → Tracks (insert b next statuses) (set_backend_config enabled has_input configs b config)
unfolding set_backend_config
written b enabled true config next statuses configs tracks on off c =
    let value = if enabled then config else no_tls_config in
    ground
      (arith, tracks c, on refl, lookup-insert c b next statuses, lookup-insert c b value configs)
written b enabled false config next statuses configs tracks on off c =
    ground (arith, tracks c, off refl, lookup-insert c b next statuses)

-- An update that succeeds on maps in step leaves them in step.
pub update_backend_tls_status-Tracks :
    (enabled has_input : Bool) (statuses : Map String BackendTlsStatus)
    (configs : Map String TlsConfig) (b : String) (config : TlsConfig)
    {statuses' : Map String BackendTlsStatus} {configs' : Map String TlsConfig}
    → Tracks statuses configs
    → update_backend_tls_status enabled has_input statuses configs b config
      ≡ ok (statuses', configs')
    → Tracks statuses' configs'
unfolding update_backend_tls_status set_backend_config adopt_status
update_backend_tls_status-Tracks enabled has_input statuses configs b config {statuses'} {configs'}
      tracks h c =
    elim (Option-cases (lookup b statuses)) [
      | inl new ↦
          let first : BackendTlsStatus = record {
            enabled = enabled;
            has_tls_artifact_input = has_input;
            config = config;
          } in
          let same : statuses' ≡ insert b first statuses = ground arith in
          let same_c : configs' ≡ set_backend_config enabled has_input configs b config =
            ground arith in
          rw (same, same_c)
            (written b enabled has_input config first statuses configs tracks (ground arith)
              (ground arith) c)
      | inr (current, known) ↦
          let next = adopt_status has_input config current in
          let same : statuses' ≡ insert b next statuses = ground arith in
          let same_c : configs' ≡ set_backend_config enabled has_input configs b config =
            ground arith in
          rw (same, same_c)
            (written b enabled has_input config next statuses configs tracks
              (ground (arith, equal_switch current.enabled enabled)) (ground arith) c)
    ]
