-- ===== src/State/TlsConfigs.antt =====
-- The TLS configurations of each listener, in a deterministic order (pkg/state/ingressstate.go).
pub mod Order
pub mod Dedupe
pub mod Turns
use oci_native_ingress_contr.Common.{
  ℕ, String, ℤ, int_eq, Bool, true, false, ltb, Option, none, some, List, [], ◌∷◌, ◌==◌, string_eq,
  nat_eq, or_else, if◌then◌else◌,
}
use oci_native_ingress_contr.Common.Map.{Map, lookup, insert}
use oci_native_ingress_contr.Common.Set
use oci_native_ingress_contr.Common.Sort.{sort_slice, then_by}
use oci_native_ingress_contr.Common.Text.Order.{str_lt}
use oci_native_ingress_contr.State.Types.{TlsConfig, tls_config_eq, ListenerTlsCandidate}

-- The comparison that `buildListenerTLSConfigMap` hands to `sort.SliceStable`.
unfoldable pub candidate_less : ListenerTlsCandidate → ListenerTlsCandidate → Bool
candidate_less =
    then_by (λ c. c.ingress_key) str_lt
      (then_by (λ c. c.discovery_order) ltb
        (then_by (λ c. c.config.artifact) str_lt
          (then_by (λ c. c.config.type) str_lt
            (λ a b. str_lt a.config.namespace b.config.namespace))))

-- The loop of `dedupeListenerTLSConfigs` behind the configurations seen so far.
unfoldable pub dedupe_from : List ListenerTlsCandidate → List TlsConfig → List TlsConfig
dedupe_from [] seen = []
dedupe_from (c ∷ cs) seen =
    let skipped = dedupe_from cs seen in
    let taken = c.config ∷ dedupe_from cs (c.config ∷ seen) in
    if Set.has c.config seen then skipped else taken

-- `dedupeListenerTLSConfigs`
unfoldable pub dedupe_listener_tls_configs : List ListenerTlsCandidate → List TlsConfig
unfolding dedupe_from
dedupe_listener_tls_configs cs = dedupe_from cs []

-- The body of the loop over the ports.
unfoldable pub listener_tls_configs : List ListenerTlsCandidate → List TlsConfig
unfolding candidate_less dedupe_listener_tls_configs sort_slice
listener_tls_configs cs = dedupe_listener_tls_configs (sort_slice candidate_less cs)

abbrev insert_unless_nil : ℤ → List TlsConfig → Map ℤ (List TlsConfig) → Map ℤ (List TlsConfig)
insert_unless_nil port [] m = m
insert_unless_nil port (c ∷ cs) m = insert port (c ∷ cs) m

-- `buildListenerTLSConfigMap`
unfoldable pub build_listener_tls_config_map :
    Map ℤ (List ListenerTlsCandidate) → Map ℤ (List TlsConfig)
unfolding listener_tls_configs
build_listener_tls_config_map [] = []
build_listener_tls_config_map ((port, cs) ∷ m) =
    insert_unless_nil port (listener_tls_configs cs) (build_listener_tls_config_map m)
