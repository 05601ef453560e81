-- ===== src/State/TlsConfigs/Dedupe.antt =====
-- dedupeListenerTLSConfigs (pkg/state/ingressstate.go).
use oci_native_ingress_contr.Common.{
  ◌≡◌, refl, false, not, ◌&&◌, List, [], ◌∷◌, arith, Bool-cases, inl, inr, map,
}
use oci_native_ingress_contr.Common.Set
use oci_native_ingress_contr.State.Types.{TlsConfig, tls_config_eq, ListenerTlsCandidate}
use oci_native_ingress_contr.State.TlsConfigs.{dedupe_from, dedupe_listener_tls_configs}

-- No configuration stands twice.
abbrev pub IsDistinct : List TlsConfig → Type 0
IsDistinct [] = Unit
IsDistinct (c ∷ cs) = (Set.has c cs ≡ false) × IsDistinct cs

abbrev pub configs : List ListenerTlsCandidate → List TlsConfig
configs = map (λ c. c.config)

has-dedupe_from :
    (x : TlsConfig) (cs : List ListenerTlsCandidate) (seen : List TlsConfig)
    → Set.has x (dedupe_from cs seen) ≡ (Set.has x (configs cs) && not (Set.has x seen))
unfolding dedupe_from Set.has
has-dedupe_from x [] seen = refl
has-dedupe_from x (c ∷ cs) seen =
    ground (arith, has-dedupe_from x cs seen, has-dedupe_from x cs (c.config ∷ seen))

dedupe_from-IsDistinct :
    (cs : List ListenerTlsCandidate) (seen : List TlsConfig) → IsDistinct (dedupe_from cs seen)
unfolding dedupe_from Set.has
dedupe_from-IsDistinct [] seen = tt
dedupe_from-IsDistinct (c ∷ cs) seen = elim (Bool-cases (Set.has c.config seen)) [
  | inl old ↦ rw old (dedupe_from-IsDistinct cs seen)
  | inr new ↦
      rw new (rw has-dedupe_from (ground arith), dedupe_from-IsDistinct cs (c.config ∷ seen))
]

-- The list has exactly the candidates' configurations, and none of them twice.
pub dedupe_listener_tls_configs_lem :
    (cs : List ListenerTlsCandidate)
    → IsDistinct (dedupe_listener_tls_configs cs)
      × ((x : TlsConfig) → Set.has x (dedupe_listener_tls_configs cs) ≡ Set.has x (configs cs))
unfolding dedupe_listener_tls_configs Set.has
dedupe_listener_tls_configs_lem cs =
    (dedupe_from-IsDistinct cs [], λ x. rw (has-dedupe_from x cs []) (ground arith))
