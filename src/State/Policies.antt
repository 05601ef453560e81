-- ===== src/State/Policies.antt =====
-- The TLS policies that several Ingresses set for one listener or backend set
-- (pkg/state/ingressstate.go).
pub mod Merge
use mathlib.Core.Option
use oci_native_ingress_contr.Common.{
  String, ◌<>◌, ℤ, int_eq, ltℤ, Bool, true, false, not, ◌&&◌, Option, none, some, List, [], ◌∷◌,
  ◌==◌, string_eq, or_else, if◌then◌else◌,
}
use oci_native_ingress_contr.Common.Map.{Map, lookup, insert, keys}
use oci_native_ingress_contr.Common.Set.{has}
use oci_native_ingress_contr.Common.Sort.{sort_slice, then_by}
use oci_native_ingress_contr.Common.Text.Order.{str_lt}
use oci_native_ingress_contr.Common.Text.Decimal.{itoa}
use oci_native_ingress_contr.Exception.{Error, Result, ok, err, plain, wrap, guard, ◌>>=◌, ◌>>◌}
use oci_native_ingress_contr.TlsPolicy.{
  ExplicitTlsPolicy, PolicyJson, parse_policy_value, no_policy, protocols_eq,
}
use oci_native_ingress_contr.State.Types.{
  TlsConfig, no_tls_config, TlsPolicyCandidate, candidate_eq,
}

-- The comparison in `mergeExplicitTLSPolicyCandidates`.
unfoldable pub policy_candidate_less : TlsPolicyCandidate → TlsPolicyCandidate → Bool
policy_candidate_less =
    then_by (λ c. c.ingress_key) str_lt
      (then_by (λ c. c.annotation_name) str_lt (λ a b. str_lt a.raw_value b.raw_value))

-- `merged`, with the Ingress that first set each field.
pub record Merged : Type 0 where
  pub policy : ExplicitTlsPolicy
  pub cipher_owner : String
  pub protocols_owner : String

abbrev pub nothing_merged : Merged
nothing_merged = record { policy = no_policy; cipher_owner = ""; protocols_owner = "" }

abbrev list_text : List String → String
list_text [] = "]"
list_text (s ∷ l) = s <> (" " <> list_text l)

-- `TLSPolicyConflictMessage`
abbrev policy_conflict :
    String → String → TlsPolicyCandidate → String → String → String → String → Error
policy_conflict kind target c field owner old new = plain (
    "TLSPolicyConflict: "
    <> (kind
        <> (" "
            <> (target
                <> (" annotation "
                    <> (c.annotation_name
                        <> (" field "
                            <> (field
                                <> (" conflicts between ingress "
                                    <> (owner
                                        <> (" value "
                                            <> (old
                                                <> (" and ingress "
                                                    <> (c.ingress_key
                                                        <> (" value " <> new)))))))))))))))

-- `if policy.HasCipherSuiteName`
unfoldable pub merge_cipher :
    String → String → TlsPolicyCandidate → ExplicitTlsPolicy → Merged → Result Merged
merge_cipher kind target c p m =
    if p.has_cipher_suite_name
    then (do
      guard
          (not (
            m.policy.has_cipher_suite_name
            && not (m.policy.cipher_suite_name == p.cipher_suite_name)))
          (policy_conflict kind target c "cipherSuiteName" m.cipher_owner m.policy.cipher_suite_name
            p.cipher_suite_name)
      ok (record m {
        cipher_owner = if m.policy.has_cipher_suite_name then m.cipher_owner else c.ingress_key;
        policy = record m.policy {
          has_cipher_suite_name = true;
          cipher_suite_name = p.cipher_suite_name;
        };
      }))
    else ok m

-- `if policy.HasProtocols`
unfoldable pub merge_protocols :
    String → String → TlsPolicyCandidate → ExplicitTlsPolicy → Merged → Result Merged
merge_protocols kind target c p m =
    if p.has_protocols
    then (do
      guard (not (m.policy.has_protocols && not (m.policy.protocols == p.protocols))) (
          policy_conflict kind target c "protocols" m.protocols_owner (list_text m.policy.protocols)
            (list_text p.protocols))
      ok (record m {
        protocols_owner = if m.policy.has_protocols then m.protocols_owner else c.ingress_key;
        policy = record m.policy { has_protocols = true; protocols = p.protocols };
      }))
    else ok m

module _ (json : PolicyJson) (kind target : String) where
  -- The loop's body for a candidate that was not seen before.
  unfoldable pub merge_candidate : TlsPolicyCandidate → Option Merged → Result (Option Merged)
  unfolding merge_cipher merge_protocols
  merge_candidate c m = do
    p ←
        wrap
          ("TLSPolicyInvalidAnnotation: "
            <> (kind <> (" " <> (target <> (" ingress " <> c.ingress_key)))))
          (parse_policy_value json c.annotation_name c.raw_value)
    m1 ← merge_cipher kind target c p (or_else m nothing_merged)
    m2 ← merge_protocols kind target c p m1
    ok (some m2)

  unfoldable pub merge_from :
      List TlsPolicyCandidate → List TlsPolicyCandidate → Option Merged → Result (Option Merged)
  unfolding merge_candidate
  merge_from [] seen m = ok m
  merge_from (c ∷ cs) seen m = elim (has c seen) [
    | true ↦ merge_from cs seen m
    | false ↦ do m' ← merge_candidate c m; merge_from cs (c ∷ seen) m'
  ]

  -- `mergeExplicitTLSPolicyCandidates`
  unfoldable pub merge_explicit_tls_policy_candidates :
      List TlsPolicyCandidate → Result (Option ExplicitTlsPolicy)
  unfolding merge_from policy_candidate_less sort_slice
  merge_explicit_tls_policy_candidates cs = do
    m ← merge_from (sort_slice policy_candidate_less cs) [] none
    ok (Option.map (λ r. r.policy) m)

-- `hasTLSConfig`
unfoldable pub has_tls_config : TlsConfig → Bool
has_tls_config c = not (c.type == "") && not (c.artifact == "")

abbrev set_policy {ℓ} :
    {K : Type ℓ}
    → (K → ExplicitTlsPolicy → Map K ExplicitTlsPolicy → Map K ExplicitTlsPolicy)
    → K
    → Option ExplicitTlsPolicy
    → Map K ExplicitTlsPolicy
    → Map K ExplicitTlsPolicy
set_policy write target none m = m
set_policy write target (some p) m = write target p m

abbrev is_nil {ℓ} : {A : Type ℓ} → List A → Bool
is_nil [] = true
is_nil (x ∷ xs) = false

module _ (json : PolicyJson) where
  -- The loop of `buildListenerTLSPolicyMap` over the sorted ports.
  unfoldable pub listener_policies :
      Map ℤ (List TlsPolicyCandidate)
      → Map ℤ (List TlsConfig)
      → List ℤ
      → Map ℤ ExplicitTlsPolicy
      → Result (Map ℤ ExplicitTlsPolicy)
  listener_policies candidates configs [] m = ok m
  listener_policies candidates configs (port ∷ ports) m =
      elim (is_nil (or_else (lookup port configs) [])) [
        | true ↦ listener_policies candidates configs ports m
        | false ↦ do
          p ←
              merge_explicit_tls_policy_candidates json "listener" (itoa port)
                (or_else (lookup port candidates) [])
          listener_policies candidates configs ports (set_policy insert port p m)
      ]

  -- `buildListenerTLSPolicyMap`
  unfoldable pub build_listener_tls_policy_map :
      Map ℤ (List TlsPolicyCandidate) → Map ℤ (List TlsConfig) → Result (Map ℤ ExplicitTlsPolicy)
  unfolding listener_policies
  build_listener_tls_policy_map candidates configs =
      listener_policies candidates configs (sort_slice ltℤ (keys candidates)) []

  -- The loop of `buildBackendSetTLSPolicyMap` over the sorted names.
  unfoldable pub backend_set_policies :
      Map String (List TlsPolicyCandidate)
      → Map String TlsConfig
      → List String
      → Map String ExplicitTlsPolicy
      → Result (Map String ExplicitTlsPolicy)
  unfolding has_tls_config
  backend_set_policies candidates configs [] m = ok m
  backend_set_policies candidates configs (name ∷ names) m =
      elim (has_tls_config (or_else (lookup name configs) no_tls_config)) [
        | false ↦ backend_set_policies candidates configs names m
        | true ↦ do
          p ←
              merge_explicit_tls_policy_candidates json "backend set" name
                (or_else (lookup name candidates) [])
          backend_set_policies candidates configs names (set_policy insert name p m)
      ]

  -- `buildBackendSetTLSPolicyMap`
  unfoldable pub build_backend_set_tls_policy_map :
      Map String (List TlsPolicyCandidate)
      → Map String TlsConfig
      → Result (Map String ExplicitTlsPolicy)
  unfolding backend_set_policies
  build_backend_set_tls_policy_map candidates configs =
      backend_set_policies candidates configs (sort_slice str_lt (keys candidates)) []
