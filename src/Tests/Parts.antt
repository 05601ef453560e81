-- ===== src/Tests/Parts.antt =====
-- The theorems on the parts of the state, applied to concrete inputs.
use mathlib.Core.List.{Perm}
use mathlib.Core.List.Perm
use oci_native_ingress_contr.Common.{
  ◌≡◌, ◌↔◌, refl, String, ◌<>◌, ℤ, pos, int_eq, ltℤ, string_eq, Bool, true, false, not, ◌&&◌, ◌||◌,
  Option, none, some, List, [], ◌∷◌, All, is_some, arith, IsInt32, if◌then◌else◌,
}
use oci_native_ingress_contr.Common.Map.{lookup, insert}
use oci_native_ingress_contr.Common.Set
use oci_native_ingress_contr.Common.Set.{has}
use oci_native_ingress_contr.Common.Sort.{IsSorted}
use oci_native_ingress_contr.Exception.{ok}
use oci_native_ingress_contr.Kube.{HttpIngressPath}
use oci_native_ingress_contr.TlsPolicy.{ExplicitTlsPolicy, parse_policy_value}
use oci_native_ingress_contr.TlsPolicy.Safe.{IsSafe, parse_policy_value-IsSafe}
use oci_native_ingress_contr.State.Types.{
  TlsConfig, tls_config_eq, ListenerTlsCandidate, TlsPolicyCandidate, candidate_eq,
  SessionPersistence, BackendTlsStatus,
}
use oci_native_ingress_contr.State.Tls.{
  update_backend_tls_status, certificate_config, secret_config,
}
use oci_native_ingress_contr.State.Tls.Status.{Tracks, update_backend_tls_status-Tracks}
use oci_native_ingress_contr.State.TlsConfigs.{listener_tls_configs, dedupe_listener_tls_configs}
use oci_native_ingress_contr.State.TlsConfigs.Turns.{at_port, in_turn, in_turn-perm}
use oci_native_ingress_contr.State.TlsConfigs.Dedupe.{
  IsDistinct, configs, dedupe_listener_tls_configs_lem,
}
use oci_native_ingress_contr.State.Policies.{merge_explicit_tls_policy_candidates}
use oci_native_ingress_contr.State.Policies.Merge.{
  CipherAgrees, ProtocolsAgree, merge_explicit_tls_policy_candidates_lem,
}
use oci_native_ingress_contr.RoutingPolicy.{
  ListenerPath, by_path_less, rules_of, build_routing_rules,
}
use oci_native_ingress_contr.RoutingPolicy.Order.{
  by_path_less-extension, by_path_less-Exact, has_folded_host,
}
use oci_native_ingress_contr.RoutingPolicy.Sorted.{build_routing_rules-IsSorted}
use oci_native_ingress_contr.Tests.{quoted, plain_digest, path_to, shop}

abbrev pub strong : ExplicitTlsPolicy
strong = record {
  has_cipher_suite_name = true;
  cipher_suite_name = "strong-suite";
  has_protocols = false;
  protocols = [];
}

pub strong_parses : parse_policy_value quoted "ssl" "strong-suite" ≡ ok strong
unfolding oci_native_ingress_contr.Common.string_eq oci_native_ingress_contr.Common.Set.has
    oci_native_ingress_contr.Common.Text.is_blank
    oci_native_ingress_contr.TlsPolicy.parse_policy_value
strong_parses = refl

parse_policy_value-IsSafe_example :
    IsSafe strong × ((strong.has_cipher_suite_name || strong.has_protocols) ≡ true)
parse_policy_value-IsSafe_example =
    parse_policy_value-IsSafe quoted "ssl" "strong-suite" strong_parses

abbrev asked_by : String → TlsPolicyCandidate
asked_by key = record { ingress_key = key; annotation_name = "ssl"; raw_value = "strong-suite" }

abbrev both_ask : List TlsPolicyCandidate
both_ask = asked_by "prod/shop" ∷ asked_by "prod/blog" ∷ asked_by "prod/shop" ∷ []

both_ask_ok :
    merge_explicit_tls_policy_candidates quoted "listener" "443" both_ask ≡ ok (some strong)
unfolding oci_native_ingress_contr.Common.string_eq oci_native_ingress_contr.Common.Set.has
    oci_native_ingress_contr.Common.Text.is_blank
    oci_native_ingress_contr.State.Policies.merge_explicit_tls_policy_candidates
    oci_native_ingress_contr.State.Store.build_state
    oci_native_ingress_contr.State.Types.candidate_eq
    oci_native_ingress_contr.TlsPolicy.parse_policy_value
both_ask_ok = refl

shop_asks : has (asked_by "prod/shop") both_ask ≡ true
unfolding oci_native_ingress_contr.Common.Set.has oci_native_ingress_contr.Common.string_eq
    oci_native_ingress_contr.State.Types.candidate_eq
shop_asks = refl

merge_explicit_tls_policy_candidates_example :
    (p : ExplicitTlsPolicy) × (parse_policy_value quoted "ssl" "strong-suite" ≡ ok p)
    × (q : ExplicitTlsPolicy) × (some strong ≡ some q)
    × CipherAgrees p q
    × ProtocolsAgree p q
merge_explicit_tls_policy_candidates_example =
    merge_explicit_tls_policy_candidates_lem quoted "listener" "443" both_ask both_ask_ok
      (asked_by "prod/shop") shop_asks

abbrev shop_cert : TlsConfig
shop_cert = secret_config shop "shop-cert"

nothing_tracked : Tracks [] []
unfolding lookup
nothing_tracked b = refl

abbrev first_status : BackendTlsStatus
first_status = record { enabled = true; has_tls_artifact_input = true; config = shop_cert }

update_ok :
    update_backend_tls_status true true [] [] "bs" shop_cert
    ≡ ok (("bs", first_status) ∷ [], ("bs", shop_cert) ∷ [])
unfolding oci_native_ingress_contr.Common.Map.lookup oci_native_ingress_contr.Common.Map.insert
    oci_native_ingress_contr.State.Tls.update_backend_tls_status
update_ok = refl

update_backend_tls_status-Tracks_example :
    Tracks (("bs", first_status) ∷ []) (("bs", shop_cert) ∷ [])
update_backend_tls_status-Tracks_example =
    update_backend_tls_status-Tracks true true [] [] "bs" shop_cert nothing_tracked update_ok

abbrev candidate : String → ListenerTlsCandidate
candidate key = record { ingress_key = key; discovery_order = 0; config = shop_cert }

in_turn-perm_example :
    listener_tls_configs (
      at_port (pos 443) (
        in_turn
          (("ns/b", (pos 443, shop_cert) ∷ (pos 80, shop_cert) ∷ [])
            ∷ ("ns/a", (pos 443, shop_cert) ∷ [])
            ∷ [])
          []))
    ≡ listener_tls_configs (
        at_port (pos 443) (
          in_turn
            (("ns/a", (pos 443, shop_cert) ∷ [])
              ∷ ("ns/b", (pos 443, shop_cert) ∷ (pos 80, shop_cert) ∷ [])
              ∷ [])
            []))
in_turn-perm_example =
    in_turn-perm
      (("ns/b", (pos 443, shop_cert) ∷ (pos 80, shop_cert) ∷ [])
        ∷ ("ns/a", (pos 443, shop_cert) ∷ [])
        ∷ [])
      (("ns/a", (pos 443, shop_cert) ∷ [])
        ∷ ("ns/b", (pos 443, shop_cert) ∷ (pos 80, shop_cert) ∷ [])
        ∷ [])
      (pos 443) (Perm.swap _ _ _)

dedupe_listener_tls_configs_example :
    IsDistinct (dedupe_listener_tls_configs (candidate "b" ∷ candidate "a" ∷ []))
    × ((x : TlsConfig)
        → Set.has x (dedupe_listener_tls_configs (candidate "b" ∷ candidate "a" ∷ []))
          ≡ Set.has x (configs (candidate "b" ∷ candidate "a" ∷ [])))
dedupe_listener_tls_configs_example =
    dedupe_listener_tls_configs_lem (candidate "b" ∷ candidate "a" ∷ [])

abbrev pub route : String → HttpIngressPath → ListenerPath
route host path = record {
  ingress_name = "shop";
  listener_port = pos 80;
  host = host;
  backend_set_name = "bs";
  path = some path;
}

hosts_folded :
    All
      (λ o. has_folded_host o ≡ true)
      (some (route "a.example" (path_to "/" (pos 80)))
        ∷ some (route "b.example" (path_to "/cart" (pos 80)))
        ∷ [])
unfolding oci_native_ingress_contr.RoutingPolicy.Order.is_folded
hosts_folded = (refl, (refl, tt))

build_routing_rules-IsSorted_example :
    (r : List (Option ListenerPath)) × Perm r (
      some (route "a.example" (path_to "/" (pos 80)))
      ∷ some (route "b.example" (path_to "/cart" (pos 80)))
      ∷ [])
    × IsSorted by_path_less r
    × (build_routing_rules plain_digest (
          some (route "a.example" (path_to "/" (pos 80)))
          ∷ some (route "b.example" (path_to "/cart" (pos 80)))
          ∷ [])
        ≡ rules_of plain_digest r)
build_routing_rules-IsSorted_example =
    build_routing_rules-IsSorted plain_digest
      (some (route "a.example" (path_to "/" (pos 80)))
        ∷ some (route "b.example" (path_to "/cart" (pos 80)))
        ∷ [])
      hosts_folded

by_path_less-extension_example :
    (by_path_less
        (some (route "a" (path_to "/cart" (pos 80))))
        (some (route "b" (path_to "/" (pos 80))))
      ≡ true)
    × (by_path_less
          (some (route "b" (path_to "/" (pos 80))))
          (some (route "a" (path_to "/cart" (pos 80))))
        ≡ false)
by_path_less-extension_example =
    by_path_less-extension (route "a" (path_to "/cart" (pos 80))) (route "b" (path_to "/" (pos 80)))
      (path_to "/cart" (pos 80)) (path_to "/" (pos 80)) "c" "art" refl refl refl
