-- ===== src/State/TlsConfigs/Order.antt =====
-- The order of the TLS candidates of a listener (buildListenerTLSConfigMap in pkg/state/ingressstate.go).
use mathlib.Core.List.{Perm}
use oci_native_ingress_contr.Common.{◌≡◌, ap, ltb, arith, List, string_eq, nat_eq}
use oci_native_ingress_contr.Common.Sort.{
  IsWeakOrder, IsTotal, then_by, then_by-IsWeakOrder, then_by-eq, sort_slice-perm_eq,
}
use oci_native_ingress_contr.Common.Text.Order.{str_lt, str_lt-IsWeakOrder, str_lt-IsTotal}
use oci_native_ingress_contr.State.Types.{ListenerTlsCandidate}
use oci_native_ingress_contr.State.TlsConfigs.{
  candidate_less, dedupe_listener_tls_configs, listener_tls_configs,
}

pub ltb-IsWeakOrder : IsWeakOrder ltb
ltb-IsWeakOrder = record { asym = λ a b h. ground arith; trans = λ a b c p q. ground arith }

pub ltb-IsTotal : IsTotal ltb
ltb-IsTotal = record { antisym = λ a b p q. ground arith }

pub candidate_less-IsWeakOrder : IsWeakOrder candidate_less
unfolding candidate_less
candidate_less-IsWeakOrder = then_by-IsWeakOrder _ str_lt str_lt-IsWeakOrder str_lt-IsTotal _ (
    then_by-IsWeakOrder _ ltb ltb-IsWeakOrder ltb-IsTotal _ (
      then_by-IsWeakOrder _ str_lt str_lt-IsWeakOrder str_lt-IsTotal _ (
        then_by-IsWeakOrder _ str_lt str_lt-IsWeakOrder str_lt-IsTotal _ (record {
          asym = λ a b h. str_lt-IsWeakOrder.asym _ _ h;
          trans = λ a b c p q. str_lt-IsWeakOrder.trans _ _ _ p q;
        }))))

pub candidate_less-IsTotal : IsTotal candidate_less
unfolding candidate_less
candidate_less-IsTotal = record {
  antisym = λ a b p q.
      let rest1 = λ (x y : ListenerTlsCandidate). str_lt x.config.namespace y.config.namespace in
      let rest2 = then_by (λ (x : ListenerTlsCandidate). x.config.type) str_lt rest1 in
      let rest3 = then_by (λ (x : ListenerTlsCandidate). x.config.artifact) str_lt rest2 in
      let rest4 = then_by (λ (x : ListenerTlsCandidate). x.discovery_order) ltb rest3 in
      let (key, p1, q1) =
        then_by-eq (λ x. x.ingress_key) str_lt str_lt-IsWeakOrder str_lt-IsTotal rest4 a b p q in
      let (order, p2, q2) =
        then_by-eq (λ x. x.discovery_order) ltb ltb-IsWeakOrder ltb-IsTotal rest3 a b p1 q1 in
      let (artifact, p3, q3) =
        then_by-eq (λ x. x.config.artifact) str_lt str_lt-IsWeakOrder str_lt-IsTotal rest2 a b p2
          q2 in
      let (type, p4, q4) =
        then_by-eq (λ x. x.config.type) str_lt str_lt-IsWeakOrder str_lt-IsTotal rest1 a b p3 q3 in
      ground (arith, key, order, artifact, type, str_lt-IsTotal.antisym _ _ p4 q4);
}

-- A permutation of candidates that have their numbers gives the same configurations in the same order.
pub listener_tls_configs-perm :
    (cs ds : List ListenerTlsCandidate)
    → Perm cs ds
    → listener_tls_configs cs ≡ listener_tls_configs ds
unfolding listener_tls_configs
listener_tls_configs-perm cs ds p =
    ap dedupe_listener_tls_configs
      (sort_slice-perm_eq candidate_less candidate_less-IsWeakOrder candidate_less-IsTotal cs ds p)
