-- ===== src/TlsResolve/Total.antt =====
-- resolveTLSPolicy on a policy from an annotation (pkg/controllers/ingress/tls_policy.go).
use oci_native_ingress_contr.Common.{
  ◌≡◌, arith, ◌⊎◌, refl, String, Bool, true, false, Option, some, List, string_eq, inl, inr,
  Bool-cases,
}
use oci_native_ingress_contr.Common.Set.{has}
use oci_native_ingress_contr.Common.Text.{is_blank}
use oci_native_ingress_contr.Exception.{ok}
use oci_native_ingress_contr.Util.Annotation.{is_listener_protocol_using_http2_cipher_suite}
use oci_native_ingress_contr.TlsPolicy.{ExplicitTlsPolicy, PolicyJson, parse_policy_value}
use oci_native_ingress_contr.TlsPolicy.Safe.{
  IsModern, IsSafe, IsSafeSuite, parse_policy_value-IsSafe,
}
use oci_native_ingress_contr.TlsResolve.{
  ResourceType, listener, backend_set, unknown, TlsPolicy, SslConfig, locked_listener, locked_http2,
  locked_default_tls_policy, protocol_compatible_default_cipher_suite, overlay_explicit_tls_policy,
  apply_tls_policy_to_ssl_config, resolve_tls_policy,
}
use oci_native_ingress_contr.TlsResolve.Laws.{safe_suite_for}

-- The two resource types that the controller uses.
abbrev pub IsKnown : ResourceType → Type 0
IsKnown r = (r ≡ listener) ⊎ (r ≡ backend_set)

abbrev pub IsSafePolicy : TlsPolicy → Type 0
IsSafePolicy q = IsModern q.protocols × IsSafeSuite q.cipher_suite_name

not_known : {C : Type 0} (t : String) → IsKnown (unknown t) → C
not_known t (inl e) = cc
not_known t (inr e) = cc

locked_http2-IsSafePolicy : IsSafePolicy locked_http2
unfolding string_eq has is_blank
locked_http2-IsSafePolicy =
    (inr (inr refl), record { not_blank = refl; not_customized = refl; not_unsafe = refl })

locked_listener-IsSafePolicy : IsSafePolicy locked_listener
unfolding string_eq has is_blank
locked_listener-IsSafePolicy =
    (inr (inr refl), record { not_blank = refl; not_customized = refl; not_unsafe = refl })

locked_default_tls_policy_lem :
    (r : ResourceType) (protocol : String)
    → IsKnown r
    → (q : TlsPolicy) × (locked_default_tls_policy r protocol ≡ ok q) × IsSafePolicy q
unfolding locked_default_tls_policy
locked_default_tls_policy_lem listener protocol known =
    elim (Bool-cases (is_listener_protocol_using_http2_cipher_suite protocol)) [
      | inl http2 ↦ (locked_http2, rw http2, locked_http2-IsSafePolicy)
      | inr other ↦ (locked_listener, rw other, locked_listener-IsSafePolicy)
    ]
locked_default_tls_policy_lem backend_set protocol known =
    (locked_http2, refl, locked_http2-IsSafePolicy)
locked_default_tls_policy_lem (unknown t) protocol known = not_known t known

protocol_compatible_default_cipher_suite_lem :
    (r : ResourceType) (protocol : String) (ps : List String)
    → IsKnown r
    → IsModern ps
    → (s : String) × (protocol_compatible_default_cipher_suite r protocol ps ≡ ok s) × IsSafeSuite s
unfolding protocol_compatible_default_cipher_suite
protocol_compatible_default_cipher_suite_lem listener protocol ps known modern =
    elim (Bool-cases (is_listener_protocol_using_http2_cipher_suite protocol)) [
      | inl http2 ↦
          let (s, found, safe) = safe_suite_for true ps modern in (s, rw http2 found, safe)
      | inr other ↦
          let (s, found, safe) = safe_suite_for false ps modern in (s, rw other found, safe)
    ]
protocol_compatible_default_cipher_suite_lem backend_set protocol ps known modern =
    safe_suite_for true ps modern
protocol_compatible_default_cipher_suite_lem (unknown t) protocol ps known modern =
    not_known t known

-- What the annotation sets is in the policy.
abbrev pub Follows : ExplicitTlsPolicy → TlsPolicy → Type 0
Follows p q =
    (p.has_cipher_suite_name ≡ true → q.cipher_suite_name ≡ p.cipher_suite_name)
    × (p.has_protocols ≡ true → q.protocols ≡ p.protocols)

overlay_explicit_tls_policy_lem :
    (r : ResourceType) (protocol : String) (default : TlsPolicy) (p : ExplicitTlsPolicy)
    → IsKnown r
    → IsSafePolicy default
    → IsSafe p
    → (q : TlsPolicy) × (overlay_explicit_tls_policy r protocol default p ≡ ok q)
      × IsSafePolicy q
      × Follows p q
unfolding overlay_explicit_tls_policy
overlay_explicit_tls_policy_lem r protocol default p known (modern, suite) safe =
    elim (Bool-cases p.has_cipher_suite_name) [
      | inl own ↦ elim (Bool-cases p.has_protocols) [
        | inl set ↦ (
          record { cipher_suite_name = p.cipher_suite_name; protocols = p.protocols },
          rw (own, set),
          (safe.modern set, safe.suite own),
          (λ h. refl, λ h. refl),
        )
        | inr unset ↦ (
          record { cipher_suite_name = p.cipher_suite_name; protocols = default.protocols },
          rw (own, unset),
          (modern, safe.suite own),
          (λ h. refl, λ h. ground arith),
        )
      ]
      | inr no_suite ↦ elim (Bool-cases p.has_protocols) [
        | inl set ↦
            let (s, found, is_safe) =
              protocol_compatible_default_cipher_suite_lem r protocol p.protocols known
                (safe.modern set) in
            (
              record { cipher_suite_name = s; protocols = p.protocols },
              rw (no_suite, set, found),
              (safe.modern set, is_safe),
              (λ h. ground arith, λ h. refl),
            )
        | inr unset ↦
            (default, rw (no_suite, unset), (modern, suite), (λ h. ground arith, λ h. ground arith))
      ]
    ]

-- The configuration has the policy's cipher suite and protocols, and the certificates of the other.
abbrev pub Carries : SslConfig → TlsPolicy → SslConfig → Type 0
Carries config policy result =
    (result.cipher_suite_name ≡ some policy.cipher_suite_name)
    × (result.protocols ≡ policy.protocols)
    × (result.certificate_ids ≡ config.certificate_ids)
    × (result.certificate_name ≡ config.certificate_name)

-- For a listener or a backend set with a TLS configuration, a policy that an annotation gives never
-- fails to resolve; the resulting configuration has the cipher suite and the protocols of the result
-- and the certificates it had, and the result is safe: its protocols are TLSv1.2, TLSv1.3 or both, and
-- its cipher suite is requestable and not on the list of unsafe ones. Where the annotation sets a
-- cipher suite or protocols, the result has these.
pub resolve_tls_policy-IsSafePolicy :
    (json : PolicyJson) (name value : String) (p : ExplicitTlsPolicy) (r : ResourceType)
    (protocol : String) (config : SslConfig) (is_create : Bool) (current : Option SslConfig)
    → parse_policy_value json name value ≡ ok p
    → IsKnown r
    → (q : TlsPolicy) × (result : SslConfig) × (resolve_tls_policy r protocol
          (some config)
          (some p)
          is_create
          current
        ≡ ok (some q, some result))
      × Carries config q result
      × IsSafePolicy q
      × Follows p q
unfolding resolve_tls_policy apply_tls_policy_to_ssl_config
resolve_tls_policy-IsSafePolicy json name value p r protocol config is_create current parsed known =
    let (safe, _) = parse_policy_value-IsSafe json name value parsed in
    let (default, locked, default_safe) = locked_default_tls_policy_lem r protocol known in
    let (q, overlaid, q_safe, follows) =
      overlay_explicit_tls_policy_lem r protocol default p known default_safe safe in
    (
      q,
      apply_tls_policy_to_ssl_config config q,
      rw (locked, overlaid),
      (refl, refl, refl, refl),
      q_safe,
      follows,
    )
