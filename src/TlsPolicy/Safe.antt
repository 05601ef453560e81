-- ===== src/TlsPolicy/Safe.antt =====
-- The policies that the parser of pkg/tlspolicy/tls_policy.go accepts.
use oci_native_ingress_contr.Common.{
  ◌≡◌, subst, String, true, false, ◌||◌, ◌⊎◌, inl, inr, List, [], ◌∷◌, arith, ◌==◌, string_eq,
  Bool-cases, Option-cases,
}
use oci_native_ingress_contr.Common.Set.{has}
use oci_native_ingress_contr.Common.Text.{is_blank}
use oci_native_ingress_contr.Exception.{ok, wrap}
use oci_native_ingress_contr.Exception.Laws.{>>=-eq-ok, guard-eq-ok, ok-injective}
use oci_native_ingress_contr.TlsPolicy.{
  ExplicitTlsPolicy, PolicyJson, Member, member, bad_key, other_key, Document, object, bad_start,
  other_start, customized_cipher_suite, unsafe_cipher_suites, tls12, tls13, check_protocol,
  normalize_protocols, check_cipher_suite, parse_cipher_suite_name, parse_protocols,
  set_cipher_suite, set_protocols, set_field, read_member, read_members, no_policy, check_end,
  parse_document, parse_policy_value,
}

-- A requestable cipher suite that is not on the list of unsafe ones.
pub record IsSafeSuite (suite : String) : Type 0 where
  pub not_blank : is_blank suite ≡ false
  pub not_customized : (suite == customized_cipher_suite) ≡ false
  pub not_unsafe : has suite unsafe_cipher_suites ≡ false

-- TLSv1.2, TLSv1.3 or both, in this order.
abbrev pub IsModern : List String → Type 0
IsModern ps = (ps ≡ tls12 ∷ []) ⊎ (ps ≡ tls13 ∷ []) ⊎ (ps ≡ tls12 ∷ tls13 ∷ [])

pub record IsSafe (p : ExplicitTlsPolicy) : Type 0 where
  pub suite : p.has_cipher_suite_name ≡ true → IsSafeSuite p.cipher_suite_name
  pub modern : p.has_protocols ≡ true → IsModern p.protocols

check_cipher_suite-IsSafeSuite :
    (name key suite : String) {s : String}
    → check_cipher_suite name key suite ≡ ok s
    → IsSafeSuite s
unfolding check_cipher_suite
check_cipher_suite-IsSafeSuite name key suite h = ground arith

check_protocol_ok :
    (name key p : String) → check_protocol name key p ≡ ok tt → (p ≡ tls12) ⊎ (p ≡ tls13)
unfolding check_protocol
check_protocol_ok name key p h = ground arith

normalize_protocols-IsModern :
    (name key : String) (ps : List String) {qs : List String}
    → normalize_protocols name key ps ≡ ok qs
    → IsModern qs
unfolding normalize_protocols has
normalize_protocols-IsModern name key [] h = cc
normalize_protocols-IsModern name key (p ∷ ps) h = ground (arith, check_protocol_ok name key p)

module _ (json : PolicyJson) where
  parse_cipher_suite_name-IsSafeSuite :
      (name key raw : String) {s : String}
      → parse_cipher_suite_name json name key raw ≡ ok s
      → IsSafeSuite s
  unfolding parse_cipher_suite_name
  parse_cipher_suite_name-IsSafeSuite name key raw h = elim (Option-cases (json.as_string raw)) [
    | inl e ↦ absurd (ground arith)
    | inr (suite, e) ↦ check_cipher_suite-IsSafeSuite name key suite (ground arith)
  ]

  parse_protocols-IsModern :
      (name key raw : String) {ps : List String}
      → parse_protocols json name key raw ≡ ok ps
      → IsModern ps
  unfolding parse_protocols
  parse_protocols-IsModern name key raw h = elim (Option-cases (json.as_strings raw)) [
    | inl e ↦ absurd (ground arith)
    | inr (ps, e) ↦ normalize_protocols-IsModern name key ps (ground arith)
  ]

  set_cipher_suite-IsSafe :
      (name key raw : String) (p : ExplicitTlsPolicy) {q : ExplicitTlsPolicy}
      → set_cipher_suite json name key raw p ≡ ok q
      → IsSafe p
      → IsSafe q
  unfolding set_cipher_suite
  set_cipher_suite-IsSafe name key raw p h s =
      let (suite, e, rest) = >>=-eq-ok (parse_cipher_suite_name json name key raw) _ h in
      let (_, same) = guard-eq-ok _ _ _ rest in
      let safe : IsSafe (record p { has_cipher_suite_name = true; cipher_suite_name = suite }) =
        record {
          suite = λ _. parse_cipher_suite_name-IsSafeSuite name key raw e;
          modern = s.modern;
        } in
      subst IsSafe (ok-injective same) safe

  set_protocols-IsSafe :
      (name key raw : String) (p : ExplicitTlsPolicy) {q : ExplicitTlsPolicy}
      → set_protocols json name key raw p ≡ ok q
      → IsSafe p
      → IsSafe q
  unfolding set_protocols
  set_protocols-IsSafe name key raw p h s =
      let (ps, e, rest) = >>=-eq-ok (parse_protocols json name key raw) _ h in
      let (_, same) = guard-eq-ok _ _ _ rest in
      let safe : IsSafe (record p { has_protocols = true; protocols = ps }) = record {
        suite = s.suite;
        modern = λ _. parse_protocols-IsModern name key raw e;
      } in
      subst IsSafe (ok-injective same) safe

  set_field-IsSafe :
      (name key raw : String) (p : ExplicitTlsPolicy) {q : ExplicitTlsPolicy}
      → set_field json name key raw p ≡ ok q
      → IsSafe p
      → IsSafe q
  unfolding set_field
  set_field-IsSafe name key raw p {q} h s =
      elim (Bool-cases (key == "cipherSuiteName" || key == "CipherSuiteName")) [
        | inl suite ↦ set_cipher_suite-IsSafe name key raw p (ground arith) s
        | inr other ↦ elim (Bool-cases (key == "protocols" || key == "Protocols")) [
          | inl protocols ↦ set_protocols-IsSafe name key raw p (ground arith) s
          | inr unknown ↦ absurd (ground arith)
        ]
      ]

  read_member-IsSafe :
      (name : String) (m : Member) (p : ExplicitTlsPolicy) {q : ExplicitTlsPolicy}
      → read_member json name m p ≡ ok q
      → IsSafe p
      → IsSafe q
  unfolding read_member
  read_member-IsSafe name (bad_key e) p h s = cc
  read_member-IsSafe name other_key p h s = cc
  read_member-IsSafe name (member key value) p h s =
      let (raw, _, set) = >>=-eq-ok (wrap _ value) _ h in set_field-IsSafe name key raw p set s

  read_members-IsSafe :
      (name : String) (ms : List Member) (p : ExplicitTlsPolicy) {q : ExplicitTlsPolicy}
      → read_members json name ms p ≡ ok q
      → IsSafe p
      → IsSafe q
  unfolding read_members
  read_members-IsSafe name [] p h s = rw (← ok-injective h) s
  read_members-IsSafe name (m ∷ ms) p h s =
      let (p', first, rest) = >>=-eq-ok (read_member json name m p) _ h in
      read_members-IsSafe name ms p' rest (read_member-IsSafe name m p first s)

  no_policy-IsSafe : IsSafe no_policy
  no_policy-IsSafe = record { suite = λ h. cc; modern = λ h. cc }

  parse_document-IsSafe :
      (name : String) (d : Document) {p : ExplicitTlsPolicy}
      → parse_document json name d ≡ ok p
      → IsSafe p × ((p.has_cipher_suite_name || p.has_protocols) ≡ true)
  unfolding parse_document
  parse_document-IsSafe name (bad_start e) h = cc
  parse_document-IsSafe name other_start h = cc
  parse_document-IsSafe name (object ms end) h =
      let (p, read, rest) = >>=-eq-ok (read_members json name ms no_policy) _ h in
      let (_, _, rest') = >>=-eq-ok (check_end name end) _ rest in
      let (sets, same) = guard-eq-ok _ _ _ rest' in
      subst (λ q. IsSafe q × ((q.has_cipher_suite_name || q.has_protocols) ≡ true))
        (ok-injective same) (read_members-IsSafe name ms no_policy read no_policy-IsSafe, sets)

  -- Whatever the value, an accepted policy sets a field, its cipher suite is neither blank, unsafe nor
  -- the one that cannot be requested, and its protocols are TLSv1.2, TLSv1.3 or both in this order.
  pub parse_policy_value-IsSafe :
      (name value : String) {p : ExplicitTlsPolicy}
      → parse_policy_value json name value ≡ ok p
      → IsSafe p × ((p.has_cipher_suite_name || p.has_protocols) ≡ true)
  unfolding parse_policy_value
  parse_policy_value-IsSafe name value h = parse_document-IsSafe name (json.document value) h
