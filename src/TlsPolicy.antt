-- ===== src/TlsPolicy.antt =====
-- The TLS policies of the SSL annotations (pkg/tlspolicy/tls_policy.go). The JSON decoder is taken by
-- the answers that it gives while the loop reads a value.
pub mod Safe
pub mod Event
use oci_native_ingress_contr.Common.{
  ℕ, zero, suc, String, ◌<>◌, Bool, true, false, ◌||◌, ◌&&◌, not, Option, none, some, List, [], ◌∷◌,
  ◌++◌, ◌==◌, Eq, string_eq, string_discrete, if◌then◌else◌,
}
use oci_native_ingress_contr.Common.Set.{has}
use oci_native_ingress_contr.Common.Map.{Map, lookup}
use oci_native_ingress_contr.Common.Text.{is_blank}
use oci_native_ingress_contr.Exception.{
  Error, Result, ok, err, plain, wrapped, wrap, guard, ◌>>=◌, ◌>>◌,
}

pub record ExplicitTlsPolicy : Type 0 where
  pub has_cipher_suite_name : Bool
  pub cipher_suite_name : String
  pub has_protocols : Bool
  pub protocols : List String

-- One round of the loop: the key's token, and the raw value behind it.
pub data Member : Type 0 where
  bad_key : Error → Member
  other_key : Member
  member : String → Result String → Member

-- What stands behind the members.
pub data End : Type 0 where
  bad_end : Error → End
  other_end : End
  bad_rest : Error → End
  more : String → End
  eof : End

pub data Document : Type 0 where
  bad_start : Error → Document
  other_start : Document
  object : List Member → End → Document

-- `json.Decoder` and `json.Unmarshal`
pub record PolicyJson : Type 0 where
  pub document : String → Document
  pub as_string : String → Option String
  pub as_strings : String → Option (List String)

abbrev pub customized_cipher_suite : String
customized_cipher_suite = "oci-customized-ssl-cipher-suite"

abbrev pub unsafe_cipher_suites : List String
unsafe_cipher_suites =
    "oci-compatible-ssl-cipher-suite-v1" ∷ "oci-wider-compatible-ssl-cipher-suite-v1"
    ∷ "oci-tls-11-12-13-wider-ssl-cipher-suite-v1" ∷ []

abbrev pub tls12 : String
tls12 = "TLSv1.2"

abbrev pub tls13 : String
tls13 = "TLSv1.3"

instance unfoldable pub protocols_eq : Eq (List String)
protocols_eq = record { dec = hlevel string_discrete }

-- `annotation.field: text`
abbrev complaint : String → String → String → Error
complaint name key text = plain (name <> ("." <> (key <> (": " <> text))))

-- One round of the loop of `normalizeExplicitTLSProtocols`.
unfoldable pub check_protocol : String → String → String → Result (Unit {0})
check_protocol name key protocol =
    if is_blank protocol
    then err (complaint name key "protocol must not be empty")
    else if protocol == tls12 || protocol == tls13
    then ok tt
    else if has protocol ("TLSv1" ∷ "TLSv1.0" ∷ "TLSv1.1" ∷ [])
    then err (complaint name key ("deprecated protocol " <> (protocol <> " is not supported")))
    else err (complaint name key ("unsupported protocol " <> protocol))

unfoldable pub check_protocols : String → String → List String → Result (Unit {0})
unfolding check_protocol
check_protocols name key [] = ok tt
check_protocols name key (p ∷ ps) = do check_protocol name key p; check_protocols name key ps

abbrev if_seen : String → List String → List String → List String
if_seen p protocols rest = if has p protocols then p ∷ rest else rest

-- `normalizeExplicitTLSProtocols`
unfoldable pub normalize_protocols : String → String → List String → Result (List String)
unfolding check_protocols
normalize_protocols name key [] = err (complaint name key "must not be empty")
normalize_protocols name key (p ∷ ps) = do
  check_protocols name key (p ∷ ps)
  ok (if_seen tls12 (p ∷ ps) (if_seen tls13 (p ∷ ps) []))

-- The tests on the name of a cipher suite.
unfoldable pub check_cipher_suite : String → String → String → Result String
check_cipher_suite name key suite =
    if is_blank suite
    then err (complaint name key "must not be empty")
    else if suite == customized_cipher_suite
    then err (complaint name key (suite <> " is not supported"))
    else if has suite unsafe_cipher_suites
    then err (
        complaint name key ("unsafe preconfigured cipher suite " <> (suite <> " is not supported")))
    else ok suite

abbrev pub no_policy : ExplicitTlsPolicy
no_policy = record {
  has_cipher_suite_name = false;
  cipher_suite_name = "";
  has_protocols = false;
  protocols = [];
}

abbrev pub check_end : String → End → Result (Unit {0})
check_end name (bad_end e) = err (wrapped (name <> ": malformed JSON") e)
check_end name other_end = err (plain (name <> ": malformed JSON object"))
check_end name (bad_rest e) = err (wrapped (name <> ": malformed JSON") e)
check_end name (more token) = err (plain (name <> (": unexpected trailing JSON token " <> token)))
check_end name eof = ok tt

module _ (json : PolicyJson) where
  -- `parseExplicitCipherSuiteName`
  unfoldable pub parse_cipher_suite_name : String → String → String → Result String
  unfolding check_cipher_suite
  parse_cipher_suite_name name key raw =
      if raw == "null"
      then err (complaint name key "must not be null")
      else elim (json.as_string raw) [
        | none ↦ err (complaint name key "must be a string")
        | some suite ↦ check_cipher_suite name key suite
      ]

  -- `parseExplicitProtocols`
  unfoldable pub parse_protocols : String → String → String → Result (List String)
  unfolding normalize_protocols
  parse_protocols name key raw =
      if raw == "null"
      then err (complaint name key "must not be null")
      else elim (json.as_strings raw) [
        | none ↦ err (complaint name key "must be an array of strings")
        | some protocols ↦ normalize_protocols name key protocols
      ]

  -- The cases of the `switch` on the key.
  unfoldable pub set_cipher_suite :
      String → String → String → ExplicitTlsPolicy → Result ExplicitTlsPolicy
  unfolding parse_cipher_suite_name
  set_cipher_suite name key raw policy = do
    suite ← parse_cipher_suite_name name key raw
    guard (not (policy.has_cipher_suite_name && not (policy.cipher_suite_name == suite)))
        (complaint name key "conflicts with duplicate cipherSuiteName field")
    ok (record policy { has_cipher_suite_name = true; cipher_suite_name = suite })

  unfoldable pub set_protocols :
      String → String → String → ExplicitTlsPolicy → Result ExplicitTlsPolicy
  unfolding parse_protocols
  set_protocols name key raw policy = do
    protocols ← parse_protocols name key raw
    guard (not (policy.has_protocols && not (policy.protocols == protocols)))
        (complaint name key "conflicts with duplicate protocols field")
    ok (record policy { has_protocols = true; protocols = protocols })

  unfoldable pub set_field : String → String → String → ExplicitTlsPolicy → Result ExplicitTlsPolicy
  unfolding set_cipher_suite set_protocols
  set_field name key raw policy =
      if key == "cipherSuiteName" || key == "CipherSuiteName"
      then set_cipher_suite name key raw policy
      else if key == "protocols" || key == "Protocols"
      then set_protocols name key raw policy
      else err (complaint name key "unknown field")

  unfoldable pub read_member : String → Member → ExplicitTlsPolicy → Result ExplicitTlsPolicy
  unfolding set_field
  read_member name (bad_key e) policy = err (wrapped (name <> ": malformed JSON") e)
  read_member name other_key policy = err (plain (name <> ": object field name must be a string"))
  read_member name (member key value) policy = do
    raw ← wrap (name <> ("." <> (key <> ": malformed JSON value"))) value
    set_field name key raw policy

  -- The loop `for decoder.More()`.
  unfoldable pub read_members : String → List Member → ExplicitTlsPolicy → Result ExplicitTlsPolicy
  unfolding read_member
  read_members name [] policy = ok policy
  read_members name (m ∷ ms) policy = do p ← read_member name m policy; read_members name ms p

  unfoldable pub parse_document : String → Document → Result ExplicitTlsPolicy
  unfolding read_members
  parse_document name (bad_start e) = err (wrapped (name <> ": malformed JSON") e)
  parse_document name other_start = err (plain (name <> ": value must be a JSON object"))
  parse_document name (object members end) = do
    policy ← read_members name members no_policy
    check_end name end
    guard (policy.has_cipher_suite_name || policy.has_protocols)
        (plain (name <> ": value must set cipherSuiteName or protocols"))
    ok policy

  -- `ParseExplicitTLSPolicyAnnotationValue`; the count of the fields is 0 only if no field is set.
  unfoldable pub parse_policy_value : String → String → Result ExplicitTlsPolicy
  unfolding parse_document
  parse_policy_value name value = parse_document name (json.document value)

  -- `ParseExplicitTLSPolicyAnnotation`
  unfoldable pub parse_policy_annotation :
      Map String String → String → Result (Option ExplicitTlsPolicy)
  unfolding parse_policy_value
  parse_policy_annotation annotations name = elim (lookup name annotations) [
    | none ↦ ok none
    | some value ↦ do policy ← parse_policy_value name value; ok (some policy)
  ]

-- `EnsureRequestableCipherSuite`
unfoldable pub ensure_requestable_cipher_suite : String → Option String → Result (Unit {0})
ensure_requestable_cipher_suite kind none = ok tt
ensure_requestable_cipher_suite kind (some suite) = guard (not (suite == customized_cipher_suite)) (
    plain (
      "TLSPolicyPreserveFailed: cannot preserve non-requestable "
      <> (kind <> (" cipherSuiteName " <> suite))))
