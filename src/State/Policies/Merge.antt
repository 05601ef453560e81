-- ===== src/State/Policies/Merge.antt =====
-- The merge of TLS policies (mergeExplicitTLSPolicyCandidates in pkg/state/ingressstate.go), candidate by
-- candidate.
use mathlib.Core.Option
use oci_native_ingress_contr.Common.{
  ◌≡◌, String, true, ◌||◌, Option, none, some, or_else, List, [], ◌∷◌, ◌==◌, string_eq, arith, inl,
  inr, Bool-cases, sym, subst, ap, ◌∙◌, eq_of_==,
}
use oci_native_ingress_contr.Common.Set.{has}
use oci_native_ingress_contr.Common.Sort.{sort_slice}
use oci_native_ingress_contr.Common.Member.{has-sort_slice}
use oci_native_ingress_contr.Exception.{ok, wrap}
use oci_native_ingress_contr.Exception.Laws.{>>=-eq-ok, wrap-eq-ok, ok-injective}
use oci_native_ingress_contr.TlsPolicy.{
  ExplicitTlsPolicy, PolicyJson, parse_policy_value, protocols_eq,
}
use oci_native_ingress_contr.State.Types.{TlsPolicyCandidate, candidate_eq}
use oci_native_ingress_contr.State.Policies.{
  Merged, nothing_merged, merge_cipher, merge_protocols, merge_candidate, merge_from,
  policy_candidate_less, merge_explicit_tls_policy_candidates,
}

-- What the first policy sets, the second sets too, to the same value.
abbrev pub CipherAgrees : ExplicitTlsPolicy → ExplicitTlsPolicy → Type 0
CipherAgrees p m =
    p.has_cipher_suite_name ≡ true
    → (m.has_cipher_suite_name ≡ true) × (m.cipher_suite_name ≡ p.cipher_suite_name)

abbrev pub ProtocolsAgree : ExplicitTlsPolicy → ExplicitTlsPolicy → Type 0
ProtocolsAgree p m = p.has_protocols ≡ true → (m.has_protocols ≡ true) × (m.protocols ≡ p.protocols)

module _ (kind target : String) (c : TlsPolicyCandidate) (p : ExplicitTlsPolicy) where
  merge_cipher_lem :
      (m : Merged) {m' : Merged}
      → merge_cipher kind target c p m ≡ ok m'
      → CipherAgrees p m'.policy
        × CipherAgrees m.policy m'.policy
        × ProtocolsAgree m.policy m'.policy
  unfolding merge_cipher
  merge_cipher_lem m h = (ground arith, ground arith, ground arith)

  merge_protocols_lem :
      (m : Merged) {m' : Merged}
      → merge_protocols kind target c p m ≡ ok m'
      → ProtocolsAgree p m'.policy
        × CipherAgrees m.policy m'.policy
        × ProtocolsAgree m.policy m'.policy
  unfolding merge_protocols
  merge_protocols_lem m h = (ground arith, ground arith, ground arith)

module _ (json : PolicyJson) (kind target : String) where
  -- The candidate's policy parses, and the merged one agrees with it.
  abbrev pub Joined : TlsPolicyCandidate → Option Merged → Type 0
  Joined c r =
      (p : ExplicitTlsPolicy) × (parse_policy_value json c.annotation_name c.raw_value ≡ ok p)
      × (m : Merged) × (r ≡ some m)
      × CipherAgrees p m.policy
      × ProtocolsAgree p m.policy

  merge_candidate_self :
      (c : TlsPolicyCandidate) (r : Option Merged) {r' : Option Merged}
      → merge_candidate json kind target c r ≡ ok r'
      → Joined c r'
  unfolding merge_candidate
  merge_candidate_self c r h =
      let (p, parsed, rest) =
        >>=-eq-ok (wrap _ (parse_policy_value json c.annotation_name c.raw_value)) _ h in
      let (m1, first, rest1) =
        >>=-eq-ok (merge_cipher kind target c p (or_else r nothing_merged)) _ rest in
      let (m2, second, same) = >>=-eq-ok (merge_protocols kind target c p m1) _ rest1 in
      let (cipher, _, _) = merge_cipher_lem kind target c p _ first in
      let (protocols, kept, _) = merge_protocols_lem kind target c p m1 second in
      (p, wrap-eq-ok _ _ parsed, m2, sym (ok-injective same), ground arith, protocols)

  merge_candidate_other :
      (c d : TlsPolicyCandidate) (r : Option Merged) {r' : Option Merged}
      → merge_candidate json kind target c r ≡ ok r'
      → Joined d r
      → Joined d r'
  unfolding merge_candidate
  merge_candidate_other c d r h (q, parsed_d, m, is_m, cipher_d, protocols_d) =
      let (p, _, rest) =
        >>=-eq-ok (wrap _ (parse_policy_value json c.annotation_name c.raw_value)) _ h in
      let (m1, first, rest1) =
        >>=-eq-ok (merge_cipher kind target c p (or_else r nothing_merged)) _ rest in
      let (m2, second, same) = >>=-eq-ok (merge_protocols kind target c p m1) _ rest1 in
      let (_, c1, p1) = merge_cipher_lem kind target c p (or_else r nothing_merged) first in
      let (_, c2, p2) = merge_protocols_lem kind target c p m1 second in
      let c1' : CipherAgrees m.policy m1.policy =
        subst (λ x. CipherAgrees (or_else x nothing_merged).policy m1.policy) is_m c1 in
      let p1' : ProtocolsAgree m.policy m1.policy =
        subst (λ x. ProtocolsAgree (or_else x nothing_merged).policy m1.policy) is_m p1 in
      (q, parsed_d, m2, sym (ok-injective same), ground arith, ground arith)

  merge_candidate-Joined :
      (c : TlsPolicyCandidate) (seen : List TlsPolicyCandidate) (r : Option Merged)
      {r' : Option Merged}
      → merge_candidate json kind target c r ≡ ok r'
      → ((d : TlsPolicyCandidate) → has d seen ≡ true → Joined d r)
      → (d : TlsPolicyCandidate) → has d (c ∷ seen) ≡ true
      → Joined d r'
  unfolding has
  merge_candidate-Joined c seen r {r'} h old d at = elim (Bool-cases (d == c)) [
    | inl same ↦ subst (λ x. Joined x r') (sym (eq_of_== d c same)) (merge_candidate_self c r h)
    | inr other ↦ merge_candidate_other c d r h (old d (ground arith))
  ]

  merge_from_lem :
      (cs seen : List TlsPolicyCandidate) (r : Option Merged) {r' : Option Merged}
      → merge_from json kind target cs seen r ≡ ok r'
      → ((d : TlsPolicyCandidate) → has d seen ≡ true → Joined d r)
      → (d : TlsPolicyCandidate) → (has d seen || has d cs) ≡ true
      → Joined d r'
  unfolding merge_from has
  merge_from_lem [] seen r h old d at = subst (Joined d) (ok-injective h) (old d (ground arith))
  merge_from_lem (c ∷ cs) seen r h old d at = elim (Bool-cases (has c seen)) [
    | inl known ↦
        let has_d : (has d seen || has d cs) ≡ true = elim (Bool-cases (d == c)) [
          | inl same ↦
              let at_c : has d seen ≡ true =
                subst (λ x. has x seen ≡ true) (sym (eq_of_== d c same)) known in
              ground arith
          | inr other ↦ ground arith
        ] in
        merge_from_lem cs seen r (rw (known, merge_from) at h) old d has_d
    | inr new ↦
        let (r1, one, more) =
          >>=-eq-ok (merge_candidate json kind target c r) _ (rw (new, merge_from) at h) in
        merge_from_lem cs (c ∷ seen) r1 more (merge_candidate-Joined c seen r one old) d
          (ground arith)
  ]

  -- When the merge succeeds, the annotation of every candidate parses, the merge has a policy, and
  -- this policy sets what the annotation sets, to the same values.
  pub merge_explicit_tls_policy_candidates_lem :
      (cs : List TlsPolicyCandidate) {r : Option ExplicitTlsPolicy}
      → merge_explicit_tls_policy_candidates json kind target cs ≡ ok r
      → (c : TlsPolicyCandidate) → has c cs ≡ true
      → (p : ExplicitTlsPolicy) × (parse_policy_value json c.annotation_name c.raw_value ≡ ok p)
        × (q : ExplicitTlsPolicy) × (r ≡ some q)
        × CipherAgrees p q
        × ProtocolsAgree p q
  unfolding merge_explicit_tls_policy_candidates has
  merge_explicit_tls_policy_candidates_lem cs h c at =
      let (m, merged, same) =
        >>=-eq-ok (merge_from json kind target (sort_slice policy_candidate_less cs) [] none) _ h in
      let (p, parsed, r, is_r, cipher, protocols) =
        merge_from_lem (sort_slice policy_candidate_less cs) [] none merged (λ d at_d. ground arith)
          c (has-sort_slice policy_candidate_less c cs ∙ at) in
      (
        p,
        parsed,
        r.policy,
        sym (ok-injective same) ∙ ap (Option.map (λ x. x.policy)) is_r,
        cipher,
        protocols,
      )
