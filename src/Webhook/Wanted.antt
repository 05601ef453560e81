-- ===== src/Webhook/Wanted.antt =====
-- Which paths ask for a gate of a pod (pkg/podreadiness/webhook.go).
use oci_native_ingress_contr.Common.{
  ◌≡◌, subst, ◌≢◌, ◌↔◌, ◌⊎◌, refl, sym, ap, ◌∙◌, String, true, ◌||◌, Option, none, some, List, [],
  ◌∷◌, ◌++◌, ◌==◌, string_eq, option_string_eq, if◌then◌else◌, arith, ==_refl, eq_of_==, Bool-cases,
  inl, inr, All,
}
use oci_native_ingress_contr.Common.Map.{Map, lookup}
use oci_native_ingress_contr.Common.Set.{has}
use oci_native_ingress_contr.Exception.{Result, ok, ◌>>=◌}
use oci_native_ingress_contr.Exception.Laws.{>>=-eq-ok, ok-injective}
use oci_native_ingress_contr.Kube.{
  Ingress, IngressRule, HttpIngressPath, IngressServiceBackend, Service, ServiceLister, Digest,
}
use oci_native_ingress_contr.Util.Names.{get_pod_readiness_condition}
use oci_native_ingress_contr.Webhook.{
  NewPod, handle_create, holds_labels, selects, path_gates, rule_gates, target_gates,
}
use oci_native_ingress_contr.Webhook.Gates.{has-append, has-add_gates, add_gates-settled}

-- Some element of the list satisfies the predicate.
abbrev pub Some : {A : Type 0} → (A → Type 0) → List A → Type 0
Some P [] = ⊥
Some P (x ∷ xs) = P x ⊎ Some P xs

-- A selector that is not empty, and whose labels the pod all has.
abbrev pub Selects : Map String String → Map String String → Type 0
Selects selector labels =
    (selector ≢ []) × All (λ entry. lookup entry.0 labels ≡ some entry.1) selector

holds_labels_iff :
    (selector labels : Map String String)
    → (holds_labels selector labels ≡ true)
      ↔ All (λ entry. lookup entry.0 labels ≡ some entry.1) selector
unfolding holds_labels
holds_labels_iff [] labels = (λ h. tt, λ h. refl)
holds_labels_iff ((key, value) ∷ selector) labels =
    let (to, from) = holds_labels_iff selector labels in
    (
      λ h. (eq_of_== (lookup key labels) (some value) (ground arith), to (ground arith)),
      λ h. rw (h.0, ==_refl {A = Option String} (some value)) (from h.1),
    )

selects_iff :
    (selector labels : Map String String)
    → (selects selector labels ≡ true) ↔ Selects selector labels
unfolding selects
selects_iff [] labels = (λ h. cc, λ h. absurd (h.0 refl))
selects_iff (entry ∷ selector) labels =
    let (to, from) = holds_labels_iff (entry ∷ selector) labels in
    (λ h. (λ q. cc, to h), λ h. from h.1)

module _ (sha256_hex : Digest) (services : ServiceLister) (namespace : String)
    (labels : Map String String) (g : String) where
  -- The gate is that of the path, and the path's service selects the pod.
  abbrev pub Asks : Ingress → String → HttpIngressPath → Option IngressServiceBackend → Type 0
  Asks i host p none = ⊥
  Asks i host p (some s) =
      (svc : Service) × (services namespace s.name ≡ ok svc)
      × Selects svc.selector labels
      × (g ≡ get_pod_readiness_condition sha256_hex i.name host p)

  abbrev pub RuleAsks : Ingress → String → Option (List HttpIngressPath) → Type 0
  RuleAsks i host none = ⊥
  RuleAsks i host (some paths) = Some (λ p. Asks i host p p.backend.service) paths

  -- The gate is that of some path of some Ingress.
  abbrev pub Wanted : List Ingress → Type 0
  Wanted is = Some (λ i. Some (λ rule. RuleAsks i rule.host rule.http) i.rules) is

  -- The gate of a path is there, or one of the later ones.
  selected :
      (i : Ingress) (host : String) (p : HttpIngressPath) (s : IngressServiceBackend)
      (svc : Service) (P : Type 0) (rest gates : List String)
      → services namespace s.name ≡ ok svc
      → ((has g rest ≡ true) ↔ P)
      → (if selects svc.selector labels
          then get_pod_readiness_condition sha256_hex i.name host p ∷ rest
          else rest)
        ≡ gates
      → (has g gates ≡ true) ↔ (Asks i host p (some s) ⊎ P)
  unfolding has
  selected i host p s svc P rest gates found (to, from) h =
      let name = get_pod_readiness_condition sha256_hex i.name host p in
      let (selecting, selected') = selects_iff svc.selector labels in
      elim (Bool-cases (selects svc.selector labels)) [
        | inl chosen ↦
            let same : gates ≡ name ∷ rest = sym (rw chosen at h) in
            (
              λ m. elim (Bool-cases (g == name)) [
                | inl it ↦ inl (svc, found, selecting chosen, eq_of_== g name it)
                | inr other ↦ inr (to (ground arith))
              ],
              λ asks. elim asks [
                | inl a ↦ let q : g ≡ name = a.3 in rw same (rw q (ground (arith, ==_refl name)))
                | inr b ↦ let later = from b in ground arith
              ],
            )
        | inr passed ↦
            let same : gates ≡ rest = sym (rw passed at h) in
            (
              λ m. inr (to (ground arith)),
              λ asks. elim asks [
                | inl a ↦
                    let again : svc ≡ a.0 = ok-injective (sym found ∙ a.1) in
                    let chosen : selects svc.selector labels ≡ true =
                      selected'
                        (subst (λ (x : Service). Selects x.selector labels) (sym again) a.2) in
                    absurd (ground arith)
                | inr b ↦ let later = from b in ground arith
              ],
            )
      ]

  path_step :
      (i : Ingress) (host : String) (p : HttpIngressPath) (s : Option IngressServiceBackend)
      (later : Result (List String)) (P : Type 0) (gates : List String)
      → ((gs : List String) → later ≡ ok gs → (has g gs ≡ true) ↔ P)
      → elim s [
        | none ↦ later
        | some s ↦ do
          svc ← services namespace s.name
          rest ← later
          ok (
              if selects svc.selector labels
              then get_pod_readiness_condition sha256_hex i.name host p ∷ rest
              else rest)
      ]
        ≡ ok gates
      → (has g gates ≡ true) ↔ (Asks i host p s ⊎ P)
  path_step i host p none later P gates ih h =
      let (to, from) = ih gates h in
      (λ m. inr (to m), λ asks. elim asks [ inl a ↦ absurd a | inr b ↦ from b ])
  path_step i host p (some s) later P gates ih h =
      let (svc, found, next) = >>=-eq-ok (services namespace s.name) _ h in
      let (rest, done, last) = >>=-eq-ok later _ next in
      selected i host p s svc P rest gates found (ih rest done) (ok-injective last)

  has-path_gates :
      (i : Ingress) (host : String) (paths : List HttpIngressPath) (gates : List String)
      → path_gates sha256_hex services namespace labels i host paths ≡ ok gates
      → (has g gates ≡ true) ↔ RuleAsks i host (some paths)
  unfolding path_gates has
  has-path_gates i host [] gates h =
      (λ m. let same = ok-injective h in absurd (ground arith), λ m. absurd m)
  has-path_gates i host (p ∷ paths) gates h =
      path_step i host p p.backend.service
        (path_gates sha256_hex services namespace labels i host paths) _ gates
        (has-path_gates i host paths) h

  -- Gates of two parts of the list.
  joined :
      (a b gates : List String) (P Q : Type 0)
      → ((has g a ≡ true) ↔ P)
      → ((has g b ≡ true) ↔ Q)
      → a ++ b ≡ gates
      → (has g gates ≡ true) ↔ (P ⊎ Q)
  joined a b gates P Q (to_p, from_p) (to_q, from_q) h =
      let split = ap (has g) (sym h) ∙ has-append g a b in
      (
        λ m. elim (Bool-cases (has g a)) [
          | inl there ↦ inl (to_p there)
          | inr other ↦ inr (to_q (ground arith))
        ],
        λ either. elim either [
          | inl p ↦ let there = from_p p in ground arith
          | inr q ↦ let there = from_q q in ground arith
        ],
      )

  rule_step :
      (i : Ingress) (host : String) (paths : Option (List HttpIngressPath))
      (later : Result (List String)) (P : Type 0) (gates : List String)
      → ((gs : List String) → later ≡ ok gs → (has g gs ≡ true) ↔ P)
      → elim paths [
        | none ↦ later
        | some ps ↦ do
          own ← path_gates sha256_hex services namespace labels i host ps
          rest ← later
          ok (own ++ rest)
      ]
        ≡ ok gates
      → (has g gates ≡ true) ↔ (RuleAsks i host paths ⊎ P)
  rule_step i host none later P gates ih h =
      let (to, from) = ih gates h in
      (λ m. inr (to m), λ asks. elim asks [ inl a ↦ absurd a | inr b ↦ from b ])
  rule_step i host (some ps) later P gates ih h =
      let (own, found, next) =
        >>=-eq-ok (path_gates sha256_hex services namespace labels i host ps) _ h in
      let (rest, done, last) = >>=-eq-ok later _ next in
      joined own rest gates _ P (has-path_gates i host ps own found) (ih rest done)
        (ok-injective last)

  has-rule_gates :
      (i : Ingress) (rules : List IngressRule) (gates : List String)
      → rule_gates sha256_hex services namespace labels i rules ≡ ok gates
      → (has g gates ≡ true) ↔ Some (λ rule. RuleAsks i rule.host rule.http) rules
  unfolding rule_gates has
  has-rule_gates i [] gates h =
      (λ m. let same = ok-injective h in absurd (ground arith), λ m. absurd m)
  has-rule_gates i (rule ∷ rules) gates h =
      rule_step i rule.host rule.http (rule_gates sha256_hex services namespace labels i rules) _
        gates (has-rule_gates i rules) h

  pub has-target_gates :
      (is : List Ingress) (gates : List String)
      → target_gates sha256_hex services namespace labels is ≡ ok gates
      → (has g gates ≡ true) ↔ Wanted is
  unfolding target_gates has
  has-target_gates [] gates h =
      (λ m. let same = ok-injective h in absurd (ground arith), λ m. absurd m)
  has-target_gates (i ∷ is) gates h =
      let (own, found, next) =
        >>=-eq-ok (rule_gates sha256_hex services namespace labels i i.rules) _ h in
      let (rest, done, last) =
        >>=-eq-ok (target_gates sha256_hex services namespace labels is) _ next in
      joined own rest gates _ _ (has-rule_gates i i.rules own found) (has-target_gates is rest done)
        (ok-injective last)

-- Where the lookups succeed, a gate is one of the pod's after the webhook exactly if the pod had it, or it is that of a
-- path of an Ingress of the namespace whose service has a selector that is not empty and that the
-- pod's labels satisfy; and the webhook adds nothing more to this pod.
pub handle_create_lem :
    (sha256_hex : Digest) (services : ServiceLister) (is : List Ingress) (pod : NewPod)
    (gates : List String)
    → handle_create sha256_hex services (ok is) pod ≡ ok gates
    → ((g : String)
        → (has g gates ≡ true) ↔ (
            (has g pod.readiness_gates ≡ true)
            ⊎ Wanted sha256_hex services pod.namespace pod.labels g is))
      × (handle_create sha256_hex services (ok is) (record pod { readiness_gates = gates })
          ≡ ok gates)
unfolding handle_create
handle_create_lem sha256_hex services is pod gates h =
    let (targets, found, added) =
      >>=-eq-ok (target_gates sha256_hex services pod.namespace pod.labels is) _ h in
    let holds : (g : String) → has g gates ≡ (has g targets || has g pod.readiness_gates) =
      λ g. ap (has g) (sym (ok-injective added)) ∙ has-add_gates g targets pod.readiness_gates in
    (
      λ g.
          let (to, from) =
            has-target_gates sha256_hex services pod.namespace pod.labels g is targets found in
          (
            λ m. elim (Bool-cases (has g pod.readiness_gates)) [
              | inl old ↦ inl old
              | inr new ↦ inr (to (ground (arith, holds g)))
            ],
            λ either. elim either [
              | inl old ↦ ground (arith, holds g)
              | inr wanted ↦ let there = from wanted in ground (arith, holds g)
            ],
          ),
      rw (found, add_gates-settled targets gates (λ g m. ground (arith, holds g))),
    )
