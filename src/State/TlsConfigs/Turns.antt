-- ===== src/State/TlsConfigs/Turns.antt =====
-- The candidates of the listeners when the Ingresses come in turn (appendListenerTLSCandidate and
-- buildListenerTLSConfigMap in pkg/state/ingressstate.go).
use mathlib.Core.List.{Perm, Permᴰ, perm_middle, append_assoc}
use mathlib.Core.Logic.{∥∥₁_elim, ∥∥₁_prop}
use mathlib.Core.List.Perm
use oci_native_ingress_contr.Common.{
  ℕ, ◌+◌, ◌≡◌, refl, sym, ap, ◌∙◌, subst, String, string_eq, ℤ, int_eq, false, List, [], ◌∷◌, ◌++◌,
  ◌==◌, or_else, if◌then◌else◌, arith, eq_of_==, Bool-cases, inl, inr,
}
use oci_native_ingress_contr.Common.Map.{Map, lookup, lookup-insert}
use oci_native_ingress_contr.State.Types.{TlsConfig, ListenerTlsCandidate}
use oci_native_ingress_contr.State.Tls.{Gathered, append_listener_tls_candidate}
use oci_native_ingress_contr.State.TlsConfigs.{listener_tls_configs}
use oci_native_ingress_contr.State.TlsConfigs.Order.{listener_tls_configs-perm}

abbrev pub Candidates : Type 0
Candidates = Map ℤ (List ListenerTlsCandidate)

-- The configurations that an Ingress has for ports, appended one after the other.
unfoldable pub append_all : String → List (ℤ × TlsConfig) → Gathered → Gathered
unfolding append_listener_tls_candidate
append_all key [] g = g
append_all key ((port, config) ∷ found) g =
    append_all key found (append_listener_tls_candidate port key config g)

abbrev no_config : TlsConfig
no_config = record { artifact = ""; type = ""; namespace = "" }

-- Every Ingress starts to count at 0.
abbrev start : Candidates → Gathered
start m = record {
  candidates = m;
  discovery_order = 0;
  has_tls_artifact_input = false;
  backend_tls_config = no_config;
}

-- The Ingresses in turn: their keys and what is found in each.
unfoldable pub in_turn : List (String × List (ℤ × TlsConfig)) → Candidates → Candidates
unfolding append_all
in_turn [] m = m
in_turn ((key, found) ∷ ingresses) m = in_turn ingresses (append_all key found (start m)).candidates

abbrev pub at_port : ℤ → Candidates → List ListenerTlsCandidate
at_port port m = or_else (lookup port m) []

-- The candidates for one port, numbered by their place among those of the Ingress.
abbrev numbered : ℤ → String → ℕ → List (ℤ × TlsConfig) → List ListenerTlsCandidate
numbered port key n [] = []
numbered port key n ((p, config) ∷ found) =
    let rest = numbered port key (n + 1) found in
    if port == p
    then record { ingress_key = key; discovery_order = n; config = config } ∷ rest
    else rest

abbrev flat : {A B : Type 0} → (A → List B) → List A → List B
flat f [] = []
flat f (x ∷ xs) = f x ++ flat f xs

append_nil : {A : Type 0} (xs : List A) → xs ++ [] ≡ xs
append_nil [] = refl
append_nil (x ∷ xs) = ap (λ ys. x ∷ ys) (append_nil xs)

exchange : {A : Type 0} (a b rest : List A) → Perm (a ++ (b ++ rest)) (b ++ (a ++ rest))
exchange [] b rest = Perm.refl _
exchange (x ∷ a) b rest =
    Perm.trans (Perm.cons x (exchange a b rest)) (Perm.symm (perm_middle b (a ++ rest)))

module _ {A B : Type 0} (f : A → List B) where
  flat_steps : {xs ys : List A} → Permᴰ xs ys → Perm (flat f xs) (flat f ys)
  flat_steps Permᴰ.nil = Perm.refl []
  flat_steps (Permᴰ.cons {a} {b} {l₁} {l₂} e p) =
      subst (λ z. Perm (f a ++ flat f l₁) (f z ++ flat f l₂)) e
        (Perm.append_left (f a) (flat_steps p))
  flat_steps (Permᴰ.swap {a} {b} {a'} {b'} {l} e d) =
      subst (λ z. Perm (f a ++ (f b ++ flat f l)) (f z ++ (f b' ++ flat f l))) d
        (subst (λ z. Perm (f a ++ (f b ++ flat f l)) (f b ++ (f z ++ flat f l))) e
          (exchange (f a) (f b) (flat f l)))
  flat_steps (Permᴰ.trans p q) = Perm.trans (flat_steps p) (flat_steps q)

  flat_perm : {xs ys : List A} → Perm xs ys → Perm (flat f xs) (flat f ys)
  flat_perm {xs} {ys} p = ∥∥₁_elim p ∥∥₁_prop flat_steps

at_port-append :
    (port p : ℤ) (key : String) (config : TlsConfig) (g : Gathered)
    → at_port port (append_listener_tls_candidate p key config g).candidates
      ≡ at_port port g.candidates ++ numbered port key g.discovery_order ((p, config) ∷ [])
unfolding append_listener_tls_candidate
at_port-append port p key config g = ground (
  arith,
  lookup-insert port p
      (at_port p g.candidates
        ++ (record { ingress_key = key; discovery_order = g.discovery_order; config = config }
            ∷ []))
      g.candidates,
  eq_of_== port p,
  append_nil (at_port port g.candidates),
)

one_more :
    (port p : ℤ) (key : String) (config : TlsConfig) (n : ℕ) (found : List (ℤ × TlsConfig))
    → numbered port key n ((p, config) ∷ []) ++ numbered port key (n + 1) found
      ≡ numbered port key n ((p, config) ∷ found)
one_more port p key config n found = elim (Bool-cases (port == p)) [
  | inl same ↦ rw same refl
  | inr other ↦ rw other refl
]

at_port-append_all :
    (port : ℤ) (key : String) (found : List (ℤ × TlsConfig)) (g : Gathered)
    → at_port port (append_all key found g).candidates
      ≡ at_port port g.candidates ++ numbered port key g.discovery_order found
unfolding append_all append_listener_tls_candidate
at_port-append_all port key [] g = sym (append_nil _)
at_port-append_all port key ((p, config) ∷ found) g =
    let next = append_listener_tls_candidate p key config g in
    let later = numbered port key (g.discovery_order + 1) found in
    at_port-append_all port key found next
    ∙ (ap (λ xs. xs ++ later) (at_port-append port p key config g)
        ∙ (append_assoc (at_port port g.candidates)
              (numbered port key g.discovery_order ((p, config) ∷ [])) later
            ∙ ap (λ xs. at_port port g.candidates ++ xs)
                (one_more port p key config g.discovery_order found)))

at_port-in_turn :
    (port : ℤ) (ingresses : List (String × List (ℤ × TlsConfig))) (m : Candidates)
    → at_port port (in_turn ingresses m)
      ≡ at_port port m ++ flat (λ i. numbered port i.0 0 i.1) ingresses
unfolding in_turn
at_port-in_turn port [] m = sym (append_nil _)
at_port-in_turn port ((key, found) ∷ ingresses) m =
    at_port-in_turn port ingresses (append_all key found (start m)).candidates
    ∙ (ap (λ xs. xs ++ flat (λ i. numbered port i.0 0 i.1) ingresses)
          (at_port-append_all port key found (start m))
        ∙ append_assoc (at_port port m) (numbered port key 0 found)
            (flat (λ i. numbered port i.0 0 i.1) ingresses))

-- Ingresses that come in another order, each with the same configurations for its ports in the same order,
-- give every listener the same configurations in the same order.
pub in_turn-perm :
    (is js : List (String × List (ℤ × TlsConfig))) (port : ℤ)
    → Perm is js
    → listener_tls_configs (at_port port (in_turn is []))
      ≡ listener_tls_configs (at_port port (in_turn js []))
in_turn-perm is js port p =
    let find : String × List (ℤ × TlsConfig) → List ListenerTlsCandidate =
      λ i. numbered port i.0 0 i.1 in
    ap listener_tls_configs (at_port-in_turn port is [])
    ∙ (listener_tls_configs-perm _ _ (Perm.append_left (at_port port []) (flat_perm find p))
        ∙ sym (ap listener_tls_configs (at_port-in_turn port js [])))
