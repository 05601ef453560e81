-- ===== src/State/BackendSet/Checkers.antt =====
-- The health checkers of several Ingresses on one backend set (pkg/state/ingressstate.go).
use oci_native_ingress_contr.Common.{
  ℕ, zero, suc, ◌≡◌, ◌≢◌, ◌↔◌, refl, sym, ap, ◌∙◌, String, string_eq, some, List, [], ◌∷◌, ◌++◌,
  arith,
}
use oci_native_ingress_contr.Common.Map.{Map, lookup, insert, lookup-insert_self}
use oci_native_ingress_contr.Exception.{Result, ok, err, ◌>>=◌}
use oci_native_ingress_contr.Exception.Laws.{>>=-eq-ok, ok-injective, err_not_ok}
use oci_native_ingress_contr.Kube.{Ingress, HealthCheckerDetails, health_checker_eq}
use oci_native_ingress_contr.Util.HealthCheck.{get_health_checker, get_default_health_checker}
use oci_native_ingress_contr.State.BackendSet.{
  health_checker_conflicts, conflict_on, validate_backend_set_health_checker,
}

-- The Ingresses with paths on one backend set, in turn.
unfoldable pub validate_all :
    List Ingress
    → Map String HealthCheckerDetails
    → String
    → Result (Map String HealthCheckerDetails)
unfolding validate_backend_set_health_checker
validate_all [] m b = ok m
validate_all (i ∷ is) m b = do
  next ← validate_backend_set_health_checker i m b
  validate_all is next b

abbrev pub repeat {ℓ} : {A : Type ℓ} → ℕ → A → List A
repeat zero a = []
repeat (suc n) a = a ∷ repeat n a

-- The health checkers of the Ingresses, by their annotations.
abbrev pub CheckersOf : List Ingress → List HealthCheckerDetails → Type 0
CheckersOf [] [] = Unit
CheckersOf (i ∷ is) (c ∷ cs) = (get_health_checker i ≡ ok c) × CheckersOf is cs
CheckersOf [] (c ∷ cs) = ⊥
CheckersOf (i ∷ is) [] = ⊥

accepts_default :
    (i : Ingress) (m : Map String HealthCheckerDetails) (b : String) (c : HealthCheckerDetails)
    → get_health_checker i ≡ ok c
    → c ≡ get_default_health_checker
    → validate_backend_set_health_checker i m b ≡ ok (insert b c m)
unfolding validate_backend_set_health_checker health_checker_conflicts
accepts_default i m b c has_checker is_default = rw has_checker (ground arith)

accepts_current :
    (i : Ingress) (m : Map String HealthCheckerDetails) (b : String) (c : HealthCheckerDetails)
    → get_health_checker i ≡ ok c
    → lookup b m ≡ some c
    → validate_backend_set_health_checker i m b ≡ ok (insert b c m)
unfolding validate_backend_set_health_checker health_checker_conflicts
accepts_current i m b c has_checker at = rw has_checker (ground arith)

refuses :
    (i : Ingress) (m : Map String HealthCheckerDetails) (b : String)
    (current c : HealthCheckerDetails)
    → lookup b m ≡ some current
    → get_health_checker i ≡ ok c
    → c ≢ get_default_health_checker
    → c ≢ current
    → validate_backend_set_health_checker i m b ≡ err (conflict_on "health checker" b)
unfolding validate_backend_set_health_checker health_checker_conflicts
refuses i m b current c at has_checker other new = rw has_checker (ground arith)

repeat-append {ℓ} :
    {A : Type ℓ} (k n : ℕ) (a : A) → (p : ℕ) × (repeat k a ++ repeat n a ≡ repeat p a)
repeat-append zero n a = (n, refl)
repeat-append (suc k) n a = let (p, q) = repeat-append k n a in (suc p, ap (λ xs. a ∷ xs) q)

-- Copies of the current checker, then default ones.
abbrev pub Settles : HealthCheckerDetails → List HealthCheckerDetails → Type 0
Settles current cs = (k n : ℕ) × (cs ≡ repeat k current ++ repeat n get_default_health_checker)

step_to :
    (i : Ingress) (is : List Ingress) (m : Map String HealthCheckerDetails) (b : String)
    (current c : HealthCheckerDetails) (cs : List HealthCheckerDetails)
    → lookup b m ≡ some current
    → get_health_checker i ≡ ok c
    → ((n : Map String HealthCheckerDetails) (now : HealthCheckerDetails)
        → lookup b n ≡ some now
        → (r : Map String HealthCheckerDetails) → validate_all is n b ≡ ok r
        → Settles now cs)
    → (r : Map String HealthCheckerDetails) → validate_all (i ∷ is) m b ≡ ok r
    → Settles current (c ∷ cs)
unfolding validate_all
step_to i is m b current c cs at has_checker later r h =
    let (next, taken, rest) = >>=-eq-ok (validate_backend_set_health_checker i m b) _ h in
    elim (health_checker_eq.dec c current) [
      | yes same ↦
          let written = sym (
            ok-injective
              (sym (accepts_current i m b c has_checker (at ∙ ap some (sym same))) ∙ taken)) in
          let (k, n, q) =
            later next current (ap (lookup b) written ∙ (lookup-insert_self b c m ∙ ap some same)) r
              rest in
          (suc k, n, ground (arith, q, same))
      | no new ↦ elim (health_checker_eq.dec c get_default_health_checker) [
        | yes default ↦
            let written =
              sym (ok-injective (sym (accepts_default i m b c has_checker default) ∙ taken)) in
            let (k, n, q) =
              later next get_default_health_checker
                (ap (lookup b) written ∙ (lookup-insert_self b c m ∙ ap some default)) r rest in
            let (p, joined) = repeat-append k n get_default_health_checker in
            (0, suc p, ground (arith, q, default, joined))
        | no other ↦
            err_not_ok (conflict_on "health checker" b)
              (sym (refuses i m b current c at has_checker other new) ∙ taken)
      ]
    ]

to_settles :
    (is : List Ingress) (cs : List HealthCheckerDetails) (b : String)
    → CheckersOf is cs
    → (m : Map String HealthCheckerDetails) (current : HealthCheckerDetails)
    → lookup b m ≡ some current
    → (r : Map String HealthCheckerDetails) → validate_all is m b ≡ ok r
    → Settles current cs
to_settles [] [] b of m current at r h = (0, 0, refl)
to_settles [] (c ∷ cs) b of m current at r h = absurd of
to_settles (i ∷ is) [] b of m current at r h = absurd of
to_settles (i ∷ is) (c ∷ cs) b (has_checker, of) m current at r h =
    step_to i is m b current c cs at has_checker (to_settles is cs b of) r h

from_settles :
    (is : List Ingress) (cs : List HealthCheckerDetails) (b : String)
    → CheckersOf is cs
    → (k n : ℕ) (m : Map String HealthCheckerDetails) (current : HealthCheckerDetails)
    → lookup b m ≡ some current
    → cs ≡ repeat k current ++ repeat n get_default_health_checker
    → (r : Map String HealthCheckerDetails) × (validate_all is m b ≡ ok r)
unfolding validate_all
from_settles [] cs b of k n m current at h = (m, refl)
from_settles (i ∷ is) [] b of k n m current at h = absurd of
from_settles (i ∷ is) (c ∷ cs) b (has_checker, of) (suc k) n m current at h =
    let same : c ≡ current = cc in
    let (r, q) =
      from_settles is cs b of k n (insert b c m) current (lookup-insert_self b c m ∙ ap some same)
        cc in
    (r, rw (accepts_current i m b c has_checker (at ∙ ap some (sym same))) q)
from_settles (i ∷ is) (c ∷ cs) b (has_checker, of) zero (suc n) m current at h =
    let default : c ≡ get_default_health_checker = cc in
    let (r, q) =
      from_settles is cs b of zero n (insert b c m) get_default_health_checker
        (lookup-insert_self b c m ∙ ap some default) cc in
    (r, rw (accepts_default i m b c has_checker default) q)
from_settles (i ∷ is) (c ∷ cs) b of zero zero m current at h = cc

-- On a backend set that has a health checker already, Ingresses whose annotations give health checkers
-- are all accepted exactly if their checkers are, in turn, any number of copies of the one that is there
-- and then any number of default ones.
pub validate_all_iff :
    (is : List Ingress) (cs : List HealthCheckerDetails) (b : String)
    (m : Map String HealthCheckerDetails) (current : HealthCheckerDetails)
    → lookup b m ≡ some current
    → CheckersOf is cs
    → ((r : Map String HealthCheckerDetails) × (validate_all is m b ≡ ok r)) ↔ Settles current cs
validate_all_iff is cs b m current at of = (
  λ (r, h). to_settles is cs b of m current at r h,
  λ (k, n, h). from_settles is cs b of k n m current at h,
)
