-- ===== src/Util/Selected.antt =====
-- The class of an Ingress and the Ingresses of a class (pkg/util/util.go).
use mathlib.Core.List.{Mem}
use oci_native_ingress_contr.Common.{
  ◌≡◌, refl, String, Bool, true, false, Option, none, some, List, [], ◌∷◌, ◌==◌, string_eq,
  option_string_eq, eq_of_==, ==_refl, select, arith, if◌then◌else◌,
}
use oci_native_ingress_contr.Common.Member.{mem-select}
use oci_native_ingress_contr.Exception.{ok}
use oci_native_ingress_contr.Exception.Laws.{ok-injective}
use oci_native_ingress_contr.Kube.{Ingress, IngressClass}
use oci_native_ingress_contr.Util.Class.{
  is_default_class, find_class, get_ingress_class, get_ingresses_for_class,
}

-- The test of `find_class`, and that of `get_ingresses_for_class`.
abbrev is_class_of : Option String → IngressClass → Bool
is_class_of name ic = elim name [ none ↦ is_default_class ic | some n ↦ ic.name == n ]

abbrev is_of_class : IngressClass → Ingress → Bool
is_of_class ic i = elim i.ingress_class_name [ none ↦ is_default_class ic | some n ↦ n == ic.name ]

-- The first that passes a test passes it, if the later ones that are found do.
first-Passes :
    (test : IngressClass → Bool) (b : Bool) (c ic : IngressClass) (rest : Option IngressClass)
    → test c ≡ b
    → (if b then some c else rest) ≡ some ic
    → (rest ≡ some ic → test ic ≡ true)
    → test ic ≡ true
first-Passes test true c ic rest q h later = cc
first-Passes test false c ic rest q h later = later h

find_class-Passes :
    (name : Option String) (ics : List IngressClass) (ic : IngressClass)
    → find_class name ics ≡ some ic
    → is_class_of name ic ≡ true
unfolding find_class
find_class-Passes name [] ic h = ground arith
find_class-Passes name (c ∷ ics) ic h =
    first-Passes (is_class_of name) (is_class_of name c) c ic (find_class name ics) refl h
      (find_class-Passes name ics ic)

same_test :
    (name : Option String) (ic : IngressClass) (i : Ingress)
    → i.ingress_class_name ≡ name
    → is_class_of name ic ≡ true
    → is_of_class ic i ≡ true
same_test none ic i q h = rw q h
same_test (some n) ic i q h = rw q (ground (arith, eq_of_== ic.name n, ==_refl ic.name))

-- An Ingress whose class GetIngressClass finds is among those of this class by GetIngressesForClass.
pub get_ingresses_for_class-Complete :
    (i : Ingress) (ics : List IngressClass) (ingresses : List Ingress) (ic : IngressClass)
    → get_ingress_class i (ok ics) ≡ ok (some ic)
    → Mem i ingresses
    → (found : List Ingress) × (get_ingresses_for_class (ok ingresses) ic ≡ ok found) × Mem i found
unfolding get_ingress_class get_ingresses_for_class
get_ingresses_for_class-Complete i ics ingresses ic h m =
    let passes = find_class-Passes i.ingress_class_name ics ic (ok-injective h) in
    (
      select (is_of_class ic) ingresses,
      refl,
      mem-select (is_of_class ic) i ingresses (same_test i.ingress_class_name ic i refl passes) m,
    )
