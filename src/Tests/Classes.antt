-- ===== src/Tests/Classes.antt =====
-- The theorems on the class of a load balancer and on the backends, applied to concrete inputs.
use mathlib.Core.List.{Mem, mem-cons_self}
use native.Mathlib.Decide.{ℕ_discrete}
use oci_native_ingress_contr.Common.{
  ◌≡◌, refl, String, string_eq, option_string_eq, false, none, some, List, [], ◌∷◌, pos, int_eq,
}
use oci_native_ingress_contr.Common.Map.{lookup}
use oci_native_ingress_contr.Common.Set.{}
use oci_native_ingress_contr.Common.Text.{is_blank, parse_bool}
use oci_native_ingress_contr.Exception.{ok}
use oci_native_ingress_contr.Kube.{Ingress, IngressBackend, IngressClass}
use oci_native_ingress_contr.Util.Class.{Tags, get_ingress_class, get_ingresses_for_class}
use oci_native_ingress_contr.Util.Selected.{get_ingresses_for_class-Complete}
use oci_native_ingress_contr.IngressClass.Reconcile.{delete_ingress_class}
use oci_native_ingress_contr.IngressClass.Protected.{IsHarmless, delete_ingress_class-IsHarmless}
use oci_native_ingress_contr.Backend.Readiness.{
  Pod, Health, Condition, readiness_update, readiness_update-settles,
}
use oci_native_ingress_contr.Backend.{default_backend_of}
use oci_native_ingress_contr.Backend.Default.{ServesAll, default_backend_of-ServesAll}

abbrev protected : IngressClass
protected = record {
  name = "oci";
  annotations =
      ("oci-native-ingress.oraclecloud.com/delete-protection-enabled", "true")
      ∷ ("oci-native-ingress.oraclecloud.com/id", "lb_1")
      ∷ ("oci-native-ingress.oraclecloud.com/network-security-group-ids", "nsg_1, nsg_2")
      ∷ [];
  controller = "oci";
}

delete_ingress_class-IsHarmless_example : IsHarmless (delete_ingress_class protected)
unfolding lookup is_blank parse_bool delete_ingress_class
delete_ingress_class-IsHarmless_example = delete_ingress_class-IsHarmless protected refl

abbrev actual_tags : Tags
actual_tags = ("Ops", ("Team", "red") ∷ ("Stage", "live") ∷ []) ∷ []

abbrev supplied_tags : Tags
supplied_tags = ("ops", ("TEAM", "blue") ∷ []) ∷ []

abbrev default_tags : Tags
default_tags = ("ops", ("stage", "live") ∷ ("team", "red") ∷ []) ∷ []

abbrev gate : String
gate = "podreadiness.ingress.oraclecloud.com/abc"

abbrev waiting : Pod
waiting = record { readiness_gates = gate ∷ []; conditions = [] }

abbrev health : Health
health = record { critical = "10.0.0.1:80" ∷ []; warning = []; unknown = [] }

abbrev critical_now : Condition
critical_now = record {
  type = gate;
  status = false;
  reason = "backend is CRITICAL";
  message = "";
  last_transition_time = some 7;
}

readiness_update-settles_example :
    readiness_update 9
      (record { readiness_gates = gate ∷ []; conditions = critical_now ∷ [] })
      gate
      health
      "10.0.0.1:80"
    ≡ none
unfolding readiness_update string_eq
readiness_update-settles_example =
    readiness_update-settles 7 9 waiting
      (record { readiness_gates = gate ∷ []; conditions = critical_now ∷ [] }) gate health
      "10.0.0.1:80" critical_now refl refl

abbrev web : IngressBackend
web = record {
  service = some (record { name = "web"; port = record { number = pos 80; name = "" } });
}

abbrev with_default : String → Ingress
with_default namespace = record {
  namespace = namespace;
  name = "site";
  annotations = [];
  deletion_timestamp = none;
  ingress_class_name = none;
  default_backend = some web;
  tls = [];
  rules = [];
}

default_backend_of-ServesAll_example :
    ServesAll
      (some (web, "a"))
      (with_default "a" ∷ record (with_default "a") { name = "other" } ∷ [])
unfolding default_backend_of string_eq int_eq ℕ_discrete
default_backend_of-ServesAll_example =
    default_backend_of-ServesAll "a"
      (with_default "a" ∷ record (with_default "a") { name = "other" } ∷ []) (some (web, "a"))
      (refl, (refl, tt)) refl

abbrev default_class : IngressClass
default_class = record {
  name = "oci";
  annotations = ("ingressclass.kubernetes.io/is-default-class", "true") ∷ [];
  controller = "oci";
}

get_ingresses_for_class-Complete_example :
    (found : List Ingress) × (get_ingresses_for_class (ok (with_default "a" ∷ [])) default_class
      ≡ ok found)
    × Mem (with_default "a") found
unfolding get_ingress_class lookup string_eq option_string_eq
get_ingresses_for_class-Complete_example =
    get_ingresses_for_class-Complete (with_default "a") (protected ∷ default_class ∷ [])
      (with_default "a" ∷ []) default_class refl mem-cons_self
