-- ===== src/Util/Class.antt =====
-- The annotations and parameters of an IngressClass, and its Ingresses (pkg/util/util.go).
use oci_native_ingress_contr.Common.{
  String, ◌<>◌, ℕ, Bool, false, not, ◌||◌, Option, none, some, List, [], ◌∷◌, ◌==◌, string_eq,
  option_string_eq, if◌then◌else◌, is_some, select, or_else,
}
use oci_native_ingress_contr.Common.Map.{Map, lookup}
use oci_native_ingress_contr.Common.Text.{trim_space, is_blank, split}
use oci_native_ingress_contr.Exception.{Result, ok, err, plain, wrap, ◌>>=◌}
use oci_native_ingress_contr.Kube.{Ingress, IngressClass}
use oci_native_ingress_contr.Util.Annotation.{bool_or}

abbrev pub class_annotation : String → IngressClass → Option String
class_annotation name ic = lookup name ic.annotations

abbrev is_default_annotation : String
is_default_annotation = "ingressclass.kubernetes.io/is-default-class"

abbrev load_balancer_id_annotation : String
load_balancer_id_annotation = "oci-native-ingress.oraclecloud.com/id"

-- `ic.Annotations[IngressClassIsDefault] == "true"`
unfoldable pub is_default_class : IngressClass → Bool
is_default_class ic = class_annotation is_default_annotation ic == some "true"

-- The fields of `IngressClassParametersSpec` that the load balancer is made from.
pub record Parameters : Type 0 where
  pub compartment_id : String
  pub load_balancer_name : String
  pub subnet_id : String
  pub reserved_public_address_id : String
  pub is_private : Bool
  pub min_bandwidth_mbps : ℕ
  pub max_bandwidth_mbps : ℕ

-- `GetIngressClassCompartmentId`
unfoldable pub get_ingress_class_compartment_id : Parameters → String → String
get_ingress_class_compartment_id p default =
    if is_blank p.compartment_id then default else p.compartment_id

-- `GetIngressClassLoadBalancerName`
unfoldable pub get_ingress_class_load_balancer_name : IngressClass → Parameters → String
get_ingress_class_load_balancer_name ic p =
    if not (is_blank p.load_balancer_name) then p.load_balancer_name else "k8s-" <> ic.name

-- `GetIngressClassSubnetId`
unfoldable pub get_ingress_class_subnet_id : Parameters → String → String
get_ingress_class_subnet_id p default = if is_blank p.subnet_id then default else p.subnet_id

-- `GetIngressClassWafPolicy`
unfoldable pub get_ingress_class_waf_policy : IngressClass → String
get_ingress_class_waf_policy ic =
    or_else (class_annotation "oci-native-ingress.oraclecloud.com/waf-policy-ocid" ic) ""

-- `GetIngressClassFireWallId`
unfoldable pub get_ingress_class_firewall_id : IngressClass → String
get_ingress_class_firewall_id ic =
    or_else (class_annotation "oci-native-ingress.oraclecloud.com/firewall-id" ic) ""

-- `GetIngressClassLoadBalancerId`
unfoldable pub get_ingress_class_load_balancer_id : IngressClass → String
get_ingress_class_load_balancer_id ic = or_else (class_annotation load_balancer_id_annotation ic) ""

-- `GetIngressClassReservedPrivateIpAddressId`
unfoldable pub get_ingress_class_reserved_private_ip : IngressClass → Result String
get_ingress_class_reserved_private_ip ic =
    elim (class_annotation "oci-native-ingress.oraclecloud.com/reserved-private-ip-address-id" ic) [
      | none ↦ ok ""
      | some value ↦
          if is_blank value
          then err (plain "ingress class annotation must not be empty")
          else ok (trim_space value)
    ]

-- The parts of an OCID: at least four, of which three are looked at.
abbrev resource_type : List String → Result String
resource_type (a ∷ b ∷ c ∷ d ∷ rest) =
    if not (a == "ocid1") || (b == "" || c == "") then err (plain "invalid OCID format") else ok b
resource_type _ = err (plain "invalid OCID format")

-- `GetOcidResourceType`
unfoldable pub get_ocid_resource_type : String → Result String
unfolding split
get_ocid_resource_type ocid =
    if is_blank ocid
    then err (plain "OCID must not be empty")
    else resource_type (split "." (trim_space ocid))

unfoldable pub trimmed_entries : List String → List String
unfolding trim_space
trimmed_entries [] = []
trimmed_entries (id ∷ ids) =
    let rest = trimmed_entries ids in if trim_space id == "" then rest else trim_space id ∷ rest

-- `GetIngressClassNetworkSecurityGroupIds`
unfoldable pub get_network_security_group_ids : IngressClass → List String
unfolding trimmed_entries split
get_network_security_group_ids ic =
    elim (class_annotation "oci-native-ingress.oraclecloud.com/network-security-group-ids" ic) [
      | none ↦ []
      | some value ↦ trimmed_entries (split "," value)
    ]

-- `GetIngressClassDeleteProtectionEnabled`
unfoldable pub get_delete_protection_enabled : IngressClass → Bool
unfolding bool_or
get_delete_protection_enabled ic =
    bool_or (class_annotation "oci-native-ingress.oraclecloud.com/delete-protection-enabled" ic)
      false

module _ {A : Type 0} (parse : String → Result A) where
  -- The value of an annotation in JSON, or a default where the annotation is absent or blank.
  unfoldable pub json_annotation : String → Option String → A → Result A
  json_annotation text none default = ok default
  json_annotation text (some value) default =
      if is_blank value then ok default else wrap text (parse value)

abbrev pub Tags : Type 0
Tags = Map String (Map String String)

-- `json.Unmarshal` into the two kinds of tags, whose values are texts.
pub record TagsJson : Type 0 where
  pub defined : String → Result Tags
  pub freeform : String → Result (Map String String)

module _ (json : TagsJson) where
  -- `GetIngressClassDefinedTags`
  unfoldable pub get_defined_tags : IngressClass → Result (Bool × Tags)
  unfolding json_annotation
  get_defined_tags ic =
      let value = class_annotation "oci-native-ingress.oraclecloud.com/defined-tags" ic in
      do
        tags ← json_annotation json.defined "error parsing defined tags" value []
        ok (is_some value, tags)

  -- `GetIngressClassImplicitDefaultTags`
  unfoldable pub get_implicit_default_tags : IngressClass → Result (Bool × Tags)
  unfolding json_annotation
  get_implicit_default_tags ic =
      let value = class_annotation "oci-native-ingress.oraclecloud.com/implicit-default-tags" ic in
      do
        tags ← json_annotation json.defined "error parsing implicit default tags" value []
        ok (is_some value, tags)

  -- `GetIngressClassFreeformTags`
  unfoldable pub get_freeform_tags : IngressClass → Result (Map String String)
  unfolding json_annotation
  get_freeform_tags ic =
      json_annotation json.freeform "error parsing freeform tags"
        (class_annotation "oci-native-ingress.oraclecloud.com/freeform-tags" ic) []

  -- `GetSecurityAttributes`; nil where there are none.
  unfoldable pub get_security_attributes : IngressClass → Result (Option Tags)
  unfolding json_annotation
  get_security_attributes ic =
      json_annotation (λ value. do tags ← json.defined value; ok (some tags))
        "failed to parse security attributes annotation"
        (class_annotation "oci-native-ingress.oraclecloud.com/security-attributes" ic) none

-- The class of the name, or the first default class where the Ingress names none.
unfoldable pub find_class : Option String → List IngressClass → Option IngressClass
unfolding is_default_class
find_class name [] = none
find_class name (ic ∷ ics) =
    let rest = find_class name ics in
    if elim name [ none ↦ is_default_class ic | some n ↦ ic.name == n ] then some ic else rest

-- `GetIngressClass` on the lister's answer
unfoldable pub get_ingress_class :
    Ingress → Result (List IngressClass) → Result (Option IngressClass)
unfolding find_class
get_ingress_class i listed = do ics ← listed; ok (find_class i.ingress_class_name ics)

-- `GetIngressesForClass` on the lister's answer
unfoldable pub get_ingresses_for_class :
    Result (List Ingress) → IngressClass → Result (List Ingress)
unfolding is_default_class
get_ingresses_for_class listed ic = do
  ingresses ← listed
  ok (
      select
        (λ i. elim i.ingress_class_name [
          | none ↦ is_default_class ic
          | some name ↦ name == ic.name
        ])
        ingresses)
