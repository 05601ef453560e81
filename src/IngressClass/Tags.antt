-- ===== src/IngressClass/Tags.antt =====
-- The tags of the load balancer of a class (pkg/controllers/ingressclass/util.go). The values of
-- tags are texts here.
use oci_native_ingress_contr.Common.{
  String, Bool, not, ◌&&◌, Option, none, some, [], ◌∷◌, string_eq, is_some, or_else, some_of,
  if◌then◌else◌,
}
use oci_native_ingress_contr.Common.Map.{Map, lookup, insert}
use oci_native_ingress_contr.Common.Text.{contains}
use oci_native_ingress_contr.Common.Text.Lower.{to_lower}
use oci_native_ingress_contr.Exception.{Result, ok, ◌>>=◌}
use oci_native_ingress_contr.Kube.{IngressClass}
use oci_native_ingress_contr.Util.Class.{
  Tags, TagsJson, get_defined_tags, get_implicit_default_tags,
}

-- The value of a key in a namespace, as they are written.
unfoldable pub tag_at : String → String → Tags → Option String
tag_at namespace key tags = elim (lookup namespace tags) [ none ↦ none | some m ↦ lookup key m ]

unfoldable pub lower_keys : Map String String → Map String String → Map String String
unfolding to_lower
lower_keys [] lowered = lowered
lower_keys ((key, value) ∷ m) lowered = lower_keys m (insert (to_lower key) value lowered)

-- The loop of `getLowerCaseDefinedTags`: a namespace that comes again in other letters is made anew.
unfoldable pub lower_namespaces : Tags → Tags → Tags
unfolding lower_keys
lower_namespaces [] lowered = lowered
lower_namespaces ((namespace, m) ∷ tags) lowered =
    lower_namespaces tags (insert (to_lower namespace) (lower_keys m []) lowered)

-- `getLowerCaseDefinedTags`
unfoldable pub get_lower_case_defined_tags : Tags → Tags
unfolding lower_namespaces
get_lower_case_defined_tags tags = lower_namespaces tags []

-- `containsDefinedTagIgnoreCase`
unfoldable pub contains_defined_tag : Tags → String → String → Bool
unfolding tag_at
contains_defined_tag lower_case_tags namespace key =
    is_some (tag_at (to_lower namespace) (to_lower key) lower_case_tags)

-- `insertDefinedTag`
unfoldable pub insert_defined_tag : Tags → String → String → String → Tags
insert_defined_tag tags namespace key value =
    insert namespace (insert key value (or_else (lookup namespace tags) [])) tags

-- `definedTagValueHasTagVariable`
unfoldable pub has_tag_variable : String → Bool
unfolding contains
has_tag_variable value =
    some_of (λ variable. contains value variable)
      ("${iam.principal.name}" ∷ "${iam.principal.type}" ∷ "${oci.datetime}" ∷ [])

-- The inner loops: the tags of one namespace that pass a test are inserted.
unfoldable pub keep_keys : (String → String → Bool) → String → Map String String → Tags → Tags
unfolding insert_defined_tag
keep_keys test namespace [] tags = tags
keep_keys test namespace ((key, value) ∷ m) tags =
    keep_keys test namespace m
      (if test namespace key then insert_defined_tag tags namespace key value else tags)

-- The outer loops.
unfoldable pub keep_tags : (String → String → Bool) → Tags → Tags → Tags
unfolding keep_keys
keep_tags test [] tags = tags
keep_tags test ((namespace, m) ∷ actual) tags =
    keep_tags test actual (keep_keys test namespace m tags)

-- `getImplicitDefaultTagsForNewLoadBalancer`
unfoldable pub get_implicit_default_tags_for_new : Tags → Tags → Tags
unfolding keep_tags get_lower_case_defined_tags contains_defined_tag
get_implicit_default_tags_for_new actual supplied =
    let lower = get_lower_case_defined_tags supplied in
    keep_tags (λ namespace key. not (contains_defined_tag lower namespace key)) actual []

-- The value of a supplied tag, or the one that is there if the supplied one has a variable.
unfoldable pub supplied_value : Tags → String → String → String → String
unfolding tag_at has_tag_variable
supplied_value lower_actual namespace key value =
    elim (tag_at (to_lower namespace) (to_lower key) lower_actual) [
      | none ↦ value
      | some present ↦
          if has_tag_variable value then or_else (tag_at namespace key lower_actual) "" else value
    ]

unfoldable pub supply_keys : Tags → String → Map String String → Tags → Tags
unfolding insert_defined_tag supplied_value
supply_keys lower_actual namespace [] tags = tags
supply_keys lower_actual namespace ((key, value) ∷ m) tags =
    supply_keys lower_actual namespace m
      (insert_defined_tag tags namespace key (supplied_value lower_actual namespace key value))

-- The loop over the supplied tags.
unfoldable pub supply_tags : Tags → Tags → Tags → Tags
unfolding supply_keys
supply_tags lower_actual [] tags = tags
supply_tags lower_actual ((namespace, m) ∷ supplied) tags =
    supply_tags lower_actual supplied (supply_keys lower_actual namespace m tags)

-- The default tags that are on the load balancer and are not supplied.
unfoldable pub kept_default_tags : Tags → Tags → Tags → Tags
unfolding keep_tags contains_defined_tag
kept_default_tags lower_supplied lower_default actual =
    keep_tags
      (λ namespace key.
        not (contains_defined_tag lower_supplied namespace key)
        && contains_defined_tag lower_default namespace key)
      actual []

-- The new tags of the load balancer, and the new default tags, where an annotation is present.
unfoldable pub updated_tags : Tags → Tags → Tags → Tags × Tags
unfolding kept_default_tags get_lower_case_defined_tags supply_tags
updated_tags actual supplied default =
    let lower_supplied = get_lower_case_defined_tags supplied in
    let kept = kept_default_tags lower_supplied (get_lower_case_defined_tags default) actual in
    (
      supply_tags (get_lower_case_defined_tags actual) lower_supplied
          (get_lower_case_defined_tags kept),
      kept,
    )

-- `getUpdatedDefinedAndImplicitDefaultTags`
unfoldable pub get_updated_tags : TagsJson → Tags → IngressClass → Result (Tags × Tags)
unfolding updated_tags get_defined_tags get_implicit_default_tags
get_updated_tags json actual ic = do
  (has_defined, supplied) ← get_defined_tags json ic
  (has_default, default) ← get_implicit_default_tags json ic
  ok (
      if not has_defined && not has_default
      then (actual, actual)
      else updated_tags actual supplied default)
