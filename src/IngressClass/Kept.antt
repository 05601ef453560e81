-- ===== src/IngressClass/Kept.antt =====
-- Which tags the updates keep (pkg/controllers/ingressclass/util.go).
use oci_native_ingress_contr.Common.{
  All, refl, Option, inl, inr, Bool-cases, ==_refl, ◌≡◌, String, Bool, ◌&&◌, none, some, [], ◌∷◌,
  ◌==◌, string_eq, is_some, or_else, arith, if◌then◌else◌, eq_of_==,
}
use oci_native_ingress_contr.Common.Map.{
  Map, lookup, insert, lookup-insert, lookup-nil, lookup-cons,
}
use oci_native_ingress_contr.Common.Text.Lower.{to_lower}
use oci_native_ingress_contr.Util.Class.{Tags}
use oci_native_ingress_contr.IngressClass.Tags.{
  lower_keys, lower_namespaces, tag_at, keep_keys, keep_tags, insert_defined_tag, supply_keys,
  supply_tags, get_lower_case_defined_tags, supplied_value,
}

-- A namespace that is not there has no tags.
absent :
    (namespace : String) (tags : Tags)
    → lookup namespace tags ≡ none
    → (k : String) → tag_at namespace k tags ≡ none
unfolding tag_at
absent namespace tags h k = rw (h, tag_at) refl

-- Only the tag that is inserted changes.
tag_at-insert_defined_tag :
    (n k namespace key value : String) (tags : Tags)
    → tag_at n k (insert_defined_tag tags namespace key value)
      ≡ (if n == namespace && k == key then some value else tag_at n k tags)
unfolding tag_at insert_defined_tag
tag_at-insert_defined_tag n k namespace key value tags =
    let old = or_else (lookup namespace tags) [] in
    ground (
      arith,
      lookup-insert n namespace (insert key value old) tags,
      lookup-insert k key value old,
      eq_of_== n namespace,
      lookup-nil {V = String} k,
    )

tag_at-nil : (n k : String) → tag_at n k [] ≡ none
unfolding tag_at
tag_at-nil n k = ground (arith, lookup-nil {V = Map String String} n)

tag_at-cons :
    (n k namespace : String) (m : Map String String) (tags : Tags)
    → tag_at n k ((namespace, m) ∷ tags) ≡ (if n == namespace then lookup k m else tag_at n k tags)
unfolding tag_at
tag_at-cons n k namespace m tags = ground (arith, lookup-cons n namespace m tags)

-- No key stands in the list twice, as in a map of Go.
abbrev pub IsMap : {V : Type 0} → Map String V → Type 0
IsMap [] = Unit
IsMap ((k, v) ∷ m) = (lookup k m ≡ none) × IsMap m

abbrev pub IsTags : Tags → Type 0
IsTags tags = IsMap tags × All (λ entry. IsMap entry.1) tags

insert-IsMap : {V : Type 0} (k : String) (v : V) (m : Map String V) → IsMap m → IsMap (insert k v m)
unfolding insert
insert-IsMap k v [] h = (lookup-nil k, tt)
insert-IsMap k v ((j, w) ∷ m) (new, h) = elim (Bool-cases (k == j)) [
  | inl same ↦ rw same (rw (eq_of_== k j same) new, h)
  | inr other ↦
      rw other
        (ground (arith, lookup-insert j k v m, eq_of_== j k, ==_refl k), insert-IsMap k v m h)
]

insert-inner :
    (k : String) (v : Map String String) (m : Tags)
    → IsMap v
    → All (λ (entry : String × Map String String). IsMap entry.1) m
    → All (λ (entry : String × Map String String). IsMap entry.1) (insert k v m)
unfolding insert
insert-inner k v [] hv h = (hv, tt)
insert-inner k v ((j, w) ∷ m) hv (hw, h) = elim (Bool-cases (k == j)) [
  | inl same ↦ rw same (hv, h)
  | inr other ↦ rw other (hw, insert-inner k v m hv h)
]

lower_keys-IsMap : (m l : Map String String) → IsMap l → IsMap (lower_keys m l)
unfolding lower_keys
lower_keys-IsMap [] l h = h
lower_keys-IsMap ((key, value) ∷ m) l h =
    lower_keys-IsMap m (insert (to_lower key) value l) (insert-IsMap (to_lower key) value l h)

lower_namespaces-IsTags : (tags l : Tags) → IsTags l → IsTags (lower_namespaces tags l)
unfolding lower_namespaces
lower_namespaces-IsTags [] l h = h
lower_namespaces-IsTags ((namespace, m) ∷ tags) l (h, inner) =
    lower_namespaces-IsTags tags (insert (to_lower namespace) (lower_keys m []) l) (
      insert-IsMap (to_lower namespace) (lower_keys m []) l h,
      insert-inner (to_lower namespace) (lower_keys m []) l (lower_keys-IsMap m [] tt) inner,
    )

pub get_lower_case_defined_tags-IsTags : (tags : Tags) → IsTags (get_lower_case_defined_tags tags)
unfolding get_lower_case_defined_tags
get_lower_case_defined_tags-IsTags tags = lower_namespaces-IsTags tags [] (tt, tt)

module _ (test : String → String → Bool) where
  -- The tags of one namespace that pass the test are inserted, the others stay.
  tag_at-keep_keys :
      (n k namespace : String) (m : Map String String) (tags : Tags)
      → IsMap m
      → tag_at n k (keep_keys test namespace m tags) ≡ (
          if n == namespace && (is_some (lookup k m) && test n k)
          then lookup k m
          else tag_at n k tags)
  unfolding keep_keys
  tag_at-keep_keys n k namespace [] tags h = ground (arith, lookup-nil {V = String} k)
  tag_at-keep_keys n k namespace ((key, value) ∷ m) tags (new, h) =
      let next = if test namespace key then insert_defined_tag tags namespace key value else tags in
      ground (
        arith,
        tag_at-keep_keys n k namespace m next h,
        lookup-cons k key value m,
        eq_of_== n namespace,
        eq_of_== k key,
        tag_at-insert_defined_tag n k namespace key value tags,
      )

  pub tag_at-keep_tags :
      (n k : String) (actual tags : Tags)
      → IsTags actual
      → tag_at n k (keep_tags test actual tags)
        ≡ (if is_some (tag_at n k actual) && test n k then tag_at n k actual else tag_at n k tags)
  unfolding keep_tags
  tag_at-keep_tags n k [] tags h = ground (arith, tag_at-nil n k)
  tag_at-keep_tags n k ((namespace, m) ∷ actual) tags ((new, h), (hm, inner)) = ground (
    arith,
    tag_at-keep_tags n k actual (keep_keys test namespace m tags) (h, inner),
    tag_at-cons n k namespace m actual,
    tag_at-keep_keys n k namespace m tags hm,
    absent namespace actual new k,
    eq_of_== n namespace,
  )

-- The value that the first tags supply, if any, or the other one.
abbrev pub over : (String → String) → Option String → Option String → Option String
over f none other = other
over f (some value) other = some (f value)

module _ (lower_actual : Tags) where
  tag_at-supply_keys :
      (n k namespace : String) (m : Map String String) (tags : Tags)
      → IsMap m
      → tag_at n k (supply_keys lower_actual namespace m tags) ≡ (
          if n == namespace
          then over (supplied_value lower_actual n k) (lookup k m) (tag_at n k tags)
          else tag_at n k tags)
  unfolding supply_keys
  tag_at-supply_keys n k namespace [] tags h = ground (arith, lookup-nil {V = String} k)
  tag_at-supply_keys n k namespace ((key, value) ∷ m) tags (new, h) =
      let sent = supplied_value lower_actual namespace key value in
      ground (
        arith,
        tag_at-supply_keys n k namespace m (insert_defined_tag tags namespace key sent) h,
        lookup-cons k key value m,
        eq_of_== n namespace,
        eq_of_== k key,
        tag_at-insert_defined_tag n k namespace key sent tags,
      )

  pub tag_at-supply_tags :
      (n k : String) (supplied tags : Tags)
      → IsTags supplied
      → tag_at n k (supply_tags lower_actual supplied tags)
        ≡ over (supplied_value lower_actual n k) (tag_at n k supplied) (tag_at n k tags)
  unfolding supply_tags
  tag_at-supply_tags n k [] tags h = ground (arith, tag_at-nil n k)
  tag_at-supply_tags n k ((namespace, m) ∷ supplied) tags ((new, h), (hm, inner)) = ground (
    arith,
    tag_at-supply_tags n k supplied (supply_keys lower_actual namespace m tags) (h, inner),
    tag_at-cons n k namespace m supplied,
    tag_at-supply_keys n k namespace m tags hm,
    absent namespace supplied new k,
    eq_of_== n namespace,
  )
