-- ===== src/RoutingPolicy/Order.antt =====
-- The comparison of paths (ByPath.Less in pkg/controllers/routingpolicy/util.go).
use Prim.Native.Char.{Char}
use text.Mathlib.TextEquality.{Char-path}
use oci_native_ingress_contr.Common.{
  ◌≡◌, refl, sym, subst, ap₂, ◌∙◌, String, ◌<>◌, Bool, true, false, ◌&&◌, Option, none, some, ◌==◌,
  string_eq, arith, ltb, nat_eq, ℕ, Bool-cases, Option-cases, inl, inr, eq_of_==,
}
use oci_native_ingress_contr.Common.Sort.{IsWeakOrder, IsTotal, then_by, then_by-IsWeakOrder}
use oci_native_ingress_contr.Common.Text.{equal_fold, equal_fold_refl}
use oci_native_ingress_contr.Common.Text.Letter.{same_char, lower_char}
use oci_native_ingress_contr.Common.Text.Order.{
  str_lt, str_lt-IsWeakOrder, str_lt-IsTotal, str_lt-append,
}
use oci_native_ingress_contr.State.TlsConfigs.Order.{ltb-IsWeakOrder, ltb-IsTotal}
use oci_native_ingress_contr.Kube.{HttpIngressPath}
use oci_native_ingress_contr.Util.Names.{path_type_or_default, path_type_exact, path_type_prefix}
use oci_native_ingress_contr.RoutingPolicy.{ListenerPath, route_less, by_path_less}

-- A path that extends another one goes before it, and not after it.
pub by_path_less-extension :
    (a b : ListenerPath) (p q : HttpIngressPath) (c : Char) (rest : String)
    → a.path ≡ some p
    → b.path ≡ some q
    → p.path ≡ q.path <> String.◌∷◌ c rest
    → (by_path_less (some a) (some b) ≡ true) × (by_path_less (some b) (some a) ≡ false)
unfolding by_path_less route_less
by_path_less-extension a b p q c rest is_p is_q longer =
    let before : str_lt q.path p.path ≡ true =
      subst (λ x. str_lt q.path x ≡ true) (sym longer) (str_lt-append q.path c rest) in
    let not_after = str_lt-IsWeakOrder.asym q.path p.path before in
    let irrefl = str_lt-IsWeakOrder.asym q.path q.path in
    rw (is_p, is_q)
      (ground (arith, before, not_after, irrefl), ground (arith, before, not_after, irrefl))

exact_is_not_prefix : (path_type_exact == path_type_prefix) ≡ false
unfolding string_eq
exact_is_not_prefix = refl

prefix_is_not_exact : (path_type_prefix == path_type_exact) ≡ false
unfolding string_eq
prefix_is_not_exact = refl

exact_before_prefix : str_lt path_type_exact path_type_prefix ≡ true
unfolding str_lt
exact_before_prefix = refl

-- Of two equal paths the one of type Exact goes first.
pub by_path_less-Exact :
    (a b : ListenerPath) (p q : HttpIngressPath)
    → a.path ≡ some p
    → b.path ≡ some q
    → p.path ≡ q.path
    → path_type_or_default p ≡ path_type_exact
    → path_type_or_default q ≡ path_type_prefix
    → (by_path_less (some a) (some b) ≡ true) × (by_path_less (some b) (some a) ≡ false)
unfolding by_path_less route_less
by_path_less-Exact a b p q is_p is_q same exact prefix =
    let apart : (path_type_or_default p == path_type_or_default q) ≡ false =
      ap₂ (λ x y. x == y) exact prefix ∙ exact_is_not_prefix in
    let apart' : (path_type_or_default q == path_type_or_default p) ≡ false =
      ap₂ (λ x y. x == y) prefix exact ∙ prefix_is_not_exact in
    let before : str_lt (path_type_or_default p) (path_type_or_default q) ≡ true =
      ap₂ str_lt exact prefix ∙ exact_before_prefix in
    let not_after =
      str_lt-IsWeakOrder.asym (path_type_or_default p) (path_type_or_default q) before in
    rw (is_p, is_q)
      (
        ground (arith, apart, apart', before, not_after, sym same),
        ground (arith, apart, apart', before, not_after, sym same),
      )

-- `unicode.ToLower` leaves every character as it is.
unfoldable pub is_folded : String → Bool
unfolding lower_char
is_folded String.[] = true
is_folded (String.◌∷◌ c s) = same_char (lower_char c) c && is_folded s

same_char-eq : (c d : Char) → same_char c d ≡ true → c ≡ d
same_char-eq c d h = Char-path c d (ground arith)

both : {a b : Bool} → (a && b) ≡ true → (a ≡ true) × (b ≡ true)
both h = (ground arith, ground arith)

equal_fold-is_folded :
    (s t : String) → is_folded s ≡ true → is_folded t ≡ true → equal_fold s t ≡ true → s ≡ t
unfolding equal_fold is_folded
equal_fold-is_folded String.[] String.[] hs ht h = refl
equal_fold-is_folded String.[] (String.◌∷◌ d t) hs ht h = cc
equal_fold-is_folded (String.◌∷◌ c s) String.[] hs ht h = cc
equal_fold-is_folded (String.◌∷◌ c s) (String.◌∷◌ d t) hs ht h =
    let (hc, hs') = both hs in
    let (hd, ht') = both ht in
    let (hcd, hst) = both h in
    let head : c ≡ d =
      sym (same_char-eq _ c hc)
      ∙ same_char-eq (lower_char c) (lower_char d) hcd
      ∙ same_char-eq _ d hd in
    ap₂ String.◌∷◌ head (equal_fold-is_folded s t hs' ht' hst)

-- The tests of `ByPath.Less` as keys, for hosts that `EqualFold` tells apart as `==` does.
pub str_gt : String → String → Bool
str_gt s t = str_lt t s

abbrev pub with_path : Option ListenerPath → Option (ListenerPath × HttpIngressPath)
with_path none = none
with_path (some a) = elim a.path [ none ↦ none | some p ↦ some (a, p) ]

abbrev pub text_of : (ListenerPath × HttpIngressPath → String) → Option ListenerPath → String
text_of f o = elim (with_path o) [ none ↦ "" | some r ↦ f r ]

abbrev pub rank : Option ListenerPath → ℕ
rank none = 0
rank (some a) = elim a.path [ none ↦ 1 | some p ↦ 2 ]

abbrev pub by_path_order : Option ListenerPath → Option ListenerPath → Bool
by_path_order = then_by rank ltb (
    then_by (text_of (λ r. r.1.path)) str_gt (
      then_by (text_of (λ r. path_type_or_default r.1)) str_lt (
        then_by (text_of (λ r. r.0.host)) str_gt (
          then_by (text_of (λ r. r.0.backend_set_name)) str_gt (λ a b.
            str_gt (text_of (λ r. r.0.ingress_name) a) (text_of (λ r. r.0.ingress_name) b))))))

abbrev pub has_folded_host : Option ListenerPath → Bool
has_folded_host none = true
has_folded_host (some a) = is_folded a.host

str_gt-IsWeakOrder : IsWeakOrder str_gt
unfolding str_gt
str_gt-IsWeakOrder = record {
  asym = λ a b h. str_lt-IsWeakOrder.asym b a h;
  trans = λ a b c p q. str_lt-IsWeakOrder.trans c b a q p;
}

str_gt-IsTotal : IsTotal str_gt
unfolding str_gt
str_gt-IsTotal = record { antisym = λ a b p q. str_lt-IsTotal.antisym a b q p }

pub by_path_order-IsWeakOrder : IsWeakOrder by_path_order
by_path_order-IsWeakOrder = then_by-IsWeakOrder rank ltb ltb-IsWeakOrder ltb-IsTotal _ (
    then_by-IsWeakOrder _ str_gt str_gt-IsWeakOrder str_gt-IsTotal _ (
      then_by-IsWeakOrder _ str_lt str_lt-IsWeakOrder str_lt-IsTotal _ (
        then_by-IsWeakOrder _ str_gt str_gt-IsWeakOrder str_gt-IsTotal _ (
          then_by-IsWeakOrder _ str_gt str_gt-IsWeakOrder str_gt-IsTotal _ (record {
            asym = λ a b h. str_gt-IsWeakOrder.asym _ _ h;
            trans = λ a b c p q. str_gt-IsWeakOrder.trans _ _ _ p q;
          })))))

equal_fold_eq : (s t : String) → is_folded s ≡ true → is_folded t ≡ true → equal_fold s t ≡ (s == t)
equal_fold_eq s t hs ht = elim (Bool-cases (equal_fold s t)) [
  | inl yes' ↦ let same : s ≡ t = equal_fold-is_folded s t hs ht yes' in ground arith
  | inr no' ↦
      let refl_s = equal_fold_refl s in
      elim (Bool-cases (s == t)) [
        | inl same ↦ let eq : s ≡ t = eq_of_== s t same in cc
        | inr other ↦ ground arith
      ]
]

irrefl : str_lt "" "" ≡ false
unfolding str_lt
irrefl = refl

pub by_path_less-order :
    (a b : Option ListenerPath)
    → has_folded_host a ≡ true
    → has_folded_host b ≡ true
    → by_path_less a b ≡ by_path_order a b
unfolding by_path_less route_less str_gt
by_path_less-order none none ha hb = ground (arith, irrefl)
by_path_less-order none (some b) ha hb = ground arith
by_path_less-order (some a) none ha hb = ground arith
by_path_less-order (some a) (some b) ha hb =
    let fold = equal_fold_eq a.host b.host ha hb in
    elim (Option-cases a.path) [
      | inl nil_a ↦ elim (Option-cases b.path) [
        | inl nil_b ↦ rw (nil_a, nil_b) (ground (arith, irrefl))
        | inr (q, is_q) ↦ rw (nil_a, is_q) (ground arith)
      ]
      | inr (p, is_p) ↦ elim (Option-cases b.path) [
        | inl nil_b ↦ rw (is_p, nil_b) (ground arith)
        | inr (q, is_q) ↦ rw (is_p, is_q) (ground (arith, fold))
      ]
    ]
