-- ===== src/Webhook/Gates.antt =====
-- The gates of a pod after the webhook (pkg/podreadiness/webhook.go).
use oci_native_ingress_contr.Common.{
  ◌≡◌, refl, String, true, ◌||◌, List, [], ◌∷◌, ◌++◌, string_eq, arith, ==_refl, eq_of_==,
}
use oci_native_ingress_contr.Common.Set.{has}
use oci_native_ingress_contr.Exception.{}
use oci_native_ingress_contr.Exception.Laws.{}
use oci_native_ingress_contr.Kube.{}
use oci_native_ingress_contr.Webhook.{add_gates}

pub has-append : (g : String) (a b : List String) → has g (a ++ b) ≡ (has g a || has g b)
unfolding has
has-append g [] b = refl
has-append g (x ∷ a) b = ground (arith, has-append g a b)

pub has-add_gates :
    (g : String) (targets gates : List String)
    → has g (add_gates targets gates) ≡ (has g targets || has g gates)
unfolding add_gates has
has-add_gates g [] gates = refl
has-add_gates g (t ∷ targets) gates = ground (
  arith,
  has-add_gates g targets gates,
  has-add_gates g targets (gates ++ (t ∷ [])),
  has-append g gates (t ∷ []),
  eq_of_== g t,
)

-- Gates that are there already are not added again.
pub add_gates-settled :
    (targets gates : List String)
    → ((g : String) → has g targets ≡ true → has g gates ≡ true)
    → add_gates targets gates ≡ gates
unfolding add_gates has
add_gates-settled [] gates h = refl
add_gates-settled (t ∷ targets) gates h =
    let rest = add_gates-settled targets gates (λ g m. h g (ground arith)) in
    ground (arith, rest, h t (ground (arith, ==_refl t)), ==_refl t)
