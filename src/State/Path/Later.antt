-- ===== src/State/Path/Later.antt =====
-- What the path of an Ingress claims in the locals of BuildState (pkg/state/ingressstate.go), and how the
-- locals grow.
use oci_native_ingress_contr.Common.{◌≡◌, String, ℤ, int_eq, string_eq, true, some, arith}
use oci_native_ingress_contr.Common.Map.{lookup, Keeps}
use oci_native_ingress_contr.Common.Set.{has, has-insert}
use oci_native_ingress_contr.Exception.{ok}
use oci_native_ingress_contr.Kube.{Ingress}
use oci_native_ingress_contr.Util.Annotation.{
  get_ingress_protocol, get_ingress_policy, get_ingress_listener_connection_idle_timeout,
}
use oci_native_ingress_contr.State.Types.{Draft}
use oci_native_ingress_contr.State.Listener.{default_backend_set_for}
use oci_native_ingress_contr.State.Path.{enter_path}
use oci_native_ingress_contr.State.Path.Claims.{
  Reaches, InSync, append_listener_backend_set_self, append_listener_backend_set_other,
}

abbrev pub Synced : Draft → Type 0
Synced d = InSync d.listener_idle_timeout d.listener_idle_timeout_config

-- Every claim on the first is one on the second.
pub record Later (d d' : Draft) : Type 0 where
  pub protocols : Keeps d.listener_protocol d'.listener_protocol
  pub defaults : Keeps d.listener_default_bs d'.listener_default_bs
  pub timeouts : Keeps d.listener_idle_timeout d'.listener_idle_timeout
  pub policies : Keeps d.bs_policy d'.bs_policy
  pub listeners : (port : ℤ) → has port d.all_listeners ≡ true → has port d'.all_listeners ≡ true
  pub backend_sets :
      (b : String) → has b d.all_backend_sets ≡ true → has b d'.all_backend_sets ≡ true
  pub reaches :
      (port : ℤ) (b : String)
      → Reaches port b d.listener_backend_sets
      → Reaches port b d'.listener_backend_sets

pub Later-refl : (d : Draft) → Later d d
Later-refl d = record {
  protocols = λ k v h. h;
  defaults = λ k v h. h;
  timeouts = λ k v h. h;
  policies = λ k v h. h;
  listeners = λ p h. h;
  backend_sets = λ b h. h;
  reaches = λ p b h. h;
}

pub Later-trans : {a b c : Draft} → Later a b → Later b c → Later a c
Later-trans f g = record {
  protocols = λ k v h. g.protocols k v (f.protocols k v h);
  defaults = λ k v h. g.defaults k v (f.defaults k v h);
  timeouts = λ k v h. g.timeouts k v (f.timeouts k v h);
  policies = λ k v h. g.policies k v (f.policies k v h);
  listeners = λ p h. g.listeners p (f.listeners p h);
  backend_sets = λ b h. g.backend_sets b (f.backend_sets b h);
  reaches = λ p b h. g.reaches p b (f.reaches p b h);
}

pub enter_path-Later :
    (i : Ingress) (port : ℤ) (b : String) (d : Draft) → Later d (enter_path i port b d)
unfolding enter_path
enter_path-Later i port b d = record {
  protocols = λ k v h. h;
  defaults = λ k v h. h;
  timeouts = λ k v h. h;
  policies = λ k v h. h;
  listeners = λ p h. ground (arith, has-insert p port d.all_listeners);
  backend_sets = λ c h. ground (arith, has-insert c b d.all_backend_sets);
  reaches = append_listener_backend_set_other d.listener_backend_sets port b;
}

pub enter_path_lem :
    (i : Ingress) (port : ℤ) (b : String) (d : Draft)
    → (has port (enter_path i port b d).all_listeners ≡ true)
      × (has b (enter_path i port b d).all_backend_sets ≡ true)
      × Reaches port b (enter_path i port b d).listener_backend_sets
unfolding enter_path
enter_path_lem i port b d = (
  ground (arith, has-insert port port d.all_listeners),
  ground (arith, has-insert b b d.all_backend_sets),
  append_listener_backend_set_self d.listener_backend_sets port b,
)

-- What a path of the Ingress that resolves to the port and the backend set asks for.
pub record Claims (i : Ingress) (port : ℤ) (b : String) (d : Draft) : Type 0 where
  pub protocol : lookup port d.listener_protocol ≡ some (get_ingress_protocol i)
  pub default : lookup port d.listener_default_bs ≡ some (default_backend_set_for i b)
  pub timeout :
      (t : ℤ)
      → get_ingress_listener_connection_idle_timeout i ≡ ok (some t)
      → lookup port d.listener_idle_timeout ≡ some t
  pub policy : lookup b d.bs_policy ≡ some (get_ingress_policy i)
  pub listener : has port d.all_listeners ≡ true
  pub backend_set : has b d.all_backend_sets ≡ true
  pub reached : Reaches port b d.listener_backend_sets
  pub default_reached : Reaches port (default_backend_set_for i b) d.listener_backend_sets

pub Claims-Later :
    {i : Ingress} {port : ℤ} {b : String} {d d' : Draft}
    → Later d d'
    → Claims i port b d
    → Claims i port b d'
Claims-Later g c = record {
  protocol = g.protocols _ _ c.protocol;
  default = g.defaults _ _ c.default;
  timeout = λ t h. g.timeouts _ t (c.timeout t h);
  policy = g.policies _ _ c.policy;
  listener = g.listeners _ c.listener;
  backend_set = g.backend_sets _ c.backend_set;
  reached = g.reaches _ _ c.reached;
  default_reached = g.reaches _ _ c.default_reached;
}
