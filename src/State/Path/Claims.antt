-- ===== src/State/Path/Claims.antt =====
-- The single validations of BuildState (pkg/state/ingressstate.go) that succeed.
use mathlib.Core.Option
use oci_native_ingress_contr.Common.{
  ◌≡◌, sym, subst, Eq, String, ℤ, int_eq, string_eq, true, Option, none, some, [], or_else, arith,
}
use oci_native_ingress_contr.Common.Map.{
  Map, lookup, insert, lookup-insert, lookup-insert_self, Keeps, insert-Keeps,
}
use oci_native_ingress_contr.Common.Set
use oci_native_ingress_contr.Common.Set.{Set, has, has-insert}
use oci_native_ingress_contr.Exception.{ok}
use oci_native_ingress_contr.Kube.{Ingress}
use oci_native_ingress_contr.Util.Annotation.{get_ingress_protocol, get_ingress_policy}
use oci_native_ingress_contr.State.Types.{IdleTimeoutConfig}
use oci_native_ingress_contr.State.Listener.{
  append_listener_backend_set, validate_listener_protocol, default_backend_set_for,
  validate_listener_default_backend_set, claim_idle_timeout,
}
use oci_native_ingress_contr.State.BackendSet.{validate_backend_set_policy}

-- The listener refers to the backend set.
abbrev pub Reaches : ℤ → String → Map ℤ (Set String) → Type 0
Reaches port bs_name m = has bs_name (or_else (lookup port m) []) ≡ true

-- The two maps of idle timeouts have the same ports and timeouts.
abbrev pub InSync : Map ℤ ℤ → Map ℤ IdleTimeoutConfig → Type 0
InSync m configs = (port : ℤ) → lookup port m ≡ Option.map (λ c. c.timeout) (lookup port configs)

-- A write that keeps the entries.
module _ {ℓ κ} {K : Type ℓ} {V : Type κ} ⦃e : Eq K⦄ (k : K) (v : V) (m : Map K V) where
  written :
      {n : Map K V}
      → n ≡ insert k v m
      → ((w : V) → lookup k m ≡ some w → w ≡ v)
      → (lookup k n ≡ some v) × Keeps m n
  written {n} same agrees =
      subst (λ x. (lookup k x ≡ some v) × Keeps m x) (sym same)
        (lookup-insert_self k v m, insert-Keeps k v m agrees)

pub validate_listener_protocol_lem :
    (i : Ingress) (m : Map ℤ String) (port : ℤ) {n : Map ℤ String}
    → validate_listener_protocol i m port ≡ ok n
    → (lookup port n ≡ some (get_ingress_protocol i)) × Keeps m n
unfolding validate_listener_protocol
validate_listener_protocol_lem i m port h =
    written port (get_ingress_protocol i) m (ground arith) (λ w at. ground arith)

pub validate_listener_default_backend_set_lem :
    (i : Ingress) (m : Map ℤ String) (port : ℤ) (bs_name : String) {n : Map ℤ String}
    → validate_listener_default_backend_set i m port bs_name ≡ ok n
    → (lookup port n ≡ some (default_backend_set_for i bs_name)) × Keeps m n
unfolding validate_listener_default_backend_set
validate_listener_default_backend_set_lem i m port bs_name h =
    written port (default_backend_set_for i bs_name) m (ground arith) (λ w at. ground arith)

pub validate_backend_set_policy_lem :
    (i : Ingress) (m : Map String String) (bs_name : String) {n : Map String String}
    → validate_backend_set_policy i m bs_name ≡ ok n
    → (lookup bs_name n ≡ some (get_ingress_policy i)) × Keeps m n
unfolding validate_backend_set_policy
validate_backend_set_policy_lem i m bs_name h =
    written bs_name (get_ingress_policy i) m (ground arith) (λ w at. ground arith)

pub append_listener_backend_set_self :
    (m : Map ℤ (Set String)) (port : ℤ) (bs_name : String)
    → Reaches port bs_name (append_listener_backend_set m port bs_name)
unfolding append_listener_backend_set
append_listener_backend_set_self m port bs_name = ground (
  arith,
  lookup-insert_self port (Set.insert bs_name (or_else (lookup port m) [])) m,
  has-insert bs_name bs_name (or_else (lookup port m) []),
)

pub append_listener_backend_set_other :
    (m : Map ℤ (Set String)) (port : ℤ) (bs_name : String) (p : ℤ) (b : String)
    → Reaches p b m
    → Reaches p b (append_listener_backend_set m port bs_name)
unfolding append_listener_backend_set
append_listener_backend_set_other m port bs_name p b h = ground (
  arith,
  lookup-insert p port (Set.insert bs_name (or_else (lookup port m) [])) m,
  has-insert b bs_name (or_else (lookup port m) []),
)

pub claim_idle_timeout_lem :
    (i : Ingress) (port : ℤ) (timeout : Option ℤ) (m : Map ℤ ℤ) (configs : Map ℤ IdleTimeoutConfig)
    {n : Map ℤ ℤ} {configs' : Map ℤ IdleTimeoutConfig}
    → claim_idle_timeout i port timeout m configs ≡ ok (n, configs')
    → InSync m configs
    → InSync n configs' × Keeps m n × ((t : ℤ) → timeout ≡ some t → lookup port n ≡ some t)
unfolding claim_idle_timeout
claim_idle_timeout_lem i port none m configs {n} {configs'} h sync =
    let same_m : m ≡ n = ground arith in
    let same_c : configs ≡ configs' = ground arith in
    (ground (arith, sync), ground arith, ground arith)
claim_idle_timeout_lem i port (some timeout) m configs {n} {configs'} h sync =
    let c : IdleTimeoutConfig = record {
      timeout = timeout;
      namespace = i.namespace;
      name = i.name;
    } in
    let same_n : n ≡ insert port timeout m = ground arith in
    let same_c : configs' ≡ insert port c configs = ground arith in
    let agrees : (w : ℤ) → lookup port m ≡ some w → w ≡ timeout =
      λ w at. ground (arith, sync port) in
    let (at, keeps) = written port timeout m same_n agrees in
    (
      λ p.
          rw (same_n, same_c)
            (ground
              (arith, lookup-insert p port timeout m, lookup-insert p port c configs, sync p)),
      keeps,
      ground arith,
    )
