-- ===== src/LoadBalancer/History.antt =====
-- What OCI has answered, and when (the behaviour that pkg/loadbalancer/loadbalancer.go relies on).
-- `Seen w t lb etag` is a parameter: before the world `w`, when the clock showed `t`, OCI answered
-- the load balancer with the etag.
use oci_native_ingress_contr.Common.{ℕ, ◌≡◌, String, some, string_eq}
use oci_native_ingress_contr.Common.Map.{lookup}
use oci_native_ingress_contr.Exception.{ok}
use oci_native_ingress_contr.LoadBalancer.Types.{LoadBalancer, LbCacheObj, UpdateListenerDetails}
use oci_native_ingress_contr.LoadBalancer.Client.{Oci, Client, Call, Action, send}
use oci_native_ingress_contr.LoadBalancer.Program.{Change}

abbrev pub History : Type 0 → Type 1
History W = W → ℕ → LoadBalancer → String → Type 0

module _ {W : Type 0} (seen : History W) where
  -- What was seen stays seen.
  abbrev pub Later : W → W → Type 0
  Later v w = (t : ℕ) (lb : LoadBalancer) (etag : String) → seen v t lb etag → seen w t lb etag

  abbrev pub Moves : {A : Type 0} → Call W A → Type 0
  Moves call = (w : W) → Later w (call w).1

-- An answer to a question for a load balancer is the one with this identifier, and counts as seen.
-- No call forgets what was seen.
pub record IsHistory {W : Type 0} (seen : History W) (oci : Oci W) : Type 0 where
  pub answered :
      (id : String) (w : W) (lb : LoadBalancer) (etag : String)
      → (oci.get_load_balancer id w).0 ≡ ok (lb, etag)
      → (lb.id ≡ id)
        × seen (oci.get_load_balancer id w).1 (oci.now (oci.get_load_balancer id w).1) lb etag
  pub sleeps : (t : ℕ) (w : W) → Later seen w (oci.sleep t w)
  pub gets : (id : String) → Moves seen (oci.get_load_balancer id)
  pub looks : (d : ℕ) (r : String) → Moves seen (oci.get_work_request d r)
  pub healths : (id name : String) → Moves seen (oci.get_backend_set_health id name)
  pub changed : (request : Change) → Moves seen (oci.change request)
  pub updates :
      (id etag name : String) (x : UpdateListenerDetails)
      → Moves seen (oci.update_listener id etag name x)

-- Every entry of the cache is for its key, and was answered when it says.
abbrev pub IsSound : {W : Type 0} → History W → Client W → Type 0
IsSound seen c =
    (id : String) (entry : LbCacheObj)
    → lookup id c.cache ≡ some entry
    → (entry.lb.id ≡ id) × seen c.world entry.age entry.lb entry.etag

abbrev pub Keeps : {W A : Type 0} → History W → Action W A → Type 0
Keeps {W = W} seen m = (c : Client W) → IsSound seen c → IsSound seen (m c).1

module _ {W : Type 0} (seen : History W) where
  pub send-Keeps : {A : Type 0} (call : Call W A) → Moves seen call → Keeps seen (send call)
  send-Keeps call moves c h id entry p =
      let (same, old) = h id entry p in (same, moves c.world entry.age entry.lb entry.etag old)
