-- ===== src/Tests/Balancer.antt =====
-- The theorems on the client of the load balancer, applied to a small OCI.
use native.Mathlib.Decide.{dec_lt}
use oci_native_ingress_contr.Common.{
  sym, ◌∙◌, ◌≢◌, ℕ, ◌+◌, ◌≤◌, ◌≡◌, ◌↔◌, ◌⊎◌, refl, ap, subst, String, Bool, true, false, pos,
  string_eq, Option, none, some, List, [], ◌∷◌, ltb, leb, arith, if◌then◌else◌,
}
use oci_native_ingress_contr.Common.Text.Decimal.{itoa}
use oci_native_ingress_contr.Common.Map.{lookup}
use oci_native_ingress_contr.Common.Set.{has}
use oci_native_ingress_contr.Exception.{ok, err, plain}
use oci_native_ingress_contr.Exception.Laws.{ok-injective}
use oci_native_ingress_contr.TlsPolicy.{}
use oci_native_ingress_contr.Kube.{HealthCheckerDetails}
use oci_native_ingress_contr.LoadBalancer.Types.{
  LoadBalancer, BackendSet, BackendDetails, UpdateBackendSetDetails, LifecycleState, succeeded,
  other_state,
}
use oci_native_ingress_contr.LoadBalancer.Client.{
  Oci, Client, run, get_load_balancer, wait_for_work_request, work_request_timeout,
}
use oci_native_ingress_contr.LoadBalancer.Program.{Program}
use oci_native_ingress_contr.LoadBalancer.History.{History, IsHistory}
use oci_native_ingress_contr.LoadBalancer.Wait.{IsClock, Waits, wait_for_work_request-Waits}
use oci_native_ingress_contr.LoadBalancer.Fresh.{IsRecent, new_client, run_all, run_all-IsRecent}
use oci_native_ingress_contr.LoadBalancer.Etags.{IsGuarded}
use oci_native_ingress_contr.LoadBalancer.Guarded.{methods-IsGuarded}
use oci_native_ingress_contr.LoadBalancer.Retried.{IsRetried}
use oci_native_ingress_contr.LoadBalancer.Conflict.{methods-IsRetried}
use oci_native_ingress_contr.LoadBalancer.Backends.{
  KeepsRest, desired_addresses, actual_addresses, update_backends_lem,
}
use oci_native_ingress_contr.LoadBalancer.BackendSets.{
  delete_listener, update_backends, update_backend_set, same_set,
}
use oci_native_ingress_contr.LoadBalancer.Lifecycle.{
  update_network_security_groups, update_load_balancer,
}
use oci_native_ingress_contr.LoadBalancer.Policies.{ensure_routing_policy}
use oci_native_ingress_contr.RoutingPolicy.{Routes}
use oci_native_ingress_contr.RoutingPolicy.Sync.{sync_routes}
use oci_native_ingress_contr.RoutingPolicy.Stale.{IsSparing, sync_routes-IsSparing}

abbrev checker : HealthCheckerDetails
checker = record {
  protocol = some "TCP";
  port = none;
  url_path = none;
  timeout_in_millis = none;
  interval_in_millis = none;
  retries = none;
  return_code = none;
  response_body_regex = none;
  is_force_plain_text = none;
}

abbrev one_backend : BackendSet
one_backend = record {
  name = "bs_a";
  policy = "ROUND_ROBIN";
  backends =
      record {
        ip_address = "10.0.0.1";
        port = pos 80;
        weight = pos 1;
        drain = false;
        backup = false;
        offline = false;
        max_connections = none;
      }
      ∷ [];
  health_checker = checker;
  ssl_configuration = none;
  session_persistence_configuration = none;
  lb_cookie_session_persistence_configuration = none;
}

abbrev balancer : String → LoadBalancer
balancer id = record {
  id = id;
  display_name = "lb";
  lifecycle_state = "ACTIVE";
  shape_name = "flexible";
  ip_addresses = [];
  network_security_group_ids = [];
  listeners = [];
  backend_sets = ("bs_a", one_backend) ∷ [];
  routing_policies = [];
  freeform_tags = [];
  defined_tags = [];
  security_attributes = none;
}

-- The world is the clock. Work requests are done at second 20.
abbrev state_at : ℕ → LifecycleState
state_at w = if ltb w 20000000000 then other_state "IN_PROGRESS" else succeeded

abbrev small_oci : Oci ℕ
small_oci = record {
  now = λ w. w;
  sleep = λ t w. w + t;
  get_load_balancer = λ id w. (ok (balancer id, "v1"), w);
  get_work_request = λ d r w. (
    if leb d w
        then err (plain "context deadline exceeded")
        else ok
            (record { lifecycle_state = state_at w; load_balancer_id = "lb"; error_details = [] }),
    w,
  );
  get_backend_set_health = λ id name w. (ok "OK", w);
  change = λ request w. (ok "request", w);
  update_listener = λ id etag name details w. (ok none, w);
}

small_oci-IsClock : IsClock small_oci
small_oci-IsClock = record {
  look_forth = λ d r w. omega arith;
  pause = λ t w. omega arith;
  expired = λ d r w late. (plain "context deadline exceeded", ground arith);
}

wait_for_work_request-Waits_example :
    Waits small_oci
      (0 + work_request_timeout)
      "request"
      (new_client 0)
      (wait_for_work_request small_oci "request" (new_client 0))
wait_for_work_request-Waits_example =
    wait_for_work_request-Waits small_oci small_oci-IsClock "request" (new_client 0)

abbrev answered : History ℕ
answered w t lb etag = (lb ≡ balancer lb.id) × (t ≤ w)

small_oci-IsHistory : IsHistory answered small_oci
small_oci-IsHistory = record {
  answered = λ id w lb etag p.
      subst (λ l. (l.id ≡ id) × ((l ≡ balancer l.id) × (w ≤ w))) (ap (λ x. x.0) (ok-injective p))
        (refl, (refl, omega arith));
  sleeps = λ t w u lb etag h. (h.0, omega (arith, h.1));
  gets = λ id w t lb etag h. h;
  looks = λ d r w t lb etag h. h;
  healths = λ id name w t lb etag h. h;
  changed = λ request w t lb etag h. h;
  updates = λ id etag name x w t lb e h. h;
}

abbrev calls : List (Program (Unit {0}))
calls = delete_listener "lb" "route_80" ∷ []

run_all-IsRecent_example :
    IsRecent answered small_oci "lb"
      (balancer "lb", "v1")
      (get_load_balancer small_oci "lb" (run_all small_oci calls (new_client 0))).1.world
unfolding oci_native_ingress_contr.Common.string_eq oci_native_ingress_contr.Common.Map.lookup
    oci_native_ingress_contr.Common.Map.insert
    oci_native_ingress_contr.LoadBalancer.BackendSets.delete_listener
    oci_native_ingress_contr.LoadBalancer.Client.run
    oci_native_ingress_contr.LoadBalancer.Fresh.run_all
    oci_native_ingress_contr.LoadBalancer.Program.try_call
run_all-IsRecent_example =
    run_all-IsRecent answered small_oci small_oci-IsHistory calls 0 "lb" (balancer "lb", "v1") refl

methods-IsGuarded_example :
    IsGuarded none (ensure_routing_policy "lb" "route_80" [])
    × IsGuarded none (update_backends "lb" "route_80" [])
    × IsGuarded none (update_network_security_groups "lb" ("nsg" ∷ []))
    × IsGuarded none (update_load_balancer "lb" "route_80" [] [] none)
methods-IsGuarded_example = methods-IsGuarded none "lb" "route_80" [] [] ("nsg" ∷ []) [] [] none

methods-IsRetried_example :
    IsRetried (ensure_routing_policy "lb" "route_80" [])
    × IsRetried (update_backends "lb" "route_80" [])
    × IsRetried (update_network_security_groups "lb" ("nsg" ∷ []))
    × IsRetried (update_load_balancer "lb" "route_80" [] [] none)
methods-IsRetried_example = methods-IsRetried "lb" "route_80" [] [] ("nsg" ∷ []) [] [] none

abbrev routes : Routes
routes = record { listener_paths = ("route_80", []) ∷ []; desired = "route_80" ∷ [] }

sync_routes-IsSparing_example : IsSparing ("route_80" ∷ []) (sync_routes (λ text. text) "lb" routes)
sync_routes-IsSparing_example = sync_routes-IsSparing (λ text. text) "lb" routes

-- One address that is not there.
abbrev new_backends : List BackendDetails
new_backends =
    record {
      ip_address = "10.0.0.2";
      port = pos 80;
      weight = none;
      drain = none;
      backup = none;
      offline = none;
      max_connections = none;
    }
    ∷ []

abbrev looked : Client ℕ
looked = record {
  cache = ("lb", record { lb = balancer "lb"; age = 0; etag = "v1" }) ∷ [];
  world = 0;
}

new_address : has "10.0.0.2:80" (desired_addresses new_backends) ≡ true
unfolding has string_eq itoa dec_lt
new_address = refl

old_address : has "10.0.0.2:80" (actual_addresses one_backend) ≡ false
unfolding has string_eq itoa dec_lt
old_address = refl

addresses_differ :
    ¬ ((a : String) → has a (desired_addresses new_backends) ≡ has a (actual_addresses one_backend))
addresses_differ same =
    let no : true ≡ false = sym new_address ∙ (same "10.0.0.2:80" ∙ old_address) in cc

-- The new address is not there, and the cipher suite can be requested: a request is sent.
update_backends_example :
    (details : UpdateBackendSetDetails) × KeepsRest one_backend new_backends details
    × (run small_oci (update_backends "lb" "bs_a" new_backends) (new_client 0)
        ≡ run small_oci (update_backend_set "lb" "v1" "bs_a" details) looked)
unfolding oci_native_ingress_contr.Common.string_eq oci_native_ingress_contr.Common.Map.lookup
    oci_native_ingress_contr.Common.Map.insert oci_native_ingress_contr.LoadBalancer.Client.run
update_backends_example =
    (update_backends_lem small_oci (new_client 0) looked "lb" "bs_a" "v1" (balancer "lb")
        one_backend new_backends refl refl).1
      addresses_differ (λ q. cc)
