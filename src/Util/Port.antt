-- ===== src/Util/Port.antt =====
-- From the path of an Ingress to a service, its port and the listener's port (pkg/util/util.go).
use oci_native_ingress_contr.Common.{
  String, ◌<>◌, ℤ, pos, to_int32, int_eq, Bool, true, false, not, ◌||◌, Option, none, some, List,
  [], ◌∷◌, ◌==◌, string_eq, if◌then◌else◌,
}
use oci_native_ingress_contr.Common.Set.{Set, has}
use oci_native_ingress_contr.Exception.{Result, ok, err, plain, wrap, ◌>>=◌}
use oci_native_ingress_contr.Kube.{
  Ingress, IngressBackend, HttpIngressPath, IngressServiceBackend, ServicePort, ServiceLister,
}
use oci_native_ingress_contr.Util.Annotation.{
  get_ingress_http_listener_port, get_ingress_https_listener_port,
  get_listener_tls_certificate_ocids,
}

-- The loop over `svc.Spec.Ports`.
unfoldable pub port_named : List ServicePort → String → Option ℤ
port_named [] name = none
port_named (p ∷ ports) name =
    let rest = port_named ports name in if p.name == name then some p.port else rest

abbrev found_port : IngressServiceBackend → Option ℤ → Result (String × ℤ)
found_port s none = err (
    plain
      ("port named " <> (s.port.name <> (" for service backend " <> (s.name <> " was not found")))))
found_port s (some port) = ok (s.name, port)

module _ (services : ServiceLister) where
  unfoldable pub service_and_port : String → IngressServiceBackend → Result (String × ℤ)
  unfolding port_named
  service_and_port namespace s =
      if not (s.port.number == pos 0)
      then ok (s.name, s.port.number)
      else do svc ← services namespace s.name; found_port s (port_named svc.ports s.port.name)

  -- `PathToServiceAndPort`
  unfoldable pub path_to_service_and_port : String → HttpIngressPath → Result (String × ℤ)
  unfolding service_and_port
  path_to_service_and_port namespace p = elim p.backend.service [
    | none ↦ err (plain "backend service is not defined for ingress")
    | some s ↦ service_and_port namespace s
  ]

abbrev pub is_nil {ℓ} : {A : Type ℓ} → List A → Bool
is_nil [] = true
is_nil (x ∷ xs) = false

-- `DetermineListenerPort` behind the two annotations.
unfoldable pub listener_port_from : Bool → ℤ → ℤ → ℤ → ℤ
listener_port_from tls http_port https_port service_port =
    if tls
    then if not (https_port == pos 0) then to_int32 https_port else service_port
    else if not (http_port == pos 0)
    then to_int32 http_port
    else service_port

-- `DetermineListenerPort`
unfoldable pub determine_listener_port : Ingress → Set String → String → ℤ → Result ℤ
unfolding listener_port_from
determine_listener_port i tls_hosts host service_port = do
  http_port ← wrap "error parsing Ingress Http Listener Port" (get_ingress_http_listener_port i)
  https_port ← wrap "error parsing Ingress Https Listener Port" (get_ingress_https_listener_port i)
  let cert = not (is_nil (get_listener_tls_certificate_ocids i))
  ok (listener_port_from (cert || has host tls_hosts) http_port https_port service_port)

-- `IsBackendServiceEqual` on two backends that are different objects.
unfoldable pub is_backend_service_equal : IngressBackend → IngressBackend → Bool
is_backend_service_equal b1 b2 = elim b1.service [
  | none ↦ elim b2.service [ none ↦ true | some s ↦ false ]
  | some s1 ↦ elim b2.service [
    | none ↦ false
    | some s2 ↦
        if s1.name == s2.name
        then if s1.port.number == s2.port.number then s1.port.name == s2.port.name else false
        else false
  ]
]
