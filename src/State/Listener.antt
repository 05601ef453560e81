-- ===== src/State/Listener.antt =====
-- What the paths of several Ingresses ask of one listener (pkg/state/ingressstate.go).
use oci_native_ingress_contr.Common.{
  String, ◌<>◌, ℤ, int_eq, not, Option, none, some, [], ◌==◌, string_eq, if◌then◌else◌,
}
use oci_native_ingress_contr.Common.Map.{Map, lookup, insert}
use oci_native_ingress_contr.Common.Set
use oci_native_ingress_contr.Common.Set.{Set}
use oci_native_ingress_contr.Common.Text.Decimal.{itoa}
use oci_native_ingress_contr.Exception.{Error, Result, ok, err, plain, ◌>>=◌}
use oci_native_ingress_contr.Kube.{Ingress}
use oci_native_ingress_contr.Util.Names.{default_backend_set_name}
use oci_native_ingress_contr.Util.Annotation.{
  get_ingress_protocol, is_ingress_protocol_tcp, get_ingress_listener_connection_idle_timeout,
}
use oci_native_ingress_contr.State.Types.{IdleTimeoutConfig}

abbrev conflict_at : String → ℤ → Error
conflict_at what port = plain (
    "validation failure: incompatible "
    <> (what <> (" sharing listener " <> (itoa port <> " in the ingress class"))))

-- `validateListenerProtocol`
unfoldable pub validate_listener_protocol : Ingress → Map ℤ String → ℤ → Result (Map ℤ String)
validate_listener_protocol i m port =
    let protocol = get_ingress_protocol i in
    elim (lookup port m) [
      | none ↦ ok (insert port protocol m)
      | some current ↦
          if not (current == protocol)
          then err (conflict_at "protocol config across ingresses" port)
          else ok (insert port protocol m)
    ]

-- The name that `validateListenerDefaultBackendSet` claims for the listener.
unfoldable pub default_backend_set_for : Ingress → String → String
default_backend_set_for i bs_name =
    if not (is_ingress_protocol_tcp i) then default_backend_set_name else bs_name

-- `validateListenerDefaultBackendSet`
unfoldable pub validate_listener_default_backend_set :
    Ingress → Map ℤ String → ℤ → String → Result (Map ℤ String)
validate_listener_default_backend_set i m port bs_name =
    let name = default_backend_set_for i bs_name in
    elim (lookup port m) [
      | none ↦ ok (insert port name m)
      | some current ↦
          if not (current == name)
          then err (conflict_at "default backend set across TCP ingresses" port)
          else ok (insert port name m)
    ]

abbrev idle_conflict : IdleTimeoutConfig → Ingress → ℤ → ℤ → Error
idle_conflict current i timeout port = plain (
    "validation failure: incompatible listener-connection-idle-timeout config across ingresses sharing listener "
    <> (itoa port
        <> (" in the ingress class: existing ingress "
            <> (current.namespace
                <> ("/"
                    <> (current.name
                        <> (" has "
                            <> (itoa current.timeout
                                <> (" seconds, conflicting ingress "
                                    <> (i.namespace
                                        <> ("/"
                                            <> (i.name
                                                <> (" has "
                                                    <> (itoa timeout <> " seconds"))))))))))))))

abbrev set_idle_timeout :
    Ingress → ℤ → ℤ → Map ℤ ℤ → Map ℤ IdleTimeoutConfig → Map ℤ ℤ × Map ℤ IdleTimeoutConfig
set_idle_timeout i port timeout m configs = (
  insert port timeout m,
  insert port (record { timeout = timeout; namespace = i.namespace; name = i.name }) configs,
)

-- The part of `validateListenerConnectionIdleTimeout` behind the annotation.
unfoldable pub claim_idle_timeout :
    Ingress
    → ℤ
    → Option ℤ
    → Map ℤ ℤ
    → Map ℤ IdleTimeoutConfig
    → Result (Map ℤ ℤ × Map ℤ IdleTimeoutConfig)
claim_idle_timeout i port none m configs = ok (m, configs)
claim_idle_timeout i port (some timeout) m configs = elim (lookup port configs) [
  | none ↦ ok (set_idle_timeout i port timeout m configs)
  | some current ↦
      if not (current.timeout == timeout)
      then err (idle_conflict current i timeout port)
      else ok (set_idle_timeout i port timeout m configs)
]

-- `validateListenerConnectionIdleTimeout`
unfoldable pub validate_listener_connection_idle_timeout :
    Ingress → Map ℤ ℤ → Map ℤ IdleTimeoutConfig → ℤ → Result (Map ℤ ℤ × Map ℤ IdleTimeoutConfig)
unfolding claim_idle_timeout
validate_listener_connection_idle_timeout i m configs port = do
  timeout ← get_ingress_listener_connection_idle_timeout i
  claim_idle_timeout i port timeout m configs

abbrev set_or_empty : Option (Set String) → Set String
set_or_empty none = []
set_or_empty (some s) = s

-- `appendListenerBackendSet`
unfoldable pub append_listener_backend_set : Map ℤ (Set String) → ℤ → String → Map ℤ (Set String)
append_listener_backend_set m port bs_name =
    insert port (Set.insert bs_name (set_or_empty (lookup port m))) m
