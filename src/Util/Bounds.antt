-- ===== src/Util/Bounds.antt =====
-- Numbers from annotations, and the names made of them (pkg/util/util.go).
use text.Mathlib.TextLemmas.{append_cancel_left}
use oci_native_ingress_contr.Common.{
  ◌≡◌, String, ℤ, pos, negsuc, int_eq, ltℤ, false, none, some, IsInt32, arith, inl, inr,
  Option-cases,
}
use oci_native_ingress_contr.Common.Set.{}
use oci_native_ingress_contr.Common.Text.{trim_space}
use oci_native_ingress_contr.Common.Text.Decimal.{atoi, IsInt64, itoa_inj}
use oci_native_ingress_contr.Exception.{ok}
use oci_native_ingress_contr.Exception.Laws.{}
use oci_native_ingress_contr.Kube.{Ingress}
use oci_native_ingress_contr.Util.Names.{generate_listener_name}
use oci_native_ingress_contr.Util.Annotation.{
  annotation, idle_timeout_annotation, get_ingress_listener_connection_idle_timeout,
  parse_idle_timeout, check_idle_timeout,
}
use oci_native_ingress_contr.Util.Port.{}

parse_idle_timeout-bounds :
    (value : String) {t : ℤ}
    → parse_idle_timeout value ≡ ok (some t)
    → (ltℤ t (pos 1) ≡ false) × (ltℤ (pos 7200) t ≡ false) × (atoi value ≡ some t)
unfolding parse_idle_timeout check_idle_timeout
parse_idle_timeout-bounds value h = (ground arith, ground arith, ground arith)

-- An idle timeout that is read from an Ingress is between 1 and 7200 seconds.
pub get_ingress_listener_connection_idle_timeout-bounds :
    (i : Ingress) (t : ℤ)
    → get_ingress_listener_connection_idle_timeout i ≡ ok (some t)
    → (ltℤ t (pos 1) ≡ false) × (ltℤ (pos 7200) t ≡ false)
unfolding get_ingress_listener_connection_idle_timeout
get_ingress_listener_connection_idle_timeout-bounds i t h =
    elim (Option-cases (annotation idle_timeout_annotation i)) [
      | inl absent ↦
          let no : ok none ≡ ok (some t) =
            rw (absent, get_ingress_listener_connection_idle_timeout) at h in
          cc
      | inr (value, present) ↦
          let (low, high, _) =
            parse_idle_timeout-bounds (trim_space value)
              (rw (present, get_ingress_listener_connection_idle_timeout) at h) in
          (low, high)
    ]

pub int32-IsInt64 : (p : ℤ) → IsInt32 p → IsInt64 p
int32-IsInt64 (pos n) h = ground arith
int32-IsInt64 (negsuc n) h = ground arith

-- Two ports in the range of int32 whose listeners have the same name are equal.
pub generate_listener_name_inj :
    (p q : ℤ) → IsInt32 p → IsInt32 q → generate_listener_name p ≡ generate_listener_name q → p ≡ q
unfolding generate_listener_name
generate_listener_name_inj p q hp hq h =
    itoa_inj p q (int32-IsInt64 p hp) (int32-IsInt64 q hq) (append_cancel_left "route_" _ _ h)
