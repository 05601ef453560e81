-- ===== src/Common/Int.antt =====
-- Go's signed integers. `negsuc n` is -(n + 1).
use Prim.Native.Nat.{ℕ, ◌-◌, ◌%◌, ◌^◌, ◌<◌}
use mathlib.Core.Path.{◌≡◌}
use mathlib.Core.Logic.{inl, inr}
use mathlib.Core.Bool.{Bool, true, false}
use native.Mathlib.Decide.{ℕ_discrete}
use native.Mathlib.Omega.{arith}
use oci_native_ingress_contr.Common.Test.{ltb, if◌then◌else◌, Bool-cases}
use oci_native_ingress_contr.Common.Equality.{Eq}

pub data ℤ : Type 0 where
  pos : ℕ → ℤ
  negsuc : ℕ → ℤ

unfoldable pub ℤ_discrete : Discrete ℤ
ℤ_discrete = hlevel ℕ_discrete

instance unfoldable pub int_eq : Eq ℤ
unfolding ℤ_discrete
int_eq = record { dec = ℤ_discrete }

abbrev pub ltℤ : ℤ → ℤ → Bool
ltℤ (pos a) (pos b) = ltb a b
ltℤ (pos a) (negsuc b) = false
ltℤ (negsuc a) (pos b) = true
ltℤ (negsuc a) (negsuc b) = ltb b a

-- The bit pattern of the low 32 bits.
low_32 : ℤ → ℕ
low_32 (pos n) = n % 2 ^ 32
low_32 (negsuc n) = 2 ^ 32 - 1 - n % 2 ^ 32

low_32-lt : (x : ℤ) → low_32 x < 2 ^ 32
unfolding low_32
low_32-lt (pos n) = omega arith
low_32-lt (negsuc n) = omega arith

-- The conversion `int32(x)`.
unfoldable pub to_int32 : ℤ → ℤ
unfolding low_32
to_int32 x = let r = low_32 x in if ltb r (2 ^ 31) then pos r else negsuc (2 ^ 32 - 1 - r)

-- A value of the range of `int32`.
abbrev pub IsInt32 : ℤ → Type 0
IsInt32 (pos n) = n < 2 ^ 31
IsInt32 (negsuc n) = n < 2 ^ 31

pub to_int32_id : (x : ℤ) → IsInt32 x → to_int32 x ≡ x
unfolding to_int32
to_int32_id (pos n) h = ground arith
to_int32_id (negsuc n) h = ground arith

pub to_int32-IsInt32 : (x : ℤ) → IsInt32 (to_int32 x)
unfolding to_int32
to_int32-IsInt32 x = elim (Bool-cases (ltb (low_32 x) (2 ^ 31))) [
  | inl low ↦ rw low (ground arith)
  | inr high ↦ rw high (ground (arith, low_32-lt x))
]
