-- ===== src/Common/Text/Letter.antt =====
-- Characters: spaces and the two cases of the ASCII letters.
use Prim.Native.Nat.{ℕ, compare, Ordering, ◌+◌, ◌-◌, ◌<◌}
use Prim.Native.Char.{Char, char, code, IsScalar}
use mathlib.Core.Path.{◌≡◌}
use mathlib.Core.Bool.{Bool, true, false, ◌&&◌, ◌||◌}
use mathlib.Core.Logic.{dite}
use native.Mathlib.Decide.{dec_lt}
use native.Mathlib.Omega.{arith}
use oci_native_ingress_contr.Common.Test.{leb, if◌then◌else◌}

abbrev pub same_char : Char → Char → Bool
same_char c d = elim (compare (code c) (code d)) [ Ordering.eq ↦ true | _ ↦ false ]

-- `unicode.IsSpace`
unfoldable pub is_space : Char → Bool
is_space c =
    (leb 9 (code c) && leb (code c) 13)
    || same_char c " "
    || leb 0x85 (code c) && leb (code c) 0x85
    || leb 0xa0 (code c) && leb (code c) 0xa0
    || leb 0x1680 (code c) && leb (code c) 0x1680
    || leb 0x2000 (code c) && leb (code c) 0x200a
    || leb 0x2028 (code c) && leb (code c) 0x2029
    || leb 0x202f (code c) && leb (code c) 0x202f
    || leb 0x205f (code c) && leb (code c) 0x205f
    || leb 0x3000 (code c) && leb (code c) 0x3000

compare_low : (n : ℕ) → n < 128 → compare n 55296 ≡ Ordering.lt
compare_low n h = ground arith

pub IsScalar-low : (n : ℕ) → n < 128 → IsScalar n
IsScalar-low n h = rw (compare_low n h) tt

abbrev of_code : ℕ → Char → Char
of_code n other = dite (dec_lt n 128) (λ h. char n (IsScalar-low n h)) (λ _. other)

unfoldable pub upper_char : Char → Char
upper_char c = if leb b'a' (code c) && leb (code c) b'z' then of_code (code c - 32) c else c

unfoldable pub lower_char : Char → Char
lower_char c = if leb b'A' (code c) && leb (code c) b'Z' then of_code (code c + 32) c else c
