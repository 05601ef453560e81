-- ===== src/Common/Text/Order.antt =====
-- Go's `<` on strings: by bytes, which for UTF-8 is by code points.
use Prim.Native.Nat.{compare, Ordering}
use Prim.Native.Char.{Char, code}
use Prim.Native.String.{String, ◌++◌}
use Prim.Native.String.append
use mathlib.Core.Path.{◌≡◌, refl, ap₂}
use mathlib.Core.Bool.{Bool, true, false}
use native.Mathlib.Omega.{arith}
use text.Mathlib.TextEquality.{Char-path}
use oci_native_ingress_contr.Common.Sort.{IsWeakOrder, IsTotal}

unfoldable pub str_lt : String → String → Bool
str_lt String.[] String.[] = false
str_lt String.[] (String.◌∷◌ d t) = true
str_lt (String.◌∷◌ c s) String.[] = false
str_lt (String.◌∷◌ c s) (String.◌∷◌ d t) =
    let rest = str_lt s t in
    elim (compare (code c) (code d)) [
      | Ordering.lt ↦ true
      | Ordering.eq ↦ rest
      | Ordering.gt ↦ false
    ]

str_lt-asym : (s t : String) → str_lt s t ≡ true → str_lt t s ≡ false
unfolding str_lt
str_lt-asym String.[] String.[] h = refl
str_lt-asym String.[] (String.◌∷◌ d t) h = refl
str_lt-asym (String.◌∷◌ c s) String.[] h = cc
str_lt-asym (String.◌∷◌ c s) (String.◌∷◌ d t) h = ground (arith, str_lt-asym s t)

str_lt_trans : (a b c : String) → str_lt b a ≡ false → str_lt c b ≡ false → str_lt c a ≡ false
unfolding str_lt
str_lt_trans String.[] b String.[] p q = refl
str_lt_trans String.[] b (String.◌∷◌ z c) p q = refl
str_lt_trans (String.◌∷◌ x a) String.[] c p q = cc
str_lt_trans (String.◌∷◌ x a) (String.◌∷◌ y b) String.[] p q = cc
str_lt_trans (String.◌∷◌ x a) (String.◌∷◌ y b) (String.◌∷◌ z c) p q =
    ground (arith, str_lt_trans a b c)

pub str_lt-IsWeakOrder : IsWeakOrder str_lt
str_lt-IsWeakOrder = record { asym = str_lt-asym; trans = str_lt_trans }

str_lt-antisym : (s t : String) → str_lt s t ≡ false → str_lt t s ≡ false → s ≡ t
unfolding str_lt
str_lt-antisym String.[] String.[] p q = refl
str_lt-antisym String.[] (String.◌∷◌ d t) p q = cc
str_lt-antisym (String.◌∷◌ c s) String.[] p q = cc
str_lt-antisym (String.◌∷◌ c s) (String.◌∷◌ d t) p q =
    ap₂ String.◌∷◌ (Char-path c d (ground arith)) (str_lt-antisym s t (ground arith) (ground arith))

pub str_lt-IsTotal : IsTotal str_lt
str_lt-IsTotal = record { antisym = str_lt-antisym }

-- A text comes before each of its proper extensions.
pub str_lt-append : (s : String) (c : Char) (t : String) → str_lt s (s ++ String.◌∷◌ c t) ≡ true
unfolding str_lt
str_lt-append String.[] c t = rw append.nil
str_lt-append (String.◌∷◌ d s) c t = rw append.cons (ground (arith, str_lt-append s c t))
