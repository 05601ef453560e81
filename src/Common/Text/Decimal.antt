-- ===== src/Common/Text/Decimal.antt =====
-- `strconv.Itoa`, `strconv.Atoi` and the verb `%d`.
use Prim.Native.Nat.{ℕ, zero, suc, ◌+◌, ◌-◌, ◌*◌, ◌/◌, ◌%◌, ◌^◌, ◌<◌, compare, Ordering}
use Prim.Native.Char.{Char, char, code}
use Prim.Native.String.{String}
use mathlib.Core.Path.{◌≡◌, refl, ◌∙◌}
use mathlib.Core.Logic.{ite, dite}
use mathlib.Core.Bool.{Bool, true, false, ◌&&◌, ◌||◌}
use mathlib.Core.Option.{Option, none, some}
use mathlib.Core.WellFounded
use mathlib.Core.WellFounded.{Acc, WellFounded, Acc-prop}
use native.Mathlib.Decide.{dec_lt}
use native.Mathlib.Omega.{arith}
use oci_native_ingress_contr.Common.Test.{ltb, leb, if◌then◌else◌}
use oci_native_ingress_contr.Common.Text.Letter.{IsScalar-low}
use oci_native_ingress_contr.Common.Int.{ℤ, pos, negsuc}

acc_below : (k n : ℕ) → n < k → Acc ◌<◌ n
acc_below zero n h = absurd (omega arith)
acc_below (suc k) n h = Acc.intro n λ m lt. acc_below k m (omega arith)

unfoldable pub lt_wf : WellFounded ◌<◌
unfolding acc_below
lt_wf = record { apply = λ n. acc_below (suc n) n (omega arith) }

pub tenth_lt : {n : ℕ} → 0 < n → n / 10 < n
tenth_lt h = omega arith

abbrev pub is_num : ℕ → ℕ → Bool
is_num a b = elim (compare a b) [ Ordering.eq ↦ true | _ ↦ false ]

unfoldable pub digit : ℕ → Char
digit d = char (48 + d % 10) (IsScalar-low (48 + d % 10) (omega arith))

code-digit : (d : ℕ) → code (digit d) ≡ 48 + d % 10
unfolding digit
code-digit d = refl

-- The digits of `n` in front of a text; none for zero.
unfoldable pub emit : (n : ℕ) → Acc ◌<◌ n → String → String
unfolding digit
emit n (Acc.intro _ smaller) out =
    dite (dec_lt 0 n)
      (λ h. emit (n / 10) (smaller (n / 10) (tenth_lt h)) (String.◌∷◌ (digit (n % 10)) out))
      (λ _. out)

unfoldable pub digits : ℕ → String → String
unfolding emit lt_wf
digits n = emit n (lt_wf.apply n)

unfoldable pub nat_text : ℕ → String
unfolding digits
nat_text zero = "0"
nat_text (suc n) = digits (suc n) ""

-- `strconv.Itoa` and `%d`
unfoldable pub itoa : ℤ → String
unfolding nat_text
itoa (pos n) = nat_text n
itoa (negsuc n) = String.◌∷◌ "-" (nat_text (suc n))

-- The digits behind the number read so far.
unfoldable pub scan : String → ℕ → Option ℕ
scan String.[] n = some n
scan (String.◌∷◌ c s) n =
    if ltb (code c) 48 || ltb 57 (code c) then none else scan s (n * 10 + (code c - 48))

unfoldable pub unsigned : String → Option ℕ
unfolding scan
unsigned String.[] = none
unsigned (String.◌∷◌ c s) = scan (String.◌∷◌ c s) 0

-- The range of int64.
abbrev in_range : Bool → Option ℕ → Option ℤ
in_range negative none = none
in_range false (some n) = if ltb n (2 ^ 63) then some (pos n) else none
in_range true (some zero) = some (pos 0)
in_range true (some (suc n)) = if ltb n (2 ^ 63) then some (negsuc n) else none

-- `strconv.Atoi` and `strconv.ParseInt(s, 10, 64)`; `none` is a `NumError`.
unfoldable pub atoi : String → Option ℤ
unfolding unsigned
atoi String.[] = none
atoi (String.◌∷◌ c s) =
    if is_num (code c) 45
    then in_range true (unsigned s)
    else if is_num (code c) 43
    then in_range false (unsigned s)
    else in_range false (unsigned (String.◌∷◌ c s))

-- One round of the loop. Two proofs that it ends are equal.
emit_step :
    (k : ℕ) (tail : String) (ends : Acc ◌<◌ k) (ends' : Acc ◌<◌ (k / 10))
    → emit k ends tail
      ≡ ite (dec_lt 0 k) (emit (k / 10) ends' (String.◌∷◌ (digit (k % 10)) tail)) tail
unfolding emit
emit_step k tail (Acc.intro _ smaller) ends' = λ i.
    dite (dec_lt 0 k)
      (λ more.
        emit (k / 10) (Acc-prop (smaller (k / 10) (tenth_lt more)) ends' i)
          (String.◌∷◌ (digit (k % 10)) tail))
      (λ _. tail)

digits_step :
    (k : ℕ) (tail : String)
    → digits k tail ≡ ite (dec_lt 0 k) (digits (k / 10) (String.◌∷◌ (digit (k % 10)) tail)) tail
unfolding digits
digits_step k tail = emit_step k tail (lt_wf.apply k) (lt_wf.apply (k / 10))

scan-digit : (n : ℕ) (out : String) → scan (String.◌∷◌ (digit (n % 10)) out) (n / 10) ≡ scan out n
unfolding scan
scan-digit n out = ground (arith, code-digit (n % 10))

scan-digits : (n : ℕ) (out : String) → scan (digits n out) 0 ≡ scan out n
scan-digits n =
    WellFounded.induction lt_wf {C = λ m. (out : String) → scan (digits m out) 0 ≡ scan out m} n
      λ m ih out. grind (arith, digits_step m out, scan-digit m out, ih (m / 10))

scan_text : (n : ℕ) → scan (nat_text n) 0 ≡ some n
unfolding nat_text scan
scan_text zero = refl
scan_text (suc n) = scan-digits (suc n) ""

is_digit_first : String → Bool
is_digit_first String.[] = false
is_digit_first (String.◌∷◌ c s) = leb 48 (code c) && leb (code c) 57

first-digit : (d : ℕ) (out : String) → is_digit_first (String.◌∷◌ (digit d) out) ≡ true
unfolding is_digit_first
first-digit d out = ground (arith, code-digit d)

first_digits :
    (n : ℕ) (out : String) → is_digit_first out ≡ true → is_digit_first (digits n out) ≡ true
first_digits n =
    WellFounded.induction lt_wf
      {C = λ m. (out : String) → is_digit_first out ≡ true → is_digit_first (digits m out) ≡ true} n
      λ m ih out h. grind (arith, digits_step m out, first-digit (m % 10), ih (m / 10))

first_text : (n : ℕ) → is_digit_first (nat_text n) ≡ true
unfolding nat_text is_digit_first
first_text zero = refl
first_text (suc n) = ground (
  arith,
  digits_step (suc n) "",
  first-digit (suc n % 10) "",
  first_digits (suc n / 10) (String.◌∷◌ (digit (suc n % 10)) ""),
)

unsigned_text : (s : String) → is_digit_first s ≡ true → unsigned s ≡ scan s 0
unfolding unsigned is_digit_first
unsigned_text String.[] h = cc
unsigned_text (String.◌∷◌ c s) h = refl

atoi_plain : (s : String) → is_digit_first s ≡ true → atoi s ≡ in_range false (unsigned s)
unfolding atoi is_digit_first
atoi_plain String.[] h = cc
atoi_plain (String.◌∷◌ c s) h = ground arith

-- The range of int64.
abbrev pub IsInt64 : ℤ → Type 0
IsInt64 (pos n) = n < 2 ^ 63
IsInt64 (negsuc n) = n < 2 ^ 63

unsigned-text : (n : ℕ) → unsigned (nat_text n) ≡ some n
unsigned-text n = unsigned_text (nat_text n) (first_text n) ∙ scan_text n

atoi_minus : (s : String) → atoi (String.◌∷◌ "-" s) ≡ in_range true (unsigned s)
unfolding atoi
atoi_minus s = refl

-- A printed int64 is read back.
pub atoi-itoa : (x : ℤ) → IsInt64 x → atoi (itoa x) ≡ some x
unfolding itoa
atoi-itoa (pos n) h = rw (atoi_plain (nat_text n) (first_text n), unsigned-text n) (ground arith)
atoi-itoa (negsuc n) h = rw (atoi_minus (nat_text (suc n)), unsigned-text (suc n)) (ground arith)

-- Numbers with one print are one number.
pub itoa_inj : (x y : ℤ) → IsInt64 x → IsInt64 y → itoa x ≡ itoa y → x ≡ y
itoa_inj x y hx hy e = ground (arith, atoi-itoa x, atoi-itoa y)
