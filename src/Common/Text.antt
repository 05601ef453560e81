-- ===== src/Common/Text.antt =====
-- The functions of Go's `strings` and `strconv` that the controller calls. Letters outside ASCII
-- have no case here; the texts that the controller folds are host names and protocol names.
pub mod Letter
pub mod Order
pub mod Decimal
pub mod Lower
use Prim.Native.Char.{Char}
use Prim.Native.String.{String}
use mathlib.Core.Path.{◌≡◌, refl}
use mathlib.Core.Bool.{Bool, true, false, ◌&&◌, ◌||◌}
use mathlib.Core.Option.{Option, none, some}
use mathlib.Core.List.{List, [], ◌∷◌}
use native.Mathlib.Omega.{arith}
use oci_native_ingress_contr.Common.Test.{if◌then◌else◌}
use oci_native_ingress_contr.Common.Equality.{string_eq}
use oci_native_ingress_contr.Common.Set.{has}
use Letter.{same_char, is_space, upper_char, lower_char}

unfoldable pub trim_left : String → String
trim_left String.[] = ""
trim_left (String.◌∷◌ c s) = let rest = trim_left s in if is_space c then rest else String.◌∷◌ c s

-- A character in front of a trimmed rest: it goes if it is a space and nothing follows.
abbrev put_trimmed : Char → String → String
put_trimmed c String.[] = if is_space c then "" else String.◌∷◌ c ""
put_trimmed c (String.◌∷◌ d s) = String.◌∷◌ c (String.◌∷◌ d s)

unfoldable pub trim_right : String → String
unfolding is_space
trim_right String.[] = ""
trim_right (String.◌∷◌ c s) = put_trimmed c (trim_right s)

-- `strings.TrimSpace`
unfoldable pub trim_space : String → String
unfolding trim_left trim_right is_space
trim_space s = trim_right (trim_left s)

abbrev is_empty : String → Bool
is_empty String.[] = true
is_empty (String.◌∷◌ c s) = false

-- `strings.TrimSpace(s) == ""`
unfoldable pub is_blank : String → Bool
unfolding trim_space
is_blank s = is_empty (trim_space s)

abbrev on_first : Char → List String → List String
on_first c [] = String.◌∷◌ c "" ∷ []
on_first c (s ∷ parts) = String.◌∷◌ c s ∷ parts

-- `strings.Split` at a separator of one character
unfoldable pub split : Char → String → List String
split sep String.[] = "" ∷ []
split sep (String.◌∷◌ c s) =
    let parts = split sep s in if same_char c sep then "" ∷ parts else on_first c parts

-- `strings.HasPrefix`
unfoldable pub has_prefix : String → String → Bool
has_prefix s String.[] = true
has_prefix String.[] (String.◌∷◌ d t) = false
has_prefix (String.◌∷◌ c s) (String.◌∷◌ d t) = same_char c d && has_prefix s t

-- `strings.Contains`
unfoldable pub contains : String → String → Bool
unfolding has_prefix
contains String.[] t = has_prefix "" t
contains (String.◌∷◌ c s) t = has_prefix (String.◌∷◌ c s) t || contains s t

-- `s[1:]` of a text that begins with an ASCII character
unfoldable pub drop_first : String → String
drop_first String.[] = ""
drop_first (String.◌∷◌ c s) = s

-- `strings.ToUpper`
unfoldable pub to_upper : String → String
unfolding upper_char
to_upper String.[] = ""
to_upper (String.◌∷◌ c s) = String.◌∷◌ (upper_char c) (to_upper s)

-- `strings.EqualFold`
unfoldable pub equal_fold : String → String → Bool
unfolding lower_char
equal_fold String.[] String.[] = true
equal_fold String.[] (String.◌∷◌ d t) = false
equal_fold (String.◌∷◌ c s) String.[] = false
equal_fold (String.◌∷◌ c s) (String.◌∷◌ d t) =
    same_char (lower_char c) (lower_char d) && equal_fold s t

pub equal_fold_refl : (s : String) → equal_fold s s ≡ true
unfolding equal_fold
equal_fold_refl String.[] = refl
equal_fold_refl (String.◌∷◌ c s) = ground (arith, equal_fold_refl s)

-- `strconv.ParseBool`
unfoldable pub parse_bool : String → Option Bool
unfolding string_eq has
parse_bool s =
    if has s ("1" ∷ "t" ∷ "T" ∷ "true" ∷ "TRUE" ∷ "True" ∷ [])
    then some true
    else if has s ("0" ∷ "f" ∷ "F" ∷ "false" ∷ "FALSE" ∷ "False" ∷ [])
    then some false
    else none
