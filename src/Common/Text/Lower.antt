-- ===== src/Common/Text/Lower.antt =====
-- The lower case of ASCII letters.
use Prim.Native.String.{String}
use oci_native_ingress_contr.Common.Text.Letter.{lower_char}

-- `strings.ToLower`
unfoldable pub to_lower : String → String
unfolding lower_char
to_lower String.[] = ""
to_lower (String.◌∷◌ c s) = String.◌∷◌ (lower_char c) (to_lower s)
