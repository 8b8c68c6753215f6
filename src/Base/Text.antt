-- ===== src/Base/Text.antt =====
-- Text: Python's `str`, compared whole, and cut by a number of characters.
use Prim.Native.Nat.{ℕ, zero, suc}
use Prim.Native.Char.{code}
use Prim.Native.String.{String}
use text.Mathlib.Text.{◌==◌}
use mathlib.Core.Bool.{Bool, true, false, ◌&&◌, ◌||◌}
use ppt_video_workbench_v.Base.Tests.{leb, ltb}

abbrev pub str_eq : String → String → Bool
str_eq s t = s == t

-- `text[:n]`
unfoldable pub take_chars : ℕ → String → String
take_chars zero s = ""
take_chars (suc n) String.[] = ""
take_chars (suc n) (String.◌∷◌ c s) = String.◌∷◌ c (take_chars n s)

-- `len(text) <= n`
unfoldable pub fits_in : ℕ → String → Bool
fits_in n String.[] = true
fits_in zero (String.◌∷◌ c s) = false
fits_in (suc n) (String.◌∷◌ c s) = fits_in n s

-- `text or None` is absent for the empty text.
abbrev pub is_empty : String → Bool
is_empty String.[] = true
is_empty (String.◌∷◌ c s) = false

abbrev is_hex : ℕ → Bool
is_hex c = (leb b'0' c && leb c b'9') || (leb b'a' c && leb c b'f')

-- The pattern `^[0-9a-f]{n}$`
unfoldable pub is_hex_of : ℕ → String → Bool
is_hex_of zero String.[] = true
is_hex_of (suc n) String.[] = false
is_hex_of zero (String.◌∷◌ c s) = false
is_hex_of (suc n) (String.◌∷◌ c s) = is_hex (code c) && is_hex_of n s

-- The text of a SHA-256 digest.
abbrev pub is_digest : String → Bool
is_digest s = is_hex_of 64 s

-- `s < t` on texts, by the codes of the characters.
unfoldable pub text_before : String → String → Bool
text_before String.[] String.[] = false
text_before String.[] (String.◌∷◌ d t) = true
text_before (String.◌∷◌ c s) String.[] = false
text_before (String.◌∷◌ c s) (String.◌∷◌ d t) =
    let rest = text_before s t in ltb (code c) (code d) || (leb (code c) (code d) && rest)
