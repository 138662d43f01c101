-- ===== src/Base/Text.antt =====
-- Texts as lists of character codes, with the string methods that the services use, on ASCII.
use Prim.Native.String.{String}
use Prim.Native.Char.{code}
use Prim.Native.Nat.{ℕ, ◌+◌, ◌-◌}
use mathlib.Core.Bool.{Bool, true, false, ◌&&◌, ◌||◌}
use mathlib.Core.List.{List, [], ◌∷◌, map, reverse}
use saas_frontend.Base.Tests.{◌==◌, leb, if◌then◌else◌}

abbrev pub Text : Type 0
Text = List ℕ

abbrev pub codes : String → Text
codes String.[] = []
codes (String.◌∷◌ c s) = code c ∷ codes s

abbrev pub text_eq : Text → Text → Bool
text_eq [] [] = true
text_eq (a ∷ s) (b ∷ t) = (a == b) && text_eq s t
text_eq _ _ = false

-- `toLowerCase()`
abbrev lower : ℕ → ℕ
lower c = if leb b'A' c && leb c b'Z' then c + 32 else c

-- `toUpperCase()`
abbrev upper : ℕ → ℕ
upper c = if leb b'a' c && leb c b'z' then c - 32 else c

-- The characters that `trim()` takes off
abbrev is_space : ℕ → Bool
is_space c = (c == 32) || (leb 9 c && leb c 13)

trim_start : Text → Text
trim_start [] = []
trim_start (c ∷ s) = let rest = trim_start s in if is_space c then rest else c ∷ s

unfoldable pub trim : Text → Text
unfolding trim_start
trim s = reverse (trim_start (reverse (trim_start s)))

-- `s.toLowerCase().trim()`
unfoldable pub lower_trim : Text → Text
unfolding trim
lower_trim s = trim (map lower s)

-- `s.trim().toUpperCase()`
unfoldable pub trim_upper : Text → Text
unfolding trim
trim_upper s = map upper (trim s)

-- `s.toLowerCase()`
unfoldable pub to_lower_case : Text → Text
to_lower_case s = map lower s

abbrev pub starts_with : Text → Text → Bool
starts_with [] s = true
starts_with (c ∷ w) [] = false
starts_with (c ∷ w) (d ∷ s) = (c == d) && starts_with w s

-- `s.includes(w)`
unfoldable pub includes : Text → Text → Bool
includes w [] = starts_with w []
includes w (c ∷ s) = let rest = includes w s in starts_with w (c ∷ s) || rest

-- Whether a text has one of the words.
unfoldable pub includes_any : List Text → Text → Bool
unfolding includes
includes_any [] s = false
includes_any (w ∷ ws) s = let rest = includes_any ws s in includes w s || rest
