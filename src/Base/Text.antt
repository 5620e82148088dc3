-- ===== src/Base/Text.antt =====
-- Python strings: truth, length, prefixes.
use Prim.Native.Nat.{ℕ, zero, suc}
use Prim.Native.String.{String}
use mathlib.Core.Bool.{Bool, true, false, not}
use mathlib.Core.Option.{Option, none, some}
use text.Mathlib.Text.{◌==◌}
use nektron_moments.Base.Tests.{if◌then◌else◌}

-- `bool(s)`
abbrev pub truthy : String → Bool
truthy s = not (s == "")

-- `s or default` for a string that may be missing
abbrev pub or_text : Option String → String → String
or_text none d = d
or_text (some s) d = if truthy s then s else d

-- `len(s)`
unfoldable pub text_length : String → ℕ
text_length String.[] = 0
text_length (String.◌∷◌ c s) = suc (text_length s)

-- `s[:n]`
unfoldable pub text_prefix : ℕ → String → String
text_prefix zero s = ""
text_prefix (suc n) String.[] = ""
text_prefix (suc n) (String.◌∷◌ c s) = String.◌∷◌ c (text_prefix n s)

-- The text before the first separator: `s.split(c, 1)[0]`
unfoldable pub before : String → String → String
before c String.[] = ""
before c (String.◌∷◌ d s) =
    let rest = before c s in if String.◌∷◌ d String.[] == c then "" else String.◌∷◌ d rest

-- `c in s` for a text of one character
unfoldable pub has_character : String → String → Bool
has_character c String.[] = false
has_character c (String.◌∷◌ d s) =
    let rest = has_character c s in if String.◌∷◌ d String.[] == c then true else rest

-- Every character of `s` is one of `cs`.
unfoldable pub only_of : String → String → Bool
unfolding has_character
only_of cs String.[] = true
only_of cs (String.◌∷◌ d s) =
    let rest = only_of cs s in if has_character (String.◌∷◌ d String.[]) cs then rest else false

-- `s.startswith(p)`
unfoldable pub starts_with : String → String → Bool
starts_with String.[] s = true
starts_with (String.◌∷◌ c p) String.[] = false
starts_with (String.◌∷◌ c p) (String.◌∷◌ d s) =
    let rest = starts_with p s in
    if String.◌∷◌ c String.[] == String.◌∷◌ d String.[] then rest else false

-- `p in s`
unfoldable pub contains_text : String → String → Bool
unfolding starts_with
contains_text p String.[] = starts_with p String.[]
contains_text p (String.◌∷◌ d s) =
    let rest = contains_text p s in if starts_with p (String.◌∷◌ d s) then true else rest
