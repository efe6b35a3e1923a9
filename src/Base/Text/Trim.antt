-- ===== src/Base/Text/Trim.antt =====
-- `strings.TrimSpace` and `strings.HasPrefix` on whole strings.
use Prim.Native.Nat.{ℕ}
use Prim.Native.Char.{code}
use Prim.Native.String.{String}
use mathlib.Core.Bool.{Bool, true, false, ◌||◌, ◌&&◌}
use spiderw.Base.Tests.{leb, ◌==◌, if◌then◌else◌}
use spiderw.Base.Text.Codes.{slash}

-- `s == ""`.
abbrev pub is_blank : String → Bool
is_blank String.[] = true
is_blank (String.◌∷◌ c s) = false

-- `strings.HasPrefix(s, "/")`, and for a string that is not empty `s[0] == '/'`.
abbrev pub is_absolute : String → Bool
is_absolute String.[] = false
is_absolute (String.◌∷◌ c s) = code c == slash

-- `unicode.IsSpace`.
unfoldable pub is_space : ℕ → Bool
is_space c =
    (leb 0x09 c && leb c 0x0d)
    || c == 0x20
    || c == 0x85
    || c == 0xa0
    || c == 0x1680
    || (leb 0x2000 c && leb c 0x200a)
    || c == 0x2028
    || c == 0x2029
    || c == 0x202f
    || c == 0x205f
    || c == 0x3000

unfoldable pub trim_left : String → String
trim_left String.[] = String.[]
trim_left (String.◌∷◌ c s) =
    let rest = trim_left s in if is_space (code c) then rest else String.◌∷◌ c s

unfoldable pub reverse_onto : String → String → String
reverse_onto String.[] t = t
reverse_onto (String.◌∷◌ c s) t = reverse_onto s (String.◌∷◌ c t)

-- `strings.TrimSpace`.
unfoldable pub trim_space : String → String
unfolding trim_left is_space reverse_onto
trim_space s = reverse_onto (trim_left (reverse_onto (trim_left s) String.[])) String.[]
