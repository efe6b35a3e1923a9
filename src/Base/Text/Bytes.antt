-- ===== src/Base/Text/Bytes.antt =====
-- `len` of a Go string, which counts the bytes of its UTF-8 form.
use Prim.Native.Nat.{ℕ, ◌+◌}
use Prim.Native.Char.{code}
use Prim.Native.String.{String}
use spiderw.Base.Tests.{ltb, if◌then◌else◌}

abbrev pub utf8_width : ℕ → ℕ
utf8_width c = if ltb c 0x80 then 1 else if ltb c 0x800 then 2 else if ltb c 0x10000 then 3 else 4

unfoldable pub len : String → ℕ
len String.[] = 0
len (String.◌∷◌ c s) = utf8_width (code c) + len s
