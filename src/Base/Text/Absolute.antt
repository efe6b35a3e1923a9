-- ===== src/Base/Text/Absolute.antt =====
-- Strings that start with a slash.
use Prim.Native.Char.{Char, code}
use Prim.Native.String.{String}
use mathlib.Core.Path.{◌≡◌, refl}
use mathlib.Core.Logic.{inl, inr}
use mathlib.Core.Bool.{true, false}
use native.Mathlib.Omega.{arith}
use spiderw.Base.Tests.{Bool-cases}
use spiderw.Base.Text.Trim.{is_blank, is_absolute, is_space, trim_left, reverse_onto, trim_space}

-- A string that starts with a slash is not empty.
pub absolute_not_blank : (p : String) → is_absolute p ≡ true → is_blank p ≡ false
absolute_not_blank String.[] h = absurd (ground arith)
absolute_not_blank (String.◌∷◌ c s) h = refl

trim_left-more :
    (c : Char) (s : String)
    → is_blank (trim_left s) ≡ false
    → is_blank (trim_left (String.◌∷◌ c s)) ≡ false
unfolding trim_left
trim_left-more c s h = elim (Bool-cases (is_space (code c))) [
  | inl q ↦ rw (q, trim_left) h
  | inr q ↦ rw (q, trim_left) refl
]

trim_left-reverse_onto :
    (s t : String)
    → is_blank (trim_left t) ≡ false
    → is_blank (trim_left (reverse_onto s t)) ≡ false
unfolding reverse_onto
trim_left-reverse_onto String.[] t h = h
trim_left-reverse_onto (String.◌∷◌ c s) t h =
    trim_left-reverse_onto s (String.◌∷◌ c t) (trim_left-more c t h)

reverse_onto-not_blank : (s t : String) → is_blank t ≡ false → is_blank (reverse_onto s t) ≡ false
unfolding reverse_onto
reverse_onto-not_blank String.[] t h = h
reverse_onto-not_blank (String.◌∷◌ c s) t h = reverse_onto-not_blank s (String.◌∷◌ c t) refl

reverse-not_blank : (s : String) → is_blank s ≡ false → is_blank (reverse_onto s String.[]) ≡ false
unfolding reverse_onto
reverse-not_blank String.[] h = absurd (ground arith)
reverse-not_blank (String.◌∷◌ c s) h = reverse_onto-not_blank s (String.◌∷◌ c String.[]) refl

slash_no_space :
    (c : Char) (s : String) → is_absolute (String.◌∷◌ c s) ≡ true → is_space (code c) ≡ false
unfolding is_space
slash_no_space c s h = ground arith

-- A string that starts with a slash is not blank once it is trimmed.
pub trim_space-absolute : (s : String) → is_absolute s ≡ true → is_blank (trim_space s) ≡ false
unfolding trim_space trim_left reverse_onto
trim_space-absolute String.[] h = absurd (ground arith)
trim_space-absolute (String.◌∷◌ c s) h =
    let q = slash_no_space c s h in
    let alone : is_blank (trim_left (String.◌∷◌ c String.[])) ≡ false = rw (q, trim_left) refl in
    rw (q, trim_space, trim_left)
      (reverse-not_blank (trim_left (reverse_onto s (String.◌∷◌ c String.[])))
        (trim_left-reverse_onto s (String.◌∷◌ c String.[]) alone))
