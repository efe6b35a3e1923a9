-- ===== src/Base/Text/Trimmed.antt =====
-- Trimming a trimmed string changes nothing.
use Prim.Native.Char.{Char, code}
use Prim.Native.String.{String}
use mathlib.Core.Path.{◌≡◌, refl, ◌∙◌}
use mathlib.Core.Logic.{inl, inr}
use mathlib.Core.Bool.{Bool, true, not}
use native.Mathlib.Omega.{arith}
use spiderw.Base.Tests.{Bool-cases}
use spiderw.Base.Text.Trim.{is_space, trim_left, reverse_onto, trim_space}

-- Whether the string is empty or starts, or ends, with a character that is no space.
abbrev starts_solid : String → Bool
starts_solid String.[] = true
starts_solid (String.◌∷◌ c s) = not (is_space (code c))

abbrev ends_solid_with : Char → String → Bool
ends_solid_with c String.[] = not (is_space (code c))
ends_solid_with c (String.◌∷◌ d s) = ends_solid_with d s

abbrev ends_solid : String → Bool
ends_solid String.[] = true
ends_solid (String.◌∷◌ c s) = ends_solid_with c s

trim_left-starts_solid : (s : String) → starts_solid (trim_left s) ≡ true
unfolding trim_left
trim_left-starts_solid String.[] = refl
trim_left-starts_solid (String.◌∷◌ c s) = elim (Bool-cases (is_space (code c))) [
  | inl h ↦ rw (h, trim_left) (trim_left-starts_solid s)
  | inr h ↦ rw (h, trim_left) (rw (h) refl)
]

trim_left_solid : (s : String) → starts_solid s ≡ true → trim_left s ≡ s
unfolding trim_left
trim_left_solid String.[] h = refl
trim_left_solid (String.◌∷◌ c s) h = ground arith

ends_solid-tail : (c : Char) (s : String) → ends_solid_with c s ≡ true → ends_solid s ≡ true
ends_solid-tail c String.[] h = refl
ends_solid-tail c (String.◌∷◌ d s) h = h

trim_left-ends_solid : (s : String) → ends_solid s ≡ true → ends_solid (trim_left s) ≡ true
unfolding trim_left
trim_left-ends_solid String.[] h = refl
trim_left-ends_solid (String.◌∷◌ c s) h = elim (Bool-cases (is_space (code c))) [
  | inl q ↦ rw (q, trim_left) (trim_left-ends_solid s (ends_solid-tail c s h))
  | inr q ↦ rw (q, trim_left) h
]

reverse_onto-ends :
    (s : String) (d : Char) (t : String)
    → ends_solid_with d t ≡ true
    → ends_solid (reverse_onto s (String.◌∷◌ d t)) ≡ true
unfolding reverse_onto
reverse_onto-ends String.[] d t h = h
reverse_onto-ends (String.◌∷◌ c s) d t h = reverse_onto-ends s c (String.◌∷◌ d t) h

reverse-ends : (s : String) → starts_solid s ≡ true → ends_solid (reverse_onto s String.[]) ≡ true
unfolding reverse_onto
reverse-ends String.[] h = refl
reverse-ends (String.◌∷◌ c s) h = reverse_onto-ends s c String.[] h

reverse_onto-starts :
    (c : Char) (s t : String)
    → ends_solid_with c s ≡ true
    → starts_solid (reverse_onto s (String.◌∷◌ c t)) ≡ true
unfolding reverse_onto
reverse_onto-starts c String.[] t h = h
reverse_onto-starts c (String.◌∷◌ d s) t h = reverse_onto-starts d s (String.◌∷◌ c t) h

reverse-starts : (s : String) → ends_solid s ≡ true → starts_solid (reverse_onto s String.[]) ≡ true
unfolding reverse_onto
reverse-starts String.[] h = refl
reverse-starts (String.◌∷◌ c s) h = reverse_onto-starts c s String.[] h

-- `s` put before `t` without turning it.
abbrev before : String → String → String
before String.[] t = t
before (String.◌∷◌ c s) t = String.◌∷◌ c (before s t)

reverse_onto-reverse_onto :
    (s t u : String) → reverse_onto (reverse_onto s t) u ≡ reverse_onto t (before s u)
unfolding reverse_onto
reverse_onto-reverse_onto String.[] t u = refl
reverse_onto-reverse_onto (String.◌∷◌ c s) t u = reverse_onto-reverse_onto s (String.◌∷◌ c t) u

before_empty : (s : String) → before s String.[] ≡ s
before_empty String.[] = refl
before_empty (String.◌∷◌ c s) = rw (before_empty s) refl

reverse-reverse : (s : String) → reverse_onto (reverse_onto s String.[]) String.[] ≡ s
unfolding reverse_onto
reverse-reverse s = reverse_onto-reverse_onto s String.[] String.[] ∙ before_empty s

pub trim_space-trim_space : (s : String) → trim_space (trim_space s) ≡ trim_space s
unfolding trim_space
trim_space-trim_space s =
    let a = trim_left s in
    let b = trim_left (reverse_onto a String.[]) in
    let ends =
      trim_left-ends_solid (reverse_onto a String.[]) (reverse-ends a (trim_left-starts_solid s)) in
    let stays = trim_left_solid (reverse_onto b String.[]) (reverse-starts b ends) in
    let solid = trim_left_solid b (trim_left-starts_solid (reverse_onto a String.[])) in
    rw (stays, reverse-reverse b, solid) refl
