-- ===== src/Wire/Enumerate/Order.antt =====
-- The order of the paths, and that sorting by it does not depend on where one starts.
use spiderw.Base.{
  true, false, ◌≡◌, refl, arith, ap, String, List, [], ◌∷◌, ◌≢◌, Bool-cases, inl, inr,
}
use Prim.Native.Char.{code}
use text.Mathlib.TextEquality.{Char-path}
use spiderw.Wire.Enumerate.{str_lt, Entry, insert_entry}

str_lt-asymm : (s t : String) → str_lt s t ≡ true → str_lt t s ≡ false
unfolding str_lt
str_lt-asymm String.[] String.[] h = refl
str_lt-asymm String.[] (String.◌∷◌ d t) h = refl
str_lt-asymm (String.◌∷◌ c s) String.[] h = absurd (ground (arith, h))
str_lt-asymm (String.◌∷◌ c s) (String.◌∷◌ d t) h = ground (arith, str_lt-asymm s t)

str_lt_trans : (s t u : String) → str_lt s t ≡ true → str_lt t u ≡ true → str_lt s u ≡ true
unfolding str_lt
str_lt_trans String.[] String.[] u h k = absurd (ground (arith, h))
str_lt_trans String.[] (String.◌∷◌ d t) String.[] h k = absurd (ground (arith, k))
str_lt_trans String.[] (String.◌∷◌ d t) (String.◌∷◌ e u) h k = refl
str_lt_trans (String.◌∷◌ c s) String.[] u h k = absurd (ground (arith, h))
str_lt_trans (String.◌∷◌ c s) (String.◌∷◌ d t) String.[] h k = absurd (ground (arith, k))
str_lt_trans (String.◌∷◌ c s) (String.◌∷◌ d t) (String.◌∷◌ e u) h k =
    ground (arith, str_lt_trans s t u)

str_lt-total : (s t : String) → str_lt s t ≡ false → str_lt t s ≡ false → s ≡ t
unfolding str_lt
str_lt-total String.[] String.[] h k = refl
str_lt-total String.[] (String.◌∷◌ d t) h k = absurd (ground (arith, h))
str_lt-total (String.◌∷◌ c s) String.[] h k = absurd (ground (arith, k))
str_lt-total (String.◌∷◌ c s) (String.◌∷◌ d t) h k =
    let q : code c ≡ code d = ground (arith, h, k) in
    let l : str_lt s t ≡ false = ground (arith, h, k, q) in
    let r : str_lt t s ≡ false = ground (arith, h, k, q) in
    let e = Char-path c d q in let e' = str_lt-total s t l r in λ i. String.◌∷◌ (e i) (e' i)

str_lt_of_le : (f a b : String) → str_lt f b ≡ false → str_lt f a ≡ true → str_lt b a ≡ true
str_lt_of_le f a b l h = elim (Bool-cases (str_lt b f)) [
  | inl g ↦ str_lt_trans b f a g h
  | inr g ↦ let e = str_lt-total f b l g in rw (e) at h
]

-- Two entries with different paths are put in with the same result in either order.
pub insert_comm :
    (a b : Entry) (es : List Entry)
    → a.0 ≢ b.0
    → insert_entry a (insert_entry b es) ≡ insert_entry b (insert_entry a es)
unfolding insert_entry
insert_comm a b [] ne = elim (Bool-cases (str_lt a.0 b.0)) [
  | inl l ↦ rw (l, str_lt-asymm a.0 b.0 l) refl
  | inr l ↦ elim (Bool-cases (str_lt b.0 a.0)) [
    | inl g ↦ rw (l, g) refl
    | inr g ↦ absurd (ne (str_lt-total a.0 b.0 l g))
  ]
]
insert_comm a b (f ∷ fs) ne = elim (Bool-cases (str_lt f.0 a.0)) [
  | inl fa ↦ elim (Bool-cases (str_lt f.0 b.0)) [
    | inl fb ↦ let ih = insert_comm a b fs ne in rw (fa, fb, fa) (ap (λ (x : List Entry). f ∷ x) ih)
    | inr fb ↦ let ba = str_lt_of_le f.0 a.0 b.0 fb fa in rw (fa, fb, ba, fa) refl
  ]
  | inr fa ↦ elim (Bool-cases (str_lt f.0 b.0)) [
    | inl fb ↦ let ab = str_lt_of_le f.0 b.0 a.0 fa fb in rw (fa, fb, ab, fa) refl
    | inr fb ↦ elim (Bool-cases (str_lt a.0 b.0)) [
      | inl l ↦ rw (fa, fb, l, str_lt-asymm a.0 b.0 l) refl
      | inr l ↦ elim (Bool-cases (str_lt b.0 a.0)) [
        | inl g ↦ rw (fa, fb, l, g, fa) refl
        | inr g ↦ absurd (ne (str_lt-total a.0 b.0 l g))
      ]
    ]
  ]
]
