-- ===== src/Base/Text/Split.antt =====
-- `strings.Split` and `strings.Join` at a dot, and texts without a dot.
use Prim.Native.Nat.{ℕ}
use mathlib.Core.Path.{◌≡◌, refl, ap}
use mathlib.Core.Logic.{◌≢◌, ◌⊎◌, inl, inr}
use mathlib.Core.List.{List, [], ◌∷◌, ◌++◌}
use native.Mathlib.Omega.{arith}
use spiderw.Base.Tests.{◌==◌, if◌then◌else◌}
use spiderw.Base.Text.Codes.{Text}

abbrev pub dot : ℕ
dot = b'.'

-- Puts a code point in front of the first part.
abbrev pub cons_first : ℕ → List Text → List Text
cons_first c [] = (c ∷ []) ∷ []
cons_first c (p ∷ ps) = (c ∷ p) ∷ ps

-- `strings.Split(s, ".")`.
unfoldable pub split_dots : Text → List Text
split_dots [] = [] ∷ []
split_dots (c ∷ s) = let rest = split_dots s in if c == dot then [] ∷ rest else cons_first c rest

-- `strings.Join(parts, ".")`.
unfoldable pub join_dots : List Text → Text
join_dots [] = []
join_dots (p ∷ []) = p
join_dots (p ∷ q ∷ ps) = p ++ dot ∷ join_dots (q ∷ ps)

-- `parts[:len(parts)-1]` and `parts[len(parts)-1]`, the latter with a default.
abbrev pub all_but_last : List Text → List Text
all_but_last [] = []
all_but_last (p ∷ []) = []
all_but_last (p ∷ q ∷ ps) = p ∷ all_but_last (q ∷ ps)

abbrev pub last_or : Text → List Text → Text
last_or d [] = d
last_or d (p ∷ ps) = last_or p ps

abbrev pub IsDotless : Text → Type 0
IsDotless [] = Unit
IsDotless (c ∷ s) = (c ≢ dot) × IsDotless s

pub split_dots-dotless : (s : Text) → IsDotless s → split_dots s ≡ s ∷ []
unfolding split_dots
split_dots-dotless [] h = refl
split_dots-dotless (c ∷ s) h = rw (split_dots-dotless s h.1) (ground arith)

cons_first-append :
    (c : ℕ) (ps : List Text) (m : Text)
    → ps ≢ []
    → cons_first c (ps ++ m ∷ []) ≡ cons_first c ps ++ m ∷ []
cons_first-append c [] m h = absurd (h refl)
cons_first-append c (p ∷ ps) m h = refl

pub List-cases : (ps : List Text) → (ps ≡ []) ⊎ ((p : Text) × (rest : List Text) × (ps ≡ p ∷ rest))
List-cases [] = inl refl
List-cases (p ∷ ps) = inr (p, ps, refl)

pub split_dots-ne-nil : (s : Text) → split_dots s ≢ []
unfolding split_dots
split_dots-ne-nil [] h = cc
split_dots-ne-nil (c ∷ s) h = elim (List-cases (split_dots s)) [
  | inl n ↦ split_dots-ne-nil s n
  | inr (p, ps, q) ↦ ground (arith, h, q)
]

pub split_dots-append_dotless :
    (s m : Text) → IsDotless m → split_dots (s ++ dot ∷ m) ≡ split_dots s ++ m ∷ []
unfolding split_dots
split_dots-append_dotless [] m h = rw (split_dots-dotless m h)
split_dots-append_dotless (c ∷ s) m h =
    rw (split_dots-append_dotless s m h)
      (ground (arith, cons_first-append c (split_dots s) m (split_dots-ne-nil s)))

join_dots-cons_first : (c : ℕ) (ps : List Text) → join_dots (cons_first c ps) ≡ c ∷ join_dots ps
unfolding join_dots
join_dots-cons_first c [] = refl
join_dots-cons_first c (p ∷ []) = refl
join_dots-cons_first c (p ∷ q ∷ ps) = refl

join_dots-nil-cons : (ps : List Text) → ps ≢ [] → join_dots ([] ∷ ps) ≡ dot ∷ join_dots ps
unfolding join_dots
join_dots-nil-cons [] h = absurd (h refl)
join_dots-nil-cons (p ∷ ps) h = refl

join_dots-nil : join_dots ([] ∷ []) ≡ []
unfolding join_dots
join_dots-nil = refl

pub join_dots-split_dots : (s : Text) → join_dots (split_dots s) ≡ s
unfolding split_dots
join_dots-split_dots [] = join_dots-nil
join_dots-split_dots (c ∷ s) = ground (
  arith,
  join_dots-split_dots s,
  join_dots-nil-cons (split_dots s) (split_dots-ne-nil s),
  join_dots-cons_first c (split_dots s),
)

pub all_but_last-append : (ps : List Text) (m : Text) → all_but_last (ps ++ m ∷ []) ≡ ps
all_but_last-append [] m = refl
all_but_last-append (p ∷ []) m = refl
all_but_last-append (p ∷ q ∷ ps) m = ap (λ r. p ∷ r) (all_but_last-append (q ∷ ps) m)

pub last_or-append : (d : Text) (ps : List Text) (m : Text) → last_or d (ps ++ m ∷ []) ≡ m
last_or-append d [] m = refl
last_or-append d (p ∷ ps) m = last_or-append p ps m
