-- ===== src/SignalAgent/Thresholds.antt =====
-- A validated configuration: the thresholds descend, and no bit of them is lost.
use spiderw.Base.{
  ◌<◌, Bool, true, false, not, ◌||◌, ◌≡◌, ◌≢◌, ◌↔◌, refl, arith, Option, none, some, String, List,
  [], ◌∷◌, map, All, if◌then◌else◌,
}
use spiderw.Base.{ℤ, pos, negsuc}
use spiderw.Errors.{Err, Error, wrap_invalid_argument, new_error}
use spiderw.SignalAgent.{
  lt, int16, min_int16, max_int16, SignalLevelConfig, validate, validate_from, levels, precedes,
}

-- An `int` that an `int16` can hold.
abbrev pub Fits : ℤ → Type 0
Fits (pos n) = n < 32768
Fits (negsuc n) = n < 32768

-- The strict order of the integers, where `negsuc n` is -(n + 1).
abbrev pub Less : ℤ → ℤ → Type 0
Less (pos m) (pos n) = m < n
Less (negsuc m) (negsuc n) = n < m
Less (negsuc m) (pos n) = Unit {0}
Less (pos m) (negsuc n) = ⊥

-- Each integer of the list is less than the one before it.
abbrev pub Descends : List ℤ → Type 0
Descends [] = Unit {0}
Descends (t ∷ []) = Unit {0}
Descends (t ∷ u ∷ ts) = Less u t × Descends (u ∷ ts)

-- The same for a list with an integer before it, or none.
abbrev DescendsFrom : Option ℤ → List ℤ → Type 0
DescendsFrom none ts = Descends ts
DescendsFrom (some t) ts = Descends (t ∷ ts)

lt_iff : (t u : ℤ) → (lt t u ≡ true) ↔ Less t u
unfolding lt
lt_iff (pos m) (pos n) = ground arith
lt_iff (negsuc m) (negsuc n) = ground arith
lt_iff (negsuc m) (pos n) = ground arith
lt_iff (pos m) (negsuc n) = ground arith

DescendsFrom-cons :
    (previous : Option ℤ) (t : ℤ) (ts : List ℤ)
    → DescendsFrom previous (t ∷ ts) ↔ ((precedes previous t ≡ true) × DescendsFrom (some t) ts)
DescendsFrom-cons none t ts = (λ h. (refl, h), λ h. h.1)
DescendsFrom-cons (some u) t ts = let q = lt_iff t u in (λ h. (q.1 h.0, h.1), λ h. (q.0 h.0, h.1))

int16-Fits : (t : ℤ) → Fits t → int16 t ≡ t
unfolding int16
int16-Fits (pos n) h = ground arith
int16-Fits (negsuc n) h = ground arith

in_range_iff : (t : ℤ) → ((lt t min_int16 || lt max_int16 t) ≡ false) ↔ Fits t
unfolding lt
in_range_iff (pos n) = ground arith
in_range_iff (negsuc n) = ground arith

-- Two guards in a row that let a call through.
guards_iff :
    (a b : Bool) (x y : Err) (rest : Error)
    → ((if a then some x else if not b then some y else rest) ≡ none)
      ↔ ((a ≡ false) × (b ≡ true) × (rest ≡ none))
guards_iff true b x y rest = ground arith
guards_iff false true x y rest = ground arith
guards_iff false false x y rest = ground arith

validate_from_iff :
    (op : String) (previous : Option ℤ) (ts : List ℤ)
    → (validate_from op previous ts ≡ none) ↔ (DescendsFrom previous ts × All Fits ts)
unfolding validate_from wrap_invalid_argument new_error
validate_from_iff op none [] = (λ h. (tt, tt), λ h. refl)
validate_from_iff op (some t) [] = (λ h. (tt, tt), λ h. refl)
validate_from_iff op previous (t ∷ ts) =
    let rest = validate_from_iff op (some t) ts in
    let range = in_range_iff t in
    let cons = DescendsFrom-cons previous t ts in
    let both =
      guards_iff (lt t min_int16 || lt max_int16 t) (precedes previous t) _ _
        (validate_from op (some t) ts) in
    (
      λ h. let (a, b, c) = both.0 h in let (d, f) = rest.0 c in (cons.1 (b, d), (range.0 a, f)),
      λ h. let (b, d) = cons.0 h.0 in both.1 (range.1 h.1.0, b, rest.1 (d, h.1.1)),
    )

configured_iff :
    (op : String) (b : Bool) (ts : List ℤ)
    → (validate op (record { thresholds = ts; changed = b }) ≡ none)
      ↔ ((b ≡ true) × (ts ≢ []) × Descends ts × All Fits ts)
unfolding validate wrap_invalid_argument new_error
configured_iff op false ts = (λ h. absurd (ground arith), λ h. absurd (ground (arith, h.0)))
configured_iff op true [] = (λ h. absurd (ground arith), λ h. absurd (h.1 refl))
configured_iff op true (t ∷ ts) =
    let q = validate_from_iff op none (t ∷ ts) in
    (λ h. let (d, f) = q.0 h in (refl, λ e. absurd (ground arith), d, f), λ h. q.1 (h.2, h.3))

-- `Validate` accepts a configuration exactly when the callback is set and the thresholds are not
-- empty, each of them is less than the one before it, and each fits into an int16.
pub validate_iff :
    (op : String) (c : SignalLevelConfig)
    → (validate op c ≡ none)
      ↔ ((c.changed ≡ true) × (c.thresholds ≢ []) × Descends c.thresholds × All Fits c.thresholds)
validate_iff op c = configured_iff op c.changed c.thresholds

map-int16 : (ts : List ℤ) → All Fits ts → map int16 ts ≡ ts
map-int16 [] h = refl
map-int16 (t ∷ ts) h = rw (int16-Fits t h.0, map-int16 ts h.1) refl

-- The levels of an agent whose configuration `Validate` accepts are its thresholds: the conversion to
-- int16 loses nothing.
pub levels-validate :
    (op : String) (c : SignalLevelConfig) → validate op c ≡ none → levels c ≡ c.thresholds
unfolding levels
levels-validate op c h = map-int16 c.thresholds ((validate_iff op c).0 h).3
