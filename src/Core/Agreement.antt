-- ===== src/Core/Agreement.antt =====
-- `Properties` of the core layer against its getters, over the objects of internal/iwdbus.
pub mod Adapter
pub mod Device
pub mod KnownNetwork
pub mod AccessPoint
pub mod Whole
use spiderw.Base.{◌≡◌, refl, sym, none, some, String, Bool-cases, inl, inr}
use spiderw.Base.Text.{is_blank, trim_space}
use spiderw.Wire.{Result, ok, failed, ◌>>=◌}
use spiderw.Wire.Agreement.{value, >>=-value}
use spiderw.Core.{Facade, query, required_text}

-- Only the value of an answer matters to the value of a query.
pub query-value :
    {A B : Type 0} (f : Facade) (name details : String) (next : A → Result B) (r : Result A)
    → value (query f name details (some r) next) ≡ value (r >>= next)
unfolding query
query-value f name details next (ok a) = refl
query-value f name details next (failed e) = refl

-- A chain that fails whatever its first part gives.
>>=-stops :
    {A B : Type 0} (m : Result A) (g : A → Result B)
    → ((a : A) → value (g a) ≡ none)
    → value (m >>= g) ≡ none
>>=-stops (ok a) g h = h a
>>=-stops (failed e) g h = refl

-- Five results, one after another.
abbrev pub five :
    {A B C D E R : Type 0}
    → Result A
    → Result B
    → Result C
    → Result D
    → Result E
    → (A → B → C → D → E → R)
    → Result R
five a b c d e mk = do x ← a; y ← b; z ← c; u ← d; v ← e; ok (mk x y z u v)

pub five-value :
    {A B C D E R : Type 0} (a a' : Result A) (b b' : Result B) (c c' : Result C) (d d' : Result D)
    (e e' : Result E) (mk : A → B → C → D → E → R)
    → value a ≡ value a'
    → value b ≡ value b'
    → value c ≡ value c'
    → value d ≡ value d'
    → value e ≡ value e'
    → value (five a b c d e mk) ≡ value (five a' b' c' d' e' mk)
five-value a a' b b' c c' d d' e e' mk p q r s t = >>=-value _ _ _ _ p λ x.
    >>=-value _ _ _ _ q
      λ y. >>=-value _ _ _ _ r λ z. >>=-value _ _ _ _ s λ u. >>=-value _ _ _ _ t λ v. refl

-- To read five things and then check each is to read and check one after another.
pub five-checked :
    {A B C D E A' B' C' D' E' R R' : Type 0} (a : Result A) (b : Result B) (c : Result C)
    (d : Result D) (e : Result E) (fa : A → Result A') (fb : B → Result B') (fc : C → Result C')
    (fd : D → Result D') (fe : E → Result E') (raw : A → B → C → D → E → R) (next : R → Result R')
    (out : A' → B' → C' → D' → E' → R')
    → ((x : A) (y : B) (z : C) (u : D) (v : E)
        → value (next (raw x y z u v)) ≡ value (five (fa x) (fb y) (fc z) (fd u) (fe v) out))
    → value (five a b c d e raw >>= next)
      ≡ value (five (a >>= fa) (b >>= fb) (c >>= fc) (d >>= fd) (e >>= fe) out)
five-checked (ok x) (ok y) (ok z) (ok u) (ok v) fa fb fc fd fe raw next out h = h x y z u v
five-checked (failed e) b c d e' fa fb fc fd fe raw next out h = refl
five-checked (ok x) (failed e) c d e' fa fb fc fd fe raw next out h =
    sym (>>=-stops (fa x) _ λ x'. refl)
five-checked (ok x) (ok y) (failed e) d e' fa fb fc fd fe raw next out h =
    sym (>>=-stops (fa x) _ λ x'. >>=-stops (fb y) _ λ y'. refl)
five-checked (ok x) (ok y) (ok z) (failed e) e' fa fb fc fd fe raw next out h =
    sym (>>=-stops (fa x) _ λ x'. >>=-stops (fb y) _ λ y'. >>=-stops (fc z) _ λ z'. refl)
five-checked (ok x) (ok y) (ok z) (ok u) (failed e) fa fb fc fd fe raw next out h = sym (
    >>=-stops (fa x) _
      λ x'. >>=-stops (fb y) _ λ y'. >>=-stops (fc z) _ λ z'. >>=-stops (fd u) _ λ u'. refl)

-- The operation that an error names does not matter to the value.
pub required_text-value :
    (f : Facade) (op op' field raw : String)
    → value (required_text f op field raw) ≡ value (required_text f op' field raw)
unfolding required_text
required_text-value f op op' field raw = elim (Bool-cases (is_blank (trim_space raw))) [
  | inl b ↦ rw (b, required_text) refl
  | inr b ↦ rw (b, required_text) refl
]

pub swap-value :
    {A B R : Type 0} (x : Result A) (y : Result B) (g : A → B → Result R)
    → value (x >>= λ a. y >>= λ b. g a b) ≡ value (y >>= λ b. x >>= λ a. g a b)
swap-value (ok a) (ok b) g = refl
swap-value (ok a) (failed e) g = refl
swap-value (failed e) (ok b) g = refl
swap-value (failed e) (failed e') g = refl
