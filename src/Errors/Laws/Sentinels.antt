-- ===== src/Errors/Laws/Sentinels.antt =====
-- Equality of sentinels, and the table of the outcomes that iwd names.
use mathlib.Core.Bool.{decide}
use spiderw.Base.{true, false, some, String, List, [], ◌∷◌, ◌≡◌, ◌≢◌, ◌↔◌}
use spiderw.Base.{refl, arith, str_eq_iff, All, Bool-cases, inl, inr}
use spiderw.Errors.Tree.{Sentinel, Sentinel-discrete, same, IwdOutcome}
use spiderw.Errors.Tree.{no_agent}
use spiderw.Errors.Bus.{iwd_error_name, iwd_error_sentinels, table_lookup}

pub same_iff : (a b : Sentinel) → (same a b ≡ true) ↔ (a ≡ b)
unfolding same decide
same_iff a b = elim (Sentinel-discrete a b) as (λ d. (decide d ≡ true) ↔ (a ≡ b)) [
  | yes e ↦ (λ _. e, λ _. refl)
  | no n ↦ (λ h. absurd (cc h), λ e. absurd (n e))
]

pub same_refl : (a : Sentinel) → same a a ≡ true
same_refl a = (same_iff a a).1 refl

pub same-eq-false : (a b : Sentinel) → a ≢ b → same a b ≡ false
same-eq-false a b n = elim (Bool-cases (same a b)) [
  | inl e ↦ absurd (n ((same_iff a b).0 e))
  | inr e ↦ e
]

pub table_lookup-iwd_error_name :
    (o : IwdOutcome) → table_lookup (iwd_error_name o) iwd_error_sentinels ≡ some o
unfolding table_lookup iwd_error_sentinels iwd_error_name
table_lookup-iwd_error_name no_agent = refl
table_lookup-iwd_error_name _ = refl

-- Each row of a table is the name of its outcome.
abbrev IsNamed : String × IwdOutcome → Type 0
IsNamed (n, o) = n ≡ iwd_error_name o

table_lookup-IsNamed :
    (n : String) (rows : List (String × IwdOutcome)) (o : IwdOutcome)
    → All IsNamed rows
    → table_lookup n rows ≡ some o
    → n ≡ iwd_error_name o
unfolding table_lookup
table_lookup-IsNamed n [] o h e = cc
table_lookup-IsNamed n ((k, p) ∷ rows) o h e =
    ground (arith, str_eq_iff k n, table_lookup-IsNamed n rows o h.1)

iwd_error_sentinels-IsNamed : All IsNamed iwd_error_sentinels
unfolding iwd_error_sentinels iwd_error_name
iwd_error_sentinels-IsNamed = assumption refl

-- The table finds an outcome exactly under its name.
pub table_lookup_iff :
    (n : String) (o : IwdOutcome)
    → (table_lookup n iwd_error_sentinels ≡ some o) ↔ (n ≡ iwd_error_name o)
table_lookup_iff n o = (
  table_lookup-IsNamed n iwd_error_sentinels o iwd_error_sentinels-IsNamed,
  λ e. rw e (table_lookup-iwd_error_name o),
)
