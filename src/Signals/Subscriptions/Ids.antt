-- ===== src/Signals/Subscriptions/Ids.antt =====
-- Ids in the live list: fresh ones, unique ones, and what dropping one leaves.
use spiderw.Base.{ℕ, ◌≤◌, ◌<◌, none, some, List, [], ◌∷◌, ◌++◌}
use spiderw.Base.{◌≡◌, refl, arith, if◌then◌else◌, ◌==◌, All, Bool-cases, inl, inr}
use spiderw.Signals.Subscriptions.Live.{Live, drop_id, find_id}

-- No id stands twice in the live list.
abbrev pub HasUniqueIds : List Live → Type 0
HasUniqueIds [] = Unit {0}
HasUniqueIds (s ∷ live) = (find_id s.handler.id live ≡ none) × HasUniqueIds live

abbrev pub AreBelow : ℕ → List Live → Type 0
AreBelow n = All (λ (e : Live). e.handler.id ≤ n)

pub find_id-fresh : (n i : ℕ) (live : List Live) → AreBelow n live → n < i → find_id i live ≡ none
unfolding find_id
find_id-fresh n i [] h lt = refl
find_id-fresh n i (s ∷ live) h lt = ground (arith, find_id-fresh n i live h.1 lt)

pub find_id-append :
    (i : ℕ) (live : List Live) (s : Live)
    → find_id i (live ++ s ∷ []) ≡ elim (find_id i live) [
      | none ↦ if s.handler.id == i then some s else none
      | some t ↦ some t
    ]
unfolding find_id
find_id-append i [] s = refl
find_id-append i (t ∷ live) s = ground (arith, find_id-append i live s)

pub append-HasUniqueIds :
    (n : ℕ) (live : List Live) (s : Live)
    → AreBelow n live
    → n < s.handler.id
    → HasUniqueIds live
    → HasUniqueIds (live ++ s ∷ [])
unfolding find_id
append-HasUniqueIds n [] s b lt u = (refl, tt)
append-HasUniqueIds n (t ∷ live) s b lt u =
    (ground (arith, find_id-append t.handler.id live s), append-HasUniqueIds n live s b.1 lt u.1)

pub find_id-drop_id :
    (i j : ℕ) (live : List Live)
    → HasUniqueIds live
    → find_id i (drop_id j live) ≡ (if i == j then none else find_id i live)
unfolding find_id drop_id
find_id-drop_id i j [] u = ground arith
find_id-drop_id i j (t ∷ live) u = elim (Bool-cases (t.handler.id == j)) [
  | inl e ↦ rw e (ground (arith, e, u.0))
  | inr e ↦ rw e (ground (arith, e, find_id-drop_id i j live u.1))
]

pub drop_id-HasUniqueIds :
    (j : ℕ) (live : List Live) → HasUniqueIds live → HasUniqueIds (drop_id j live)
unfolding drop_id
drop_id-HasUniqueIds j [] u = tt
drop_id-HasUniqueIds j (t ∷ live) u = elim (Bool-cases (t.handler.id == j)) [
  | inl e ↦ rw e u.1
  | inr e ↦ rw e (
    ground (arith, find_id-drop_id t.handler.id j live u.1, u.0),
    drop_id-HasUniqueIds j live u.1,
  )
]

pub drop_id-AreBelow : (j n : ℕ) (live : List Live) → AreBelow n live → AreBelow n (drop_id j live)
unfolding drop_id
drop_id-AreBelow j n [] b = tt
drop_id-AreBelow j n (t ∷ live) b = elim (Bool-cases (t.handler.id == j)) [
  | inl e ↦ rw e b.1
  | inr e ↦ rw e (b.0, drop_id-AreBelow j n live b.1)
]

-- Dropping an entry that was only just added.
pub drop_id-append :
    (live : List Live) (s : Live)
    → find_id s.handler.id live ≡ none
    → drop_id s.handler.id (live ++ s ∷ []) ≡ live
unfolding drop_id find_id
drop_id-append [] s h = ground arith
drop_id-append (t ∷ live) s h = ground (arith, drop_id-append live s)
