-- ===== src/Signals/Subscriptions/Unsubscribing.antt =====
-- Calling an unsubscribe function keeps the invariant of Soundness.
use spiderw.Signals.Subscriptions.Soundness.{IsSound, Agrees-drop_id, unsubscribe-next}
use spiderw.Base.{ℕ, zero, suc, ◌≤◌, some}
use spiderw.Base.{List, [], ◌∷◌, ◌≡◌, if◌then◌else◌, Bool-cases, inl, inr}
use spiderw.Base.{All}
use spiderw.Signals.Registry.{Registry, Subscription, unsubscribe}
use spiderw.Signals.Subscriptions.Live.{Live, drop_id}
use spiderw.Signals.Subscriptions.Ids.{
  HasUniqueIds, AreBelow, drop_id-HasUniqueIds, drop_id-AreBelow,
}
use spiderw.Signals.Subscriptions.Steps.{Agrees, unsubscribe-Represents}
use spiderw.Signals.Subscriptions.Runs.{Session, get_elem?, set, after_unsubscribe}

All-get_elem? {ℓ κ} :
    {A : Type ℓ} (P : A → Type κ) (xs : List A) (k : ℕ) (x : A)
    → All P xs
    → get_elem? xs k ≡ some x
    → P x
All-get_elem? P [] k x h q = cc
All-get_elem? P (y ∷ xs) zero x h q = let e : y ≡ x = cc in rw e at h.0
All-get_elem? P (y ∷ xs) (suc k) x h q = All-get_elem? P xs k x h.1 q

All-set {ℓ κ} :
    {A : Type ℓ} (P : A → Type κ) (xs : List A) (k : ℕ) (x : A)
    → All P xs
    → P x
    → All P (set xs k x)
All-set P [] k x h p = tt
All-set P (y ∷ xs) zero x h p = (p, h.1)
All-set P (y ∷ xs) (suc k) x h p = (h.0, All-set P xs k x h.1 p)

-- The live list after a call of an unsubscribe function.
abbrev live_after : Session → Subscription → List Live
live_after s t = if t.done then s.live else drop_id t.id s.live

after-Agrees :
    (s : Session) (t : Subscription) (ts : List Subscription)
    → HasUniqueIds s.live
    → All (Agrees s.live) ts
    → All (Agrees (live_after s t)) ts
after-Agrees s t ts u h = elim (Bool-cases t.done) [
  | inl d ↦ rw d h
  | inr d ↦ rw d (Agrees-drop_id t.id s.live ts u h)
]

after-HasUniqueIds :
    (s : Session) (t : Subscription) → HasUniqueIds s.live → HasUniqueIds (live_after s t)
after-HasUniqueIds s t u = elim (Bool-cases t.done) [
  | inl d ↦ rw d u
  | inr d ↦ rw d (drop_id-HasUniqueIds t.id s.live u)
]

after-AreBelow :
    (s : Session) (t : Subscription) (n : ℕ) → AreBelow n s.live → AreBelow n (live_after s t)
after-AreBelow s t n b = elim (Bool-cases t.done) [
  | inl d ↦ rw d b
  | inr d ↦ rw d (drop_id-AreBelow t.id n s.live b)
]

unsubscribe-Agrees :
    (live : List Live) (r : Registry) (t : Subscription)
    → Agrees live t
    → Agrees live (unsubscribe r t).1
unfolding unsubscribe
unsubscribe-Agrees live r t h = elim (Bool-cases t.done) [ inl d ↦ rw d h | inr d ↦ rw d h ]

unsubscribe-id : (r : Registry) (t : Subscription) → (unsubscribe r t).1.id ≡ t.id
unfolding unsubscribe
unsubscribe-id r t = elim (Bool-cases t.done) [ inl d ↦ rw d | inr d ↦ rw d ]

-- A call of an unsubscribe function that was handed out.
pub unsubscribed-IsSound :
    (s : Session) (k : ℕ) (t : Subscription)
    → IsSound s
    → get_elem? s.handed_out k ≡ some t
    → IsSound (after_unsubscribe s k (some t))
unsubscribed-IsSound s k t h q = record {
  represents = unsubscribe-Represents s.registry s.live t h.represents t-Agrees;
  agrees =
      All-set (Agrees (live_after s t)) s.handed_out k _
        (after-Agrees s t s.handed_out h.unique h.agrees)
        (unsubscribe-Agrees (live_after s t) s.registry t
          (after-Agrees s t (t ∷ []) h.unique (t-Agrees, tt)).0);
  unique = after-HasUniqueIds s t h.unique;
  ids_below = rw unsubscribe-next (after-AreBelow s t _ h.ids_below);
  handed_below = rw unsubscribe-next (
      All-set (λ (u : Subscription). u.id ≤ s.registry.next_handler_id) s.handed_out k _
        h.handed_below
        (rw unsubscribe-id (
          All-get_elem? (λ (u : Subscription). u.id ≤ s.registry.next_handler_id) s.handed_out k t
            h.handed_below q)));
}
  where
    t-Agrees : Agrees s.live t
    t-Agrees = All-get_elem? (Agrees s.live) s.handed_out k t h.agrees q
