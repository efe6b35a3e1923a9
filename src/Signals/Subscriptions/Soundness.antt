-- ===== src/Signals/Subscriptions/Soundness.antt =====
-- The invariant between two calls, and that every call keeps it.
use spiderw.Base.{ℕ, ◌+◌, ◌%◌, ◌^◌, ◌≤◌, ◌<◌}
use spiderw.Base.{List, [], ◌∷◌, ◌++◌, ◌≡◌, refl, arith, Bool-cases, inl, inr}
use spiderw.Base.{All}
use spiderw.Base.Text.{Text}
use spiderw.Signals.Registry.{
  Callback, Registry, Table, exact, wildcard, Buckets, Subscription, empty, unsubscribe,
  store_handler, with_table, bucket_of, bucket_get,
}
use spiderw.Signals.Subscriptions.Live.{Live, drop_id, standing}
use spiderw.Signals.Subscriptions.Ids.{HasUniqueIds, AreBelow, find_id-append, find_id-drop_id}
use spiderw.Signals.Subscriptions.Steps.{Represents, Agrees}
use spiderw.Signals.Subscriptions.Runs.{Session, start}

abbrev pub AreHandedBelow : ℕ → List Subscription → Type 0
AreHandedBelow n = All (λ (t : Subscription). t.id ≤ n)

-- What holds between two calls: the maps represent the live list, every unsubscribe function that
-- was handed out names the place of its entry, and ids are unique and at most the last one.
pub record IsSound (s : Session) : Type 0 where
  pub represents : Represents s.registry s.live
  pub agrees : All (Agrees s.live) s.handed_out
  pub unique : HasUniqueIds s.live
  pub ids_below : AreBelow s.registry.next_handler_id s.live
  pub handed_below : AreHandedBelow s.registry.next_handler_id s.handed_out

empty-Represents : Represents empty []
unfolding bucket_get standing
empty-Represents (exact, k) = refl
empty-Represents (wildcard, k) = refl

pub start-IsSound : IsSound start
start-IsSound = record {
  represents = empty-Represents;
  agrees = tt;
  unique = tt;
  ids_below = tt;
  handed_below = tt;
}

pub AreBelow-mono : (n m : ℕ) (live : List Live) → n ≤ m → AreBelow n live → AreBelow m live
AreBelow-mono n m [] le h = tt
AreBelow-mono n m (s ∷ live) le h = (omega arith, AreBelow-mono n m live le h.1)

pub AreHandedBelow-mono :
    (n m : ℕ) (ts : List Subscription) → n ≤ m → AreHandedBelow n ts → AreHandedBelow m ts
AreHandedBelow-mono n m [] le h = tt
AreHandedBelow-mono n m (t ∷ ts) le h = (omega arith, AreHandedBelow-mono n m ts le h.1)

-- An entry with a new id changes nothing for the older unsubscribe functions.
pub Agrees-append :
    (n : ℕ) (live : List Live) (s : Live) (ts : List Subscription)
    → n < s.handler.id
    → AreHandedBelow n ts
    → All (Agrees live) ts
    → All (Agrees (live ++ s ∷ [])) ts
Agrees-append n live s [] lt b h = tt
Agrees-append n live s (t ∷ ts) lt b h = (
  λ x q. h.0 x (ground (arith, find_id-append t.id live s, q)),
  Agrees-append n live s ts lt b.1 h.1,
)

pub Agrees-drop_id :
    (j : ℕ) (live : List Live) (ts : List Subscription)
    → HasUniqueIds live
    → All (Agrees live) ts
    → All (Agrees (drop_id j live)) ts
Agrees-drop_id j live [] u h = tt
Agrees-drop_id j live (t ∷ ts) u h = (
  λ x q. h.0 x (ground (arith, find_id-drop_id t.id j live u, q)),
  Agrees-drop_id j live ts u h.1,
)

with_table-next :
    (t : Table) (m : Buckets) (r : Registry)
    → (with_table t m r).next_handler_id ≡ r.next_handler_id
with_table-next exact m r = refl
with_table-next wildcard m r = refl

pub unsubscribe-next :
    (r : Registry) (t : Subscription) → (unsubscribe r t).0.next_handler_id ≡ r.next_handler_id
unfolding unsubscribe
unsubscribe-next r t = elim (Bool-cases t.done) [
  | inl d ↦ rw d
  | inr d ↦ rw d (with_table-next t.bucket _ r)
]

pub store_handler-next :
    (r : Registry) (iface member : Text) (fn : Callback)
    → (store_handler r iface member fn).0.next_handler_id ≡ (r.next_handler_id + 1) % 2 ^ 64
unfolding store_handler
store_handler-next r iface member fn = with_table-next (bucket_of iface member).0 _ _
