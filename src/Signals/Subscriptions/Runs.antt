-- ===== src/Signals/Subscriptions/Runs.antt =====
-- Any sequence of calls of RegisterSignalHandlerWithUnsubscribe and of unsubscribe functions.
use spiderw.Base.{ℕ, zero, suc, Option, none, some}
use spiderw.Base.{List, [], ◌∷◌, ◌++◌, if◌then◌else◌}
use spiderw.Base.Text.{Text}
use spiderw.Errors.{Error}
use spiderw.Signals.Registry.{
  Callback, Registry, Subscription, Registered, registered, failed, empty, register, unsubscribe,
}
use spiderw.Signals.Subscriptions.Live.{Live, drop_id}
use spiderw.Signals.Subscriptions.Steps.{entry}

-- A call by a user of the object: registering, with the bus's reply to `AddMatch` where there is a
-- connection, or calling the unsubscribe function at a position among those returned so far.
pub data Call : Type 0 where
  register_call : Option (Text → Error) → Text → Text → Option Callback → Call
  unsubscribe_call : ℕ → Call

-- The object, the unsubscribe functions handed out, and the live subscriptions.
pub record Session : Type 0 where
  pub registry : Registry
  pub handed_out : List Subscription
  pub live : List Live

abbrev pub start : Session
start = record { registry = empty; handed_out = []; live = [] }

abbrev pub get_elem? {ℓ} : {A : Type ℓ} → List A → ℕ → Option A
get_elem? [] i = none
get_elem? (x ∷ xs) zero = some x
get_elem? (x ∷ xs) (suc i) = get_elem? xs i

abbrev pub set {ℓ} : {A : Type ℓ} → List A → ℕ → A → List A
set [] i v = []
set (x ∷ xs) zero v = v ∷ xs
set (x ∷ xs) (suc i) v = x ∷ set xs i v

abbrev pub after_register : Session → Text → Text → Callback → Registry × Registered → Session
after_register s iface member fn (r, failed e) = record s { registry = r }
after_register s iface member fn (r, registered t) = record {
  registry = r;
  handed_out = s.handed_out ++ t ∷ [];
  live = s.live ++ entry iface member fn t.id ∷ [];
}

abbrev pub after_unsubscribe : Session → ℕ → Option Subscription → Session
after_unsubscribe s k none = s
after_unsubscribe s k (some t) =
    let (r, t') = unsubscribe s.registry t in
    record {
      registry = r;
      handed_out = set s.handed_out k t';
      live = if t.done then s.live else drop_id t.id s.live;
    }

unfoldable pub step : Text → Session → Call → Session
unfolding register unsubscribe
step path s (register_call bus iface member none) = record s {
  registry = (register s.registry path bus iface member none).0;
}
step path s (register_call bus iface member (some fn)) =
    after_register s iface member fn (register s.registry path bus iface member (some fn))
step path s (unsubscribe_call k) = after_unsubscribe s k (get_elem? s.handed_out k)

unfoldable pub run : Text → Session → List Call → Session
unfolding step
run path s [] = s
run path s (c ∷ calls) = run path (step path s c) calls
