-- ===== src/Signals/Subscriptions/Storing.antt =====
-- Storing a handler keeps the invariant of Soundness.
use spiderw.Signals.Subscriptions.Soundness.{
  IsSound, AreBelow-mono, AreHandedBelow-mono, Agrees-append, unsubscribe-next, store_handler-next,
}
use spiderw.Base.{◌+◌, ◌^◌, ◌≤◌, ◌<◌, false, none}
use spiderw.Base.{[], ◌∷◌, ◌++◌, ◌≡◌, ◌∙◌, refl, ap, arith}
use spiderw.Base.{All-append}
use spiderw.Base.Text.{Text}
use spiderw.Signals.Registry.{
  Callback, Registry, Subscription, registered, unsubscribe, store_handler,
}
use spiderw.Signals.Subscriptions.Live.{Live, place, find_id}
use spiderw.Signals.Subscriptions.Ids.{
  find_id-fresh, find_id-append, append-HasUniqueIds, drop_id-append,
}
use spiderw.Signals.Subscriptions.Steps.{
  Agrees, entry, store_handler-Represents, unsubscribe-Represents,
}
use spiderw.Signals.Subscriptions.Runs.{Session, after_register}

-- Room for one more id before the counter wraps.
abbrev pub HasRoom : Registry → Type 0
HasRoom r = r.next_handler_id + 1 < 2 ^ 64

module _ (s : Session) (iface member : Text) (fn : Callback) (room : HasRoom s.registry)
    (h : IsSound s) where
  abbrev new_registry : Registry
  new_registry = (store_handler s.registry iface member fn).0

  abbrev new_subscription : Subscription
  new_subscription = (store_handler s.registry iface member fn).1

  abbrev new_entry : Live
  new_entry = entry iface member fn new_subscription.id

  new_id : new_subscription.id ≡ s.registry.next_handler_id + 1
  unfolding store_handler
  new_id = omega arith

  fresh : find_id new_subscription.id s.live ≡ none
  fresh = find_id-fresh s.registry.next_handler_id _ s.live h.ids_below (omega (arith, new_id))

  next_eq : new_registry.next_handler_id ≡ s.registry.next_handler_id + 1
  next_eq = rw (store_handler-next s.registry iface member fn) (omega arith)

  new-place : place new_entry ≡ (new_subscription.bucket, new_subscription.handler_key)
  unfolding store_handler
  new-place = refl

  not_done : new_subscription.done ≡ false
  unfolding store_handler
  not_done = refl

  new-Agrees : Agrees (s.live ++ new_entry ∷ []) new_subscription
  new-Agrees x q = ap place same ∙ new-place
    where
      same : x ≡ new_entry
      same = ground (arith, q, fresh, find_id-append new_subscription.id s.live new_entry)

  -- Storing a handler and handing out its unsubscribe function.
  pub stored-IsSound :
      IsSound (after_register s iface member fn (new_registry, registered new_subscription))
  stored-IsSound = record {
    represents = store_handler-Represents s.registry s.live iface member fn h.represents;
    agrees =
        All-append (Agrees (s.live ++ new_entry ∷ [])) s.handed_out (new_subscription ∷ [])
          (Agrees-append s.registry.next_handler_id s.live new_entry s.handed_out
            (omega (arith, new_id)) h.handed_below h.agrees)
          (new-Agrees, tt);
    unique =
        append-HasUniqueIds s.registry.next_handler_id s.live new_entry h.ids_below
          (omega (arith, new_id)) h.unique;
    ids_below =
        All-append (λ (e : Live). e.handler.id ≤ new_registry.next_handler_id) s.live
          (new_entry ∷ []) (AreBelow-mono _ _ s.live (omega (arith, next_eq)) h.ids_below)
          (omega (arith, new_id, next_eq), tt);
    handed_below =
        All-append (λ (t : Subscription). t.id ≤ new_registry.next_handler_id) s.handed_out
          (new_subscription ∷ [])
          (AreHandedBelow-mono _ _ s.handed_out (omega (arith, next_eq)) h.handed_below)
          (omega (arith, new_id, next_eq), tt);
  }

  -- Storing a handler and taking it out again, where the bus refuses the match rule.
  pub refused-IsSound :
      IsSound (record s { registry = (unsubscribe new_registry new_subscription).0 })
  refused-IsSound = record {
    represents = λ b.
        unsubscribe-Represents new_registry (s.live ++ new_entry ∷ []) new_subscription
          (store_handler-Represents s.registry s.live iface member fn h.represents) new-Agrees b
        ∙ rw (not_done, drop_id-append s.live new_entry fresh);
    agrees = h.agrees;
    unique = h.unique;
    ids_below =
        AreBelow-mono _ _ s.live
          (omega (arith, next_eq, unsubscribe-next new_registry new_subscription)) h.ids_below;
    handed_below =
        AreHandedBelow-mono _ _ s.handed_out
          (omega (arith, next_eq, unsubscribe-next new_registry new_subscription)) h.handed_below;
  }
