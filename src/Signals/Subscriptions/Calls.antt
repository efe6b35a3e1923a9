-- ===== src/Signals/Subscriptions/Calls.antt =====
-- Every call keeps the invariant of Soundness.
use spiderw.Signals.Subscriptions.Soundness.{IsSound, unsubscribe-next, store_handler-next}
use spiderw.Base.{◌+◌, ◌^◌, ◌≤◌, ◌<◌, Option, none, some}
use spiderw.Base.{List, [], ◌∷◌, ◌≡◌, refl, arith, Option-cases, inl, inr}
use spiderw.Base.{length}
use spiderw.Base.Text.{Text}
use spiderw.Errors.{Error}
use spiderw.Signals.Registry.{
  Callback, Registry, Registered, registered, failed, register, store_handler,
}
use spiderw.Signals.Subscriptions.Runs.{
  Call, Session, register_call, unsubscribe_call, step, run, get_elem?, after_register,
}
use spiderw.Signals.Registry.{add_match_reply}
use spiderw.Signals.Subscriptions.Storing.{HasRoom, stored-IsSound, refused-IsSound}
use spiderw.Signals.Subscriptions.Unsubscribing.{unsubscribed-IsSound}

reply-IsSound :
    (s : Session) (iface member : Text) (fn : Callback) (reply : Error)
    → HasRoom s.registry
    → IsSound s
    → let (r, t) = store_handler s.registry iface member fn in
      IsSound (after_register s iface member fn (add_match_reply r t reply))
reply-IsSound s iface member fn none room h = stored-IsSound s iface member fn room h
reply-IsSound s iface member fn (some e) room h = refused-IsSound s iface member fn room h

register-IsSound :
    (path : Text) (bus : Option (Text → Error)) (s : Session) (iface member : Text) (fn : Callback)
    → HasRoom s.registry
    → IsSound s
    → IsSound
        (after_register s iface member fn (register s.registry path bus iface member (some fn)))
unfolding register
register-IsSound path bus s iface [] fn room h = h
register-IsSound path none s iface (c ∷ cs) fn room h = stored-IsSound s iface (c ∷ cs) fn room h
register-IsSound path (some add_match) s iface (c ∷ cs) fn room h =
    reply-IsSound s iface (c ∷ cs) fn _ room h

-- Every call keeps the invariant while the counter has room.
pub step-IsSound :
    (path : Text) (s : Session) (c : Call)
    → HasRoom s.registry
    → IsSound s
    → IsSound (step path s c)
unfolding step
step-IsSound path s (register_call bus iface member none) room h = h
step-IsSound path s (register_call bus iface member (some fn)) room h =
    register-IsSound path bus s iface member fn room h
step-IsSound path s (unsubscribe_call k) room h = elim (Option-cases (get_elem? s.handed_out k)) [
  | inl q ↦ rw q h
  | inr (t, q) ↦ rw q (unsubscribed-IsSound s k t h q)
]

reply-next :
    (r : Registry) (iface member : Text) (fn : Callback) (reply : Error)
    → r.next_handler_id + 1 < 2 ^ 64
    → let (r', t) = store_handler r iface member fn in
      (add_match_reply r' t reply).0.next_handler_id ≡ r.next_handler_id + 1
reply-next r iface member fn none room = omega (arith, store_handler-next r iface member fn)
reply-next r iface member fn (some e) room = omega (
  arith,
  store_handler-next r iface member fn,
  unsubscribe-next (store_handler r iface member fn).0 (store_handler r iface member fn).1,
)

after_register-registry :
    (s : Session) (iface member : Text) (fn : Callback) (p : Registry × Registered)
    → (after_register s iface member fn p).registry ≡ p.0
after_register-registry s iface member fn (r, registered t) = refl
after_register-registry s iface member fn (r, failed e) = refl

-- A call takes at most one id.
step-next :
    (path : Text) (s : Session) (c : Call)
    → HasRoom s.registry
    → (step path s c).registry.next_handler_id ≤ s.registry.next_handler_id + 1
unfolding step register
step-next path s (register_call bus iface member none) room = omega arith
step-next path s (register_call bus iface [] (some fn)) room = omega arith
step-next path s (register_call none iface (c ∷ cs) (some fn)) room =
    omega (arith, store_handler-next s.registry iface (c ∷ cs) fn)
step-next path s (register_call (some add_match) iface (c ∷ cs) (some fn)) room =
    rw after_register-registry (omega (arith, reply-next s.registry iface (c ∷ cs) fn _ room))
step-next path s (unsubscribe_call k) room = elim (Option-cases (get_elem? s.handed_out k)) [
  | inl q ↦ rw q (omega arith)
  | inr (t, q) ↦ rw q (omega (arith, unsubscribe-next s.registry t))
]

-- Any sequence of calls of registering and of unsubscribe functions keeps the invariant between the
-- maps of handlers and the list of live subscriptions, if the last id and the number of the calls
-- together are less than 2^64.
pub run-IsSound :
    (path : Text) (s : Session) (calls : List Call)
    → s.registry.next_handler_id + length calls < 2 ^ 64
    → IsSound s
    → IsSound (run path s calls)
unfolding run
run-IsSound path s [] room h = h
run-IsSound path s (c ∷ calls) room h =
    run-IsSound path (step path s c) calls (omega (arith, step-next path s c (omega arith)))
      (step-IsSound path s c (omega arith) h)
