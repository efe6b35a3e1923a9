-- ===== src/Signals/Subscriptions/Delivered.antt =====
-- What a signal reaches after any sequence of registering and unsubscribing, from the calls of
-- RegisterSignalHandlerWithUnsubscribe to resolveHandlers.
use spiderw.Base.{ℕ, ◌^◌, ◌<◌, Bool, Option, none, some, List, [], ◌∷◌}
use spiderw.Base.{◌≡◌, ◌≢◌, ◌∙◌, arith, Bool-cases, inl, inr, All, All-append, length, ◌==◌}
use spiderw.Base.Text.{Text, IsDotless}
use spiderw.Signals.Registry.{
  Callback, Handler, Registry, Subscription, star, full_name, resolve_handlers, registered, failed,
  Registered,
}
use spiderw.Signals.Subscriptions.Live.{Live, covering, drop_id}
use spiderw.Signals.Subscriptions.Steps.{entry}
use spiderw.Signals.Subscriptions.Runs.{
  Call, Session, start, register_call, unsubscribe_call, step, run, get_elem?, after_register,
  after_unsubscribe,
}
use spiderw.Signals.Subscriptions.Soundness.{start-IsSound, IsSound}
use spiderw.Signals.Subscriptions.Calls.{run-IsSound}
use spiderw.Signals.Subscriptions.Names.{split_signal_name-full_name}
use spiderw.Signals.Subscriptions.Delivery.{
  tally, tally-map, tally_slices-covering, tally-read_standing, handlers_for-read_standing,
}

-- A call that registers for a member name with no dot, as every D-Bus member name is.
abbrev pub IsPlain : Call → Type 0
IsPlain (register_call bus iface member fn) = IsDotless member
IsPlain (unsubscribe_call k) = Unit {0}

abbrev ArePlain : List Live → Type 0
ArePlain = All (λ (s : Live). IsDotless s.member)

drop_id-ArePlain : (id : ℕ) (live : List Live) → ArePlain live → ArePlain (drop_id id live)
unfolding drop_id
drop_id-ArePlain id [] h = tt
drop_id-ArePlain id (s ∷ live) h = elim (Bool-cases (s.handler.id == id)) [
  | inl e ↦ rw e h.1
  | inr e ↦ rw e (h.0, drop_id-ArePlain id live h.1)
]

after_register-ArePlain :
    (s : Session) (iface member : Text) (fn : Callback) (p : Registry × Registered)
    → IsDotless member
    → ArePlain s.live
    → ArePlain (after_register s iface member fn p).live
after_register-ArePlain s iface member fn (r, failed e) plain h = h
after_register-ArePlain s iface member fn (r, registered t) plain h =
    All-append (λ (e : Live). IsDotless e.member) s.live (entry iface member fn t.id ∷ []) h
      (plain, tt)

after_unsubscribe-ArePlain :
    (s : Session) (k : ℕ) (t : Option Subscription)
    → ArePlain s.live
    → ArePlain (after_unsubscribe s k t).live
after_unsubscribe-ArePlain s k none h = h
after_unsubscribe-ArePlain s k (some t) h = elim (Bool-cases t.done) [
  | inl d ↦ rw d h
  | inr d ↦ rw d (drop_id-ArePlain t.id s.live h)
]

step-ArePlain :
    (path : Text) (s : Session) (c : Call)
    → IsPlain c
    → ArePlain s.live
    → ArePlain (step path s c).live
unfolding step
step-ArePlain path s (register_call bus iface member none) plain h = h
step-ArePlain path s (register_call bus iface member (some fn)) plain h =
    after_register-ArePlain s iface member fn _ plain h
step-ArePlain path s (unsubscribe_call k) plain h =
    after_unsubscribe-ArePlain s k (get_elem? s.handed_out k) h

run-ArePlain :
    (path : Text) (s : Session) (calls : List Call)
    → All IsPlain calls
    → ArePlain s.live
    → ArePlain (run path s calls).live
unfolding run
run-ArePlain path s [] plain h = h
run-ArePlain path s (c ∷ calls) plain h =
    run-ArePlain path (step path s c) calls plain.1 (step-ArePlain path s c plain.0 h)

-- After any fewer than 2^64 calls that register and unsubscribe, with or without a connection and
-- whatever the bus replies, a signal with a member name that has no dot and is not "*" reaches,
-- for every test of callbacks, as many callbacks that pass it as there are live subscriptions with
-- a pattern that covers the signal and a callback that passes. Live are those that were registered
-- with success and whose unsubscribe function was not called since. The calls register for member
-- names with no dot.
pub resolve_handlers-covering :
    (path : Text) (calls : List Call) (iface member : Text) (p : Callback → Bool)
    → length calls < 2 ^ 64
    → All IsPlain calls
    → IsDotless member
    → member ≢ star
    → let s = run path start calls in
      tally p (resolve_handlers s.registry (full_name iface member))
      ≡ tally (λ (h : Handler). p h.fn) (covering iface member s.live)
unfolding resolve_handlers
resolve_handlers-covering path calls iface member p few plain dotless no_star =
    rw
      (
        split_signal_name-full_name iface member dotless,
        handlers_for-read_standing iface member dotless no_star _ _ sound.represents,
        tally-map,
      )
      (tally-read_standing iface member dotless no_star _ _
        ∙ tally_slices-covering iface member dotless no_star _ _
            (run-ArePlain path start calls plain tt))
  where
    sound : IsSound (run path start calls)
    sound = run-IsSound path start calls (omega arith) start-IsSound
