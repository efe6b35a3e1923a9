-- ===== src/Signals/Tests.antt =====
-- The theorems on signals at concrete runs.
use spiderw.Base.{◌≤◌, ◌≡◌, refl, arith, true, false, ◌==◌, none, some, List, [], ◌∷◌, All}
use spiderw.Base.Text.{Text, text_eq, split_dots, join_dots, codes, IsDotless}
use spiderw.Signals.Registry.{Callback, Handler, full_name, star, resolve_handlers}
use spiderw.Signals.Subscriptions.Runs.{Call, register_call, unsubscribe_call, start, run}
use spiderw.Signals.Subscriptions.Soundness.{IsSound, start-IsSound}
use spiderw.Signals.Subscriptions.Calls.{run-IsSound}
use spiderw.Signals.Subscriptions.Live.{covering}
use spiderw.Signals.Subscriptions.Delivery.{tally}
use spiderw.Signals.Subscriptions.Delivered.{IsPlain, resolve_handlers-covering}
use spiderw.Signals.Lifecycle.{Life, fresh, Step, Steps, here, then, dispatch, close}
use spiderw.Signals.Lifecycle.{
  start_dispatcher, resolve, lock, see_open, add, unlock, spawn, cancel, remove_signal,
  dispatcher_timeout, closer_lock, set_closing, closed, closing_set, checked, added, spawning,
  Holder,
}
use spiderw.Signals.Lifecycle.Safety.{reached_wait, pending}
use spiderw.Signals.Lifecycle.Close.{
  wg_grows_before_wait, closing_bounds_handlers, spawn_after_closing,
}
use spiderw.Signals.Lifecycle.Progress.{Progresses}
use spiderw.Signals.Lifecycle.Ends.{close_can_end}

abbrev properties : Text
properties = codes "org.freedesktop.DBus.Properties"

abbrev changed : Text
changed = codes "Chg"

abbrev path : Text
path = codes "/net/connman/iwd/0"

-- Two patterns that cover the signal and one that does not, one of the two unsubscribed again.
abbrev calls : List Call
calls =
    register_call none properties changed (some 1)
    ∷ register_call none star changed (some 2)
    ∷ register_call none properties (codes "Oth") (some 3)
    ∷ unsubscribe_call 0
    ∷ []

changed-IsDotless : IsDotless changed
changed-IsDotless = (ground arith, (ground arith, (ground arith, tt)))

calls-IsPlain : All IsPlain calls
calls-IsPlain = (
  changed-IsDotless,
  (changed-IsDotless, ((ground arith, (ground arith, (ground arith, tt))), (tt, tt))),
)

resolve_handlers-covering_example :
    tally
      (λ (c : Callback). c == 2)
      (resolve_handlers (run path start calls).registry (full_name properties changed))
    ≡ tally (λ (h : Handler). h.fn == 2) (covering properties changed (run path start calls).live)
resolve_handlers-covering_example =
    resolve_handlers-covering path calls properties changed (λ (c : Callback). c == 2) (omega arith)
      calls-IsPlain changed-IsDotless (ground arith)

-- Only the callback that is still subscribed is called.
called : resolve_handlers (run path start calls).registry (full_name properties changed) ≡ 2 ∷ []
unfolding run resolve_handlers text_eq split_dots join_dots
called = refl

run-IsSound_example : IsSound (run path start calls)
run-IsSound_example = run-IsSound path start calls (omega arith) start-IsSound

-- A run in which a signal with two handlers has arrived.
abbrev arrived : Life
arrived = record fresh { dispatcher_at = checked 2; holder = Holder.dispatcher; dispatch_wg = 1 }

abbrev counted : Life
counted = record arrived { dispatcher_at = added 2; wg = 2 }

arriving : Steps fresh arrived
arriving =
    then
      (then (then (then here (dispatch (start_dispatcher refl))) (dispatch (resolve 2 refl)))
        (dispatch (lock 2 refl refl)))
      (dispatch (see_open 2 refl refl))

counting : Step arrived counted
counting = dispatch (add 2 refl)

wg_grows_before_wait_example : (arrived.closing ≡ false) × (reached_wait arrived.closer_at ≡ false)
wg_grows_before_wait_example =
    wg_grows_before_wait {s = arrived} {t = counted} arriving counting (omega arith)

-- The end of `Close` while the two handlers are counted and not started.
abbrev closing_state : Life
closing_state = record fresh {
  context_done = true;
  closing = true;
  holder = Holder.closer;
  dispatcher_at = spawning 2;
  closer_at = closing_set;
  dispatch_wg = 1;
  wg = 2;
}

abbrev started : Life
started = record closing_state { dispatcher_at = spawning 1; running = 1 }

reaching : Steps fresh closing_state
reaching =
    then
      (then
        (then
          (then
            (then (then (then arriving counting) (dispatch (unlock 2 refl))) (close (cancel refl)))
            (close (remove_signal refl)))
          (close (dispatcher_timeout refl)))
        (close (closer_lock refl refl)))
      (close (set_closing refl))

closing_bounds_handlers_example : (started.closing ≡ true) × (started.running ≤ closing_state.wg)
closing_bounds_handlers_example =
    closing_bounds_handlers {s = closing_state} {t = started} reaching refl
      (then here (dispatch (spawn 1 refl)))

spawn_after_closing_example :
    (s : Life) × (t : Life) × Steps fresh s
    × (s.closing ≡ true)
    × (s.running ≡ 0)
    × Step s t
    × (t.running ≡ 1)
    × (pending t.dispatcher_at ≡ 3)
spawn_after_closing_example = spawn_after_closing 3

close_can_end_example :
    ((t : Life) × Steps closing_state t
      × (t.closer_at ≡ closed)
      × (t.holder ≡ Holder.nobody)
      × (t.running ≡ closing_state.running))
    × Progresses closing_state
close_can_end_example = close_can_end {s = closing_state} reaching
