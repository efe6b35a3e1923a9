-- ===== src/Signals/Lifecycle/Close.antt =====
-- `Close` against the dispatcher: what it rules out, what it leaves open, and that it ends.
use spiderw.Base.{ℕ, suc, ◌+◌, ◌≤◌, ◌<◌, true, false, ◌≡◌, ◌⊎◌, refl, arith, inl, inr}
use spiderw.Signals.Lifecycle.{
  Holder, spawning, closing_set, Life, fresh, DispatcherStep, CloserStep, Step, dispatch, close,
  handler_done, Steps, here, then,
}
use spiderw.Signals.Lifecycle.{
  start_dispatcher, see_context_done, see_channel_closed, skip_nameless, resolve, lock, see_closing,
  see_open, add, unlock, spawn, next_signal, cancel, remove_signal, await_dispatcher,
  dispatcher_timeout, closer_lock, set_closing, await_handlers, handlers_timeout, closer_unlock,
  settle,
}
use spiderw.Signals.Lifecycle.Safety.{Inv, fresh-Inv, Steps-Inv, pending, reached_wait}

-- Where the dispatcher adds to `wg` it has the lock, and `closing` was false and has stayed so.
dispatcher_grows : {s t : Life} → Inv s → DispatcherStep s t → (s.closing ≡ false) ⊎ (t.wg ≡ s.wg)
dispatcher_grows h (start_dispatcher e) = inr refl
dispatcher_grows h (see_context_done e c) = inr refl
dispatcher_grows h (see_channel_closed e) = inr refl
dispatcher_grows h (skip_nameless e) = inr refl
dispatcher_grows h (resolve n e) = inr refl
dispatcher_grows h (lock n e f) = inr refl
dispatcher_grows h (see_closing n e c) = inr refl
dispatcher_grows h (see_open n e c) = inr refl
dispatcher_grows h (add n e) = inl (h.open_until_unlock (rw (e) refl))
dispatcher_grows h (unlock n e) = inr refl
dispatcher_grows h (spawn n e) = inr refl
dispatcher_grows h (next_signal e) = inr refl

dispatcher_closing : {s t : Life} → DispatcherStep s t → t.closing ≡ s.closing
dispatcher_closing (start_dispatcher e) = refl
dispatcher_closing (see_context_done e c) = refl
dispatcher_closing (see_channel_closed e) = refl
dispatcher_closing (skip_nameless e) = refl
dispatcher_closing (resolve n e) = refl
dispatcher_closing (lock n e f) = refl
dispatcher_closing (see_closing n e c) = refl
dispatcher_closing (see_open n e c) = refl
dispatcher_closing (add n e) = refl
dispatcher_closing (unlock n e) = refl
dispatcher_closing (spawn n e) = refl
dispatcher_closing (next_signal e) = refl

-- `Close` never touches `wg`, and sets `closing` only to true.
closer_keeps :
    {s t : Life} → CloserStep s t → (t.wg ≡ s.wg) × ((t.closing ≡ s.closing) ⊎ (t.closing ≡ true))
closer_keeps (cancel e) = (refl, inl refl)
closer_keeps (remove_signal e) = (refl, inl refl)
closer_keeps (await_dispatcher e z) = (refl, inl refl)
closer_keeps (dispatcher_timeout e) = (refl, inl refl)
closer_keeps (closer_lock e f) = (refl, inl refl)
closer_keeps (set_closing e) = (refl, inr refl)
closer_keeps (await_handlers e z) = (refl, inl refl)
closer_keeps (handlers_timeout e) = (refl, inl refl)
closer_keeps (closer_unlock e) = (refl, inl refl)
closer_keeps (settle e) = (refl, inl refl)

step_closing :
    {s t : Life} → Inv s → Step s t → s.closing ≡ true → (t.closing ≡ true) × (t.wg ≤ s.wg)
step_closing h (dispatch d) c = ground (arith, dispatcher_grows h d, dispatcher_closing d)
step_closing h (close e) c = ground (arith, closer_keeps e)
step_closing h (handler_done n e) c = (c, omega arith)

grows_open : {s t : Life} → Inv s → Step s t → s.wg < t.wg → s.closing ≡ false
grows_open h (dispatch d) lt = ground (arith, dispatcher_grows h d)
grows_open h (close e) lt = ground (arith, closer_keeps e)
grows_open h (handler_done n e) lt = absurd (omega arith)

-- In every run, `wg.Add` is never concurrent with a `wg.Wait` of `Close`, not even with one that
-- goes on after its timeout: a step by which `wg` grows is made only where `closing` is not set and
-- `Close` has not reached its wait for the handlers.
pub wg_grows_before_wait :
    {s t : Life}
    → Steps fresh s
    → Step s t
    → s.wg < t.wg
    → (s.closing ≡ false) × (reached_wait s.closer_at ≡ false)
wg_grows_before_wait r st lt =
    let h = Steps-Inv r fresh-Inv in ground (arith, grows_open h st lt, h)

closing_stays :
    {s t : Life} → Inv s → Steps s t → s.closing ≡ true → (t.closing ≡ true) × (t.wg ≤ s.wg)
closing_stays h here c = (c, omega arith)
closing_stays h (then r st) c =
    let (d, le) = closing_stays h r c in
    let (d', le') = step_closing (Steps-Inv r h) st d in (d', omega arith)

-- Once `closing` is set it stays set, and the handlers that run at any later time are no more than
-- `wg` counted when it was set. So after a wait that found `wg` at 0 no handler ever runs.
pub closing_bounds_handlers :
    {s t : Life}
    → Steps fresh s
    → s.closing ≡ true
    → Steps s t
    → (t.closing ≡ true) × (t.running ≤ s.wg)
closing_bounds_handlers r c later =
    let (d, le) = closing_stays (Steps-Inv r fresh-Inv) later c in
    (d, omega (arith, Steps-Inv later (Steps-Inv r fresh-Inv)))

-- A run in which the wait of `Close` for the dispatcher times out while n + 1 handlers of a signal
-- are counted and not yet started.
abbrev late : ℕ → Life
late n = record {
  context_done = true;
  closing = true;
  holder = Holder.closer;
  dispatcher_at = spawning (suc n);
  closer_at = closing_set;
  dispatch_wg = 1;
  wg = 0 + suc n;
  running = 0;
}

late_reached : (n : ℕ) → Steps fresh (late n)
late_reached n =
    then
      (then
        (then
          (then
            (then
              (then
                (then
                  (then
                    (then
                      (then (then here (dispatch (start_dispatcher refl)))
                        (dispatch (resolve (suc n) refl)))
                      (dispatch (lock (suc n) refl refl)))
                    (dispatch (see_open (suc n) refl refl)))
                  (dispatch (add (suc n) refl)))
                (dispatch (unlock (suc n) refl)))
              (close (cancel refl)))
            (close (remove_signal refl)))
          (close (dispatcher_timeout refl)))
        (close (closer_lock refl refl)))
      (close (set_closing refl))

-- Setting `closing` does not stop handlers that are counted already from being started: for every
-- n there is a reachable state with `closing` set and no handler running in which the dispatcher
-- starts one, with n more to come.
pub spawn_after_closing :
    (n : ℕ)
    → (s : Life) × (t : Life) × Steps fresh s
      × (s.closing ≡ true)
      × (s.running ≡ 0)
      × Step s t
      × (t.running ≡ 1)
      × (pending t.dispatcher_at ≡ n)
spawn_after_closing n = (
  late n,
  record (late n) { dispatcher_at = spawning n; running = 1 },
  late_reached n,
  refl,
  refl,
  dispatch (spawn n refl),
  refl,
  refl,
)
