-- ===== src/Signals/Lifecycle.antt =====
-- The goroutines of an IntrospectedObject (internal/iwdbus/introspect.go): the dispatcher, its
-- handlers and one run of Close, as steps between the points where they touch shared state.
pub mod Safety
pub mod Close
pub mod Progress
pub mod Ends
use spiderw.Base.{ℕ, zero, suc, ◌+◌, ◌-◌, Bool, true, false, ◌≡◌, ◌⊎◌}

-- Who holds `handlerMu`.
pub data Holder : Type 0 where
  nobody dispatcher closer : Holder

-- Where the dispatcher is: `idle` before `startDispatcher`, `waiting` in the `select`, `resolved n`
-- with the n handlers of a signal before the lock, `locked n` before the test of `closing`,
-- `checked n` between a test that found it false and `wg.Add(n)`, `added n` between `wg.Add(n)` and the unlock, `spawning n` with n `go` statements to go.
pub data Dispatcher : Type 0 where
  idle waiting exited : Dispatcher
  resolved locked checked added spawning : ℕ → Dispatcher

-- Where the body that `once.Do` runs in `Close` is.
pub data Closer : Type 0 where
  open_ cancelled removed dispatcher_awaited lock_held closing_set handlers_awaited : Closer
  unlocked closed : Closer

pub record Life : Type 0 where
  pub context_done : Bool
  pub closing : Bool
  pub holder : Holder
  pub dispatcher_at : Dispatcher
  pub closer_at : Closer
  pub dispatch_wg : ℕ
  pub wg : ℕ
  pub running : ℕ  -- handler goroutines that have not called `wg.Done`

abbrev pub fresh : Life
fresh = record {
  context_done = false;
  closing = false;
  holder = nobody;
  dispatcher_at = idle;
  closer_at = open_;
  dispatch_wg = 0;
  wg = 0;
  running = 0;
}

-- `startDispatcher` and `dispatchLoop`.
pub data DispatcherStep : Life → Life → Type 0 where
  start_dispatcher :
      {s : Life}
      → s.dispatcher_at ≡ idle
      → DispatcherStep s (record s { dispatcher_at = waiting; dispatch_wg = s.dispatch_wg + 1 })
  see_context_done :
      {s : Life}
      → s.dispatcher_at ≡ waiting
      → s.context_done ≡ true
      → DispatcherStep s (record s { dispatcher_at = exited; dispatch_wg = s.dispatch_wg - 1 })
  see_channel_closed :
      {s : Life}
      → s.dispatcher_at ≡ waiting
      → DispatcherStep s (record s { dispatcher_at = exited; dispatch_wg = s.dispatch_wg - 1 })
  skip_nameless : {s : Life} → s.dispatcher_at ≡ waiting → DispatcherStep s s
  resolve :
      {s : Life} (n : ℕ)
      → s.dispatcher_at ≡ waiting
      → DispatcherStep s (record s { dispatcher_at = resolved n })
  lock :
      {s : Life} (n : ℕ)
      → s.dispatcher_at ≡ resolved n
      → s.holder ≡ nobody
      → DispatcherStep s (record s { dispatcher_at = locked n; holder = dispatcher })
  see_closing :
      {s : Life} (n : ℕ)
      → s.dispatcher_at ≡ locked n
      → s.closing ≡ true
      → DispatcherStep s
          (record s { dispatcher_at = exited; holder = nobody; dispatch_wg = s.dispatch_wg - 1 })
  see_open :
      {s : Life} (n : ℕ)
      → s.dispatcher_at ≡ locked n
      → s.closing ≡ false
      → DispatcherStep s (record s { dispatcher_at = checked n })
  add :
      {s : Life} (n : ℕ)
      → s.dispatcher_at ≡ checked n
      → DispatcherStep s (record s { dispatcher_at = added n; wg = s.wg + n })
  unlock :
      {s : Life} (n : ℕ)
      → s.dispatcher_at ≡ added n
      → DispatcherStep s (record s { dispatcher_at = spawning n; holder = nobody })
  spawn :
      {s : Life} (n : ℕ)
      → s.dispatcher_at ≡ spawning (suc n)
      → DispatcherStep s (record s { dispatcher_at = spawning n; running = s.running + 1 })
  next_signal :
      {s : Life}
      → s.dispatcher_at ≡ spawning 0
      → DispatcherStep s (record s { dispatcher_at = waiting })

-- The body of `Close`. Each wait ends when its counter is 0 or, whatever the counter, by timeout.
pub data CloserStep : Life → Life → Type 0 where
  cancel :
      {s : Life}
      → s.closer_at ≡ open_
      → CloserStep s (record s { closer_at = cancelled; context_done = true })
  remove_signal :
      {s : Life} → s.closer_at ≡ cancelled → CloserStep s (record s { closer_at = removed })
  await_dispatcher :
      {s : Life}
      → s.closer_at ≡ removed
      → s.dispatch_wg ≡ 0
      → CloserStep s (record s { closer_at = dispatcher_awaited })
  dispatcher_timeout :
      {s : Life}
      → s.closer_at ≡ removed
      → CloserStep s (record s { closer_at = dispatcher_awaited })
  closer_lock :
      {s : Life}
      → s.closer_at ≡ dispatcher_awaited
      → s.holder ≡ nobody
      → CloserStep s (record s { closer_at = lock_held; holder = closer })
  set_closing :
      {s : Life}
      → s.closer_at ≡ lock_held
      → CloserStep s (record s { closer_at = closing_set; closing = true })
  await_handlers :
      {s : Life}
      → s.closer_at ≡ closing_set
      → s.wg ≡ 0
      → CloserStep s (record s { closer_at = handlers_awaited })
  handlers_timeout :
      {s : Life}
      → s.closer_at ≡ closing_set
      → CloserStep s (record s { closer_at = handlers_awaited })
  closer_unlock :
      {s : Life}
      → s.closer_at ≡ handlers_awaited
      → CloserStep s (record s { closer_at = unlocked; holder = nobody })
  settle : {s : Life} → s.closer_at ≡ unlocked → CloserStep s (record s { closer_at = closed })

-- One step of the dispatcher, of `Close`, or the end of a handler goroutine, whose deferred
-- `wg.Done` runs also after a panic.
pub data Step : Life → Life → Type 0 where
  dispatch : {s t : Life} → DispatcherStep s t → Step s t
  close : {s t : Life} → CloserStep s t → Step s t
  handler_done :
      {s : Life} (n : ℕ) → s.running ≡ suc n → Step s (record s { running = n; wg = s.wg - 1 })

pub data Steps (s : Life) : Life → Type 0 where
  here : Steps s s
  then : {t u : Life} → Steps s t → Step t u → Steps s u
