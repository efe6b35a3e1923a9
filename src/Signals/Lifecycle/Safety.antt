-- ===== src/Signals/Lifecycle/Safety.antt =====
-- What holds in every state that the goroutines reach, and what cannot happen any more after Close.
use spiderw.Base.{ℕ, ◌+◌, Bool, true, false, ◌≡◌, ◌⊎◌, arith, inl, inr}
use spiderw.Signals.Lifecycle.{
  Holder, Dispatcher, idle, waiting, exited, resolved, locked, checked, added, spawning, Closer,
  open_, cancelled, removed, dispatcher_awaited, lock_held, closing_set, handlers_awaited, unlocked,
  closed, Life, fresh, DispatcherStep, CloserStep, Step, dispatch, close, handler_done, Steps, here,
  then,
}
use spiderw.Signals.Lifecycle.{
  start_dispatcher, see_context_done, see_channel_closed, skip_nameless, resolve, lock, see_closing,
  see_open, add, unlock, spawn, next_signal, cancel, remove_signal, await_dispatcher,
  dispatcher_timeout, closer_lock, set_closing, await_handlers, handlers_timeout, closer_unlock,
  settle,
}

abbrev is_dispatcher : Holder → Bool
is_dispatcher Holder.nobody = false
is_dispatcher Holder.dispatcher = true
is_dispatcher Holder.closer = false

abbrev is_closer : Holder → Bool
is_closer Holder.nobody = false
is_closer Holder.dispatcher = false
is_closer Holder.closer = true

abbrev pub dispatcher_holds : Dispatcher → Bool
dispatcher_holds idle = false
dispatcher_holds waiting = false
dispatcher_holds exited = false
dispatcher_holds (resolved n) = false
dispatcher_holds (locked n) = true
dispatcher_holds (checked n) = true
dispatcher_holds (added n) = true
dispatcher_holds (spawning n) = false

-- From its test of `closing` to the unlock.
abbrev is_open : Dispatcher → Bool
is_open idle = false
is_open waiting = false
is_open exited = false
is_open (resolved n) = false
is_open (locked n) = false
is_open (checked n) = true
is_open (added n) = true
is_open (spawning n) = false

-- The handlers that `wg` counts already and that are not started yet.
abbrev pub pending : Dispatcher → ℕ
pending idle = 0
pending waiting = 0
pending exited = 0
pending (resolved n) = 0
pending (locked n) = 0
pending (checked n) = 0
pending (added n) = n
pending (spawning n) = n

abbrev alive : Dispatcher → ℕ
alive idle = 0
alive exited = 0
alive waiting = 1
alive (resolved n) = 1
alive (locked n) = 1
alive (checked n) = 1
alive (added n) = 1
alive (spawning n) = 1

abbrev closer_holds : Closer → Bool
closer_holds open_ = false
closer_holds cancelled = false
closer_holds removed = false
closer_holds dispatcher_awaited = false
closer_holds lock_held = true
closer_holds closing_set = true
closer_holds handlers_awaited = true
closer_holds unlocked = false
closer_holds closed = false

-- Whether `Close` has reached its wait for the handlers.
abbrev pub reached_wait : Closer → Bool
reached_wait open_ = false
reached_wait cancelled = false
reached_wait removed = false
reached_wait dispatcher_awaited = false
reached_wait lock_held = false
reached_wait closing_set = true
reached_wait handlers_awaited = true
reached_wait unlocked = true
reached_wait closed = true

pub record Inv (s : Life) : Type 0 where
  pub dispatcher_lock : is_dispatcher s.holder ≡ dispatcher_holds s.dispatcher_at
  pub closer_lock : is_closer s.holder ≡ closer_holds s.closer_at
  pub closing_set : s.closing ≡ reached_wait s.closer_at
  pub open_until_unlock : is_open s.dispatcher_at ≡ true → s.closing ≡ false
  pub counted : s.wg ≡ s.running + pending s.dispatcher_at
  pub dispatch_counted : s.dispatch_wg ≡ alive s.dispatcher_at

pub fresh-Inv : Inv fresh
fresh-Inv = ground arith

DispatcherStep-Inv : {s t : Life} → DispatcherStep s t → Inv s → Inv t
DispatcherStep-Inv (start_dispatcher e) h = ground arith
DispatcherStep-Inv (see_context_done e c) h = ground arith
DispatcherStep-Inv (see_channel_closed e) h = ground arith
DispatcherStep-Inv (skip_nameless e) h = h
DispatcherStep-Inv (resolve n e) h = ground arith
DispatcherStep-Inv (lock n e f) h = ground arith
DispatcherStep-Inv (see_closing n e c) h = ground arith
DispatcherStep-Inv (see_open n e c) h = ground arith
DispatcherStep-Inv (add n e) h = ground arith
DispatcherStep-Inv (unlock n e) h = ground arith
DispatcherStep-Inv (spawn n e) h = ground arith
DispatcherStep-Inv (next_signal e) h = ground arith

CloserStep-Inv : {s t : Life} → CloserStep s t → Inv s → Inv t
CloserStep-Inv (cancel e) h = ground arith
CloserStep-Inv (remove_signal e) h = ground arith
CloserStep-Inv (await_dispatcher e z) h = ground arith
CloserStep-Inv (dispatcher_timeout e) h = ground arith
CloserStep-Inv (closer_lock e f) h = ground arith
CloserStep-Inv (set_closing e) h = ground arith
CloserStep-Inv (await_handlers e z) h = ground arith
CloserStep-Inv (handlers_timeout e) h = ground arith
CloserStep-Inv (closer_unlock e) h = ground arith
CloserStep-Inv (settle e) h = ground arith

pub Step-Inv : {s t : Life} → Step s t → Inv s → Inv t
Step-Inv (dispatch d) h = DispatcherStep-Inv d h
Step-Inv (close c) h = CloserStep-Inv c h
Step-Inv (handler_done n e) h = ground arith

pub Steps-Inv : {s t : Life} → Steps s t → Inv s → Inv t
Steps-Inv here h = h
Steps-Inv (then r st) h = Step-Inv st (Steps-Inv r h)

-- While the dispatcher is outside its locked part, `Close` has the lock or nobody has.
pub not_locked :
    {s : Life}
    → Inv s
    → (o : Holder) → s.holder ≡ o
    → dispatcher_holds s.dispatcher_at ≡ false
    → (s.holder ≡ Holder.nobody) ⊎ (s.holder ≡ Holder.closer)
not_locked h Holder.nobody e d = inl e
not_locked h Holder.closer e d = inr e
not_locked h Holder.dispatcher e d = ground arith
