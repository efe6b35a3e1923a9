-- ===== src/Signals/Lifecycle/Progress.antt =====
-- What keeps `Close` waiting: nothing but the lock, which the dispatcher can give back by itself.
use spiderw.Base.{ℕ, ◌+◌, ◌<◌, true, ◌≡◌, ◌⊎◌, refl, arith, inl, inr, Bool-cases}
use spiderw.Signals.Lifecycle.{
  Holder, Dispatcher, idle, waiting, exited, resolved, locked, checked, added, spawning, Closer,
  open_, cancelled, removed, dispatcher_awaited, lock_held, closing_set, handlers_awaited, unlocked,
  closed, Life, DispatcherStep, CloserStep,
}
use spiderw.Signals.Lifecycle.{
  see_closing, see_open, add, unlock, cancel, remove_signal, await_dispatcher, dispatcher_timeout,
  closer_lock, set_closing, await_handlers, handlers_timeout, closer_unlock, settle,
}
use spiderw.Signals.Lifecycle.Safety.{Inv, dispatcher_holds}

-- The steps that `Close` has left.
abbrev pub steps_left : Closer → ℕ
steps_left open_ = 8
steps_left cancelled = 7
steps_left removed = 6
steps_left dispatcher_awaited = 5
steps_left lock_held = 4
steps_left closing_set = 3
steps_left handlers_awaited = 2
steps_left unlocked = 1
steps_left closed = 0

-- The steps that the dispatcher has left up to its unlock, at most.
abbrev pub lock_left : Dispatcher → ℕ
lock_left (locked n) = 3
lock_left (checked n) = 2
lock_left (added n) = 1
lock_left idle = 0
lock_left waiting = 0
lock_left exited = 0
lock_left (resolved n) = 0
lock_left (spawning n) = 0

-- `Close` has ended, or it can take one of the steps that it has left, or the dispatcher, which has
-- the lock, can take one of those up to its unlock.
abbrev pub Progresses : Life → Type 0
Progresses s =
    (s.closer_at ≡ closed)
    ⊎ (((t : Life) × CloserStep s t × (steps_left t.closer_at + 1 ≡ steps_left s.closer_at))
        ⊎ ((t : Life) × DispatcherStep s t
            × (t.closer_at ≡ s.closer_at)
            × (lock_left t.dispatcher_at < lock_left s.dispatcher_at)))

-- Whichever way a step of `Close` is taken, it has one less left.
pub steps_left-CloserStep :
    {s t : Life} → CloserStep s t → steps_left t.closer_at + 1 ≡ steps_left s.closer_at
steps_left-CloserStep (cancel e) = rw (e) refl
steps_left-CloserStep (remove_signal e) = rw (e) refl
steps_left-CloserStep (await_dispatcher e z) = rw (e) refl
steps_left-CloserStep (dispatcher_timeout e) = rw (e) refl
steps_left-CloserStep (closer_lock e f) = rw (e) refl
steps_left-CloserStep (set_closing e) = rw (e) refl
steps_left-CloserStep (await_handlers e z) = rw (e) refl
steps_left-CloserStep (handlers_timeout e) = rw (e) refl
steps_left-CloserStep (closer_unlock e) = rw (e) refl
steps_left-CloserStep (settle e) = rw (e) refl

module _ {s : Life} where
  can_step : {t : Life} → CloserStep s t → Progresses s
  can_step {t} st = inr (inl (t, st, steps_left-CloserStep st))

  lock_given : (d : Dispatcher) → s.dispatcher_at ≡ d → dispatcher_holds d ≡ true → Progresses s
  lock_given (locked n) e h = elim (Bool-cases s.closing) [
    | inl c ↦ inr (inr (_, see_closing n e c, refl, rw (e) (omega arith)))
    | inr c ↦ inr (inr (_, see_open n e c, refl, rw (e) (omega arith)))
  ]
  lock_given (checked n) e h = inr (inr (_, add n e, refl, rw (e) (omega arith)))
  lock_given (added n) e h = inr (inr (_, unlock n e, refl, rw (e) (omega arith)))
  lock_given idle e h = absurd (ground (arith, h))
  lock_given waiting e h = absurd (ground (arith, h))
  lock_given exited e h = absurd (ground (arith, h))
  lock_given (resolved n) e h = absurd (ground (arith, h))
  lock_given (spawning n) e h = absurd (ground (arith, h))

  lock_wanted :
      Inv s → (o : Holder) → s.holder ≡ o → s.closer_at ≡ dispatcher_awaited → Progresses s
  lock_wanted h Holder.nobody f e = can_step (closer_lock e f)
  lock_wanted h Holder.dispatcher f e = lock_given s.dispatcher_at refl (ground (arith, h, f))
  lock_wanted h Holder.closer f e = absurd (ground (arith, h, f, e))

  pub Inv-Progresses : Inv s → (c : Closer) → s.closer_at ≡ c → Progresses s
  Inv-Progresses h open_ e = can_step (cancel e)
  Inv-Progresses h cancelled e = can_step (remove_signal e)
  Inv-Progresses h removed e = can_step (dispatcher_timeout e)
  Inv-Progresses h dispatcher_awaited e = lock_wanted h s.holder refl e
  Inv-Progresses h lock_held e = can_step (set_closing e)
  Inv-Progresses h closing_set e = can_step (handlers_timeout e)
  Inv-Progresses h handlers_awaited e = can_step (closer_unlock e)
  Inv-Progresses h unlocked e = can_step (settle e)
  Inv-Progresses h closed e = inl e
