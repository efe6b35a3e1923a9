-- ===== src/Signals/Lifecycle/Ends.antt =====
-- `Close` can always go on to its end, also if no handler ever returns.
use spiderw.Base.{ℕ, ◌≡◌, ◌⊎◌, refl, arith, inl, inr, Bool-cases}
use spiderw.Signals.Lifecycle.{
  Holder, Dispatcher, idle, waiting, exited, resolved, locked, checked, added, spawning, Closer,
  open_, cancelled, removed, dispatcher_awaited, lock_held, closing_set, handlers_awaited, unlocked,
  closed, Life, fresh, dispatch, close, Steps, here, then,
}
use spiderw.Signals.Lifecycle.{
  see_closing, see_open, add, unlock, cancel, remove_signal, dispatcher_timeout, closer_lock,
  set_closing, handlers_timeout, closer_unlock, settle,
}
use spiderw.Signals.Lifecycle.Progress.{Progresses, Inv-Progresses}
use spiderw.Signals.Lifecycle.Safety.{Inv, fresh-Inv, Step-Inv, Steps-Inv, not_locked}

-- A way from `s` to the end of `Close`, with the lock free and as many handlers running as in `u`.
abbrev Ends : Life → Life → Type 0
Ends s u =
    (t : Life) × Steps s t
    × (t.closer_at ≡ closed)
    × (t.holder ≡ Holder.nobody)
    × (t.running ≡ u.running)

module _ {s : Life} where
  from_unlocked :
      (u : Life) → Steps s u → u.holder ≡ Holder.nobody → u.closer_at ≡ unlocked → Ends s u
  from_unlocked u r f e =
      (record u { closer_at = closed }, then r (close (settle e)), refl, f, refl)

  from_handlers_awaited : (u : Life) → Steps s u → u.closer_at ≡ handlers_awaited → Ends s u
  from_handlers_awaited u r e = from_unlocked _ (then r (close (closer_unlock e))) refl refl

  from_closing_set : (u : Life) → Steps s u → u.closer_at ≡ closing_set → Ends s u
  from_closing_set u r e = from_handlers_awaited _ (then r (close (handlers_timeout e))) refl

  from_lock_held : (u : Life) → Steps s u → u.closer_at ≡ lock_held → Ends s u
  from_lock_held u r e = from_closing_set _ (then r (close (set_closing e))) refl

  from_dispatcher_awaited :
      (u : Life)
      → Steps s u
      → u.holder ≡ Holder.nobody
      → u.closer_at ≡ dispatcher_awaited
      → Ends s u
  from_dispatcher_awaited u r f e = from_lock_held _ (then r (close (closer_lock e f))) refl

  from_removed :
      (u : Life) → Steps s u → u.holder ≡ Holder.nobody → u.closer_at ≡ removed → Ends s u
  from_removed u r f e = from_dispatcher_awaited _ (then r (close (dispatcher_timeout e))) f refl

  from_cancelled :
      (u : Life) → Steps s u → u.holder ≡ Holder.nobody → u.closer_at ≡ cancelled → Ends s u
  from_cancelled u r f e = from_removed _ (then r (close (remove_signal e))) f refl

  from_open : (u : Life) → Steps s u → u.holder ≡ Holder.nobody → u.closer_at ≡ open_ → Ends s u
  from_open u r f e = from_cancelled _ (then r (close (cancel e))) f refl

  -- With the lock free, or held by `Close` itself.
  from_free :
      (u : Life)
      → Steps s u
      → Inv u
      → (c : Closer) → u.closer_at ≡ c
      → (u.holder ≡ Holder.nobody) ⊎ (u.holder ≡ Holder.closer)
      → Ends s u
  from_free u r h open_ e f = from_open u r (ground arith) e
  from_free u r h cancelled e f = from_cancelled u r (ground arith) e
  from_free u r h removed e f = from_removed u r (ground arith) e
  from_free u r h dispatcher_awaited e f = from_dispatcher_awaited u r (ground arith) e
  from_free u r h lock_held e f = from_lock_held u r e
  from_free u r h closing_set e f = from_closing_set u r e
  from_free u r h handlers_awaited e f = from_handlers_awaited u r e
  from_free u r h unlocked e f = from_unlocked u r (ground arith) e
  from_free u r h closed e f = (u, r, e, ground arith, refl)

  from_added : (n : ℕ) (u : Life) → Steps s u → Inv u → u.dispatcher_at ≡ added n → Ends s u
  from_added n u r h e =
      let st = dispatch (unlock n e) in from_free _ (then r st) (Step-Inv st h) _ refl (inl refl)

  from_checked : (n : ℕ) (u : Life) → Steps s u → Inv u → u.dispatcher_at ≡ checked n → Ends s u
  from_checked n u r h e =
      let st = dispatch (add n e) in from_added n _ (then r st) (Step-Inv st h) refl

  from_locked : (n : ℕ) (u : Life) → Steps s u → Inv u → u.dispatcher_at ≡ locked n → Ends s u
  from_locked n u r h e = elim (Bool-cases u.closing) [
    | inl c ↦
        let st = dispatch (see_closing n e c) in
        from_free _ (then r st) (Step-Inv st h) _ refl (inl refl)
    | inr c ↦
        let st = dispatch (see_open n e c) in from_checked n _ (then r st) (Step-Inv st h) refl
  ]

  from_any : (u : Life) → Steps s u → Inv u → (d : Dispatcher) → u.dispatcher_at ≡ d → Ends s u
  from_any u r h (locked n) e = from_locked n u r h e
  from_any u r h (checked n) e = from_checked n u r h e
  from_any u r h (added n) e = from_added n u r h e
  from_any u r h idle e = from_free u r h _ refl (not_locked h u.holder refl (ground arith))
  from_any u r h waiting e = from_free u r h _ refl (not_locked h u.holder refl (ground arith))
  from_any u r h exited e = from_free u r h _ refl (not_locked h u.holder refl (ground arith))
  from_any u r h (resolved n) e = from_free u r h _ refl (not_locked h u.holder refl (ground arith))
  from_any u r h (spawning n) e = from_free u r h _ refl (not_locked h u.holder refl (ground arith))

-- In every state that a run reaches: there is a way to a state in which `Close` has come to its end,
-- nobody holds the lock and as many handlers run as before, so that `Close` need not wait for a handler;
-- and `Close` has ended, or it can take a step after which it has one less left, or the dispatcher has a
-- step after which it has less left up to its unlock and `Close` is where it was.
pub close_can_end :
    {s : Life}
    → Steps fresh s
    → ((t : Life) × Steps s t
        × (t.closer_at ≡ closed)
        × (t.holder ≡ Holder.nobody)
        × (t.running ≡ s.running))
      × Progresses s
close_can_end {s} r =
    let h = Steps-Inv r fresh-Inv in
    (from_any s here h s.dispatcher_at refl, Inv-Progresses h s.closer_at refl)
