-- ===== src/Client/Registering.antt =====
-- `RegisterAgent` keeps the invariant, and so does every run of operations.
use spiderw.Base.{
  ap, ℕ, ◌+◌, Bool, true, false, not, ◌≡◌, refl, arith, Option, String, none, some, if◌then◌else◌,
  Bool-cases, Option-cases, inl, inr, ==_iff, List, [], ◌∷◌,
}
use spiderw.Outside.{Peer, Trace, Returned, exports, unexports, conn_closes, one_if_same}
use spiderw.Outside.Balance.{Rose}
use spiderw.Agents.{CredentialCallbacks, CoreAgent, validate, iwd_agent_iface}
use spiderw.Connect.{Wiring}
use spiderw.Connect.Credentials.{new_agent, agent_object_path}
use spiderw.Connect.Credentials.Unexported.{Outcome, new_agent-Outcome}
use spiderw.Client.{World, register_agent, register_locked, store, is_some, internal, invalid_state}
use spiderw.Failure.{Resource}
use spiderw.Client.Runs.{Operation, register, unregister_, close_, perform, run}
use spiderw.Client.Invariant.{Inv, unregister_idle, unregister_registered}
use spiderw.Client.Closing.{close-Inv, balance_none}

abbrev registered_at : World → ℕ → Bool
registered_at w i = (w.agents i).core.registered

-- A failed `NewAgent` changes nothing but the trace.
store_failed :
    (w : World) (r : Returned CoreAgent × Trace)
    → r.0.0 ≡ none
    → store w r ≡ ((none, (store w r).0.1), record w { trace = r.1 })
store_failed w ((o, some e), t) h = refl
store_failed w ((none, none), t) h = refl
store_failed w ((some a, none), t) h = ground arith

store_ok :
    (w : World) (r : Returned CoreAgent × Trace) (a : CoreAgent)
    → r.0 ≡ (some a, none)
    → store w r ≡ store w ((some a, none), r.1)
store_ok w ((o, some e), t) a h = absurd (ground (arith, ap (λ x. x.1) h))
store_ok w ((none, none), t) a h = absurd (ground (arith, ap (λ x. x.0) h))
store_ok w ((some a', none), t) a h =
    let e : a' ≡ a = ground (arith, ap (λ x. x.0) h) in rw (e) refl

stored_Inv :
    (w : World) (a : CoreAgent) (t : Trace)
    → Inv w
    → w.client.closed ≡ false
    → w.client.agent ≡ none
    → a.registered ≡ true
    → a.unexport ≡ some agent_object_path
    → ((path iface : String)
        → exports path iface t + unexports path iface w.trace
          ≡ exports path iface w.trace
            + unexports path iface t
            + one_if_same path iface agent_object_path iwd_agent_iface)
    → (conn_closes t ≡ conn_closes w.trace)
    → Inv (store w ((some a, none), t)).1
stored_Inv w a t h c n r u b k = record {
  no_factory = h.no_factory;
  slot_registered = λ j e. ground (arith, ==_iff w.next j, ==_iff j w.next);
  registered_slot = λ j e. ground (arith, ==_iff w.next j, ==_iff j w.next, h.registered_slot j);
  bound = λ j e. ground (arith, ==_iff w.next j, h.bound j, h.registered_slot j);
  counted = λ path iface.
      let q = balance_none path iface (h.counted path iface) n in omega (arith, b path iface);
  once = h.once;
  emptied = λ e. absurd (ground arith);
  cleaned = h.cleaned;
  closings = ground arith;
}

-- Of the results of `NewAgent`, an agent has raised the exports of its object alone, and nil of none.
Outcome-agent :
    (path iface : String) (t : Trace) (r : Returned CoreAgent × Trace) (a : CoreAgent)
    → r.0 ≡ (some a, none)
    → Outcome path iface t r
    → Rose path iface (one_if_same path iface agent_object_path iwd_agent_iface) t r.1
Outcome-agent path iface t r a o (inl x) = x.6
Outcome-agent path iface t r a o (inr x) = absurd (ground (arith, ap (λ y. y.0) o, x.0))

Outcome-nil :
    (path iface : String) (t : Trace) (r : Returned CoreAgent × Trace)
    → r.0.0 ≡ none
    → Outcome path iface t r
    → Rose path iface 0 t r.1
Outcome-nil path iface t r o (inl x) = absurd (ground (arith, ap (λ y. y.0) x.1, o))
Outcome-nil path iface t r o (inr x) = x.2

store-Inv :
    (w : World) (r : Returned CoreAgent × Trace)
    → Inv w
    → w.client.closed ≡ false
    → w.client.agent ≡ none
    → ((path iface : String) → Outcome path iface w.trace r)
    → Inv (store w r).1
store-Inv w r h c n k = store_cases (k "" "")
  where
    store_cases : Outcome "" "" w.trace r → Inv (store w r).1
    store_cases (inr (o, e, (b, d))) = rw (store_failed w r o) (record {
      no_factory = h.no_factory;
      slot_registered = h.slot_registered;
      registered_slot = h.registered_slot;
      bound = h.bound;
      counted = λ path iface.
          omega
            (arith, h.counted path iface, (Outcome-nil path iface w.trace r o (k path iface)).0);
      once = h.once;
      emptied = h.emptied;
      cleaned = h.cleaned;
      closings = ground arith;
    })
    store_cases (inl (a, o, ra, p, u, q, b)) = rw (store_ok w r a o) (
        stored_Inv w a r.1 h c n ra u
          (λ path iface. (Outcome-agent path iface w.trace r a o (k path iface)).0) b.1)

register_locked-Inv :
    (p : Peer) (callbacks : CredentialCallbacks) (w : World)
    → Inv w
    → Inv (register_locked p callbacks w).1
unfolding register_locked
register_locked-Inv p callbacks w h =
    cases w.client.closed refl w.client.wire refl w.client.agent refl
  where
    cases :
        (b : Bool)
        → w.client.closed ≡ b
        → (v : Option Wiring) → w.client.wire ≡ v
        → (o : Option ℕ) → w.client.agent ≡ o
        → Inv
            (if b
              then ((none, invalid_state Resource.client "Client.RegisterAgent"), w)
              else if not (is_some v)
              then ((none, internal "Client.RegisterAgent"), w)
              else if is_some o
              then ((none, invalid_state Resource.agent "Client.RegisterAgent"), w)
              else store w (new_agent p v callbacks w.trace)).1
    cases true c v e o a = h
    cases false c none e o a = h
    cases false c (some v) e (some i) a = h
    cases false c (some v) e none a =
        store-Inv w _ h c a
          (λ path iface. new_agent-Outcome path iface p v callbacks w.trace (h.no_factory v e))

register_agent-Inv :
    (p : Peer) (callbacks : CredentialCallbacks) (w : World)
    → Inv w
    → Inv (register_agent p callbacks w).1
unfolding register_agent
register_agent-Inv p callbacks w h =
    elim (Option-cases (validate "Client.RegisterAgent" callbacks)) [
      | inl v ↦ rw (v, register_agent) (register_locked-Inv p callbacks w h)
      | inr (e, v) ↦ rw (v, register_agent) h
    ]

pub perform-Inv : (p : Peer) (o : Operation) (w : World) → Inv w → Inv (perform p o w)
unfolding perform
perform-Inv p (register callbacks) w h = register_agent-Inv p callbacks w h
perform-Inv p close_ w h = close-Inv p w h
perform-Inv p (unregister_ i) w h = elim (Bool-cases (registered_at w i)) [
  | inl r ↦ unregister_registered p i w h r
  | inr r ↦ unregister_idle p i w h r
]

pub run-Inv : (p : Peer) (os : List Operation) (w : World) → Inv w → Inv (run p os w)
unfolding run
run-Inv p [] w h = h
run-Inv p (o ∷ os) w h = run-Inv p os (perform p o w) (perform-Inv p o w h)
