-- ===== src/Client/Promises.antt =====
-- What the client promises: one agent at a time, nothing left behind by Close, Close once.
use spiderw.Base.{
  ℕ, ◌+◌, true, false, ◌≡◌, refl, arith, String, none, ap, if-true, if-false, sym, ◌∙◌, Bool-cases,
  Option-cases, inl, inr, List, [], ◌∷◌,
}
use spiderw.Errors.{Error}
use spiderw.Outside.{Peer, Returned, exports, unexports, conn_closes}
use spiderw.Agents.{CredentialCallbacks, validate}
use spiderw.Agents.Teardown.{unregister-unregistered}
use spiderw.Client.{
  World, unregister, close, register_agent, register_locked, points_to, with_error, close_once,
}
use spiderw.Client.Runs.{Operation, register, unregister_, close_, perform, run}
use spiderw.Client.Invariant.{Inv, slot_size, once_size, only_registered, clear_idle}
use spiderw.Client.Closing.{close-Inv, close_closed, balance_none}
use spiderw.Client.Registering.{run-Inv, perform-Inv}

-- Whatever operations are called in whatever order on a client in a state that satisfies the
-- invariant, and whatever the peer answers: two agents that are registered afterwards are the same
-- agent.
pub run_one_agent :
    (p : Peer) (os : List Operation) (w : World) (i j : ℕ)
    → Inv w
    → ((run p os w).agents i).core.registered ≡ true
    → ((run p os w).agents j).core.registered ≡ true
    → i ≡ j
run_one_agent p os w i j h a b = only_registered (run p os w) j i (run-Inv p os w h) b a

-- After any operations on a client in a state that satisfies the invariant: the object at the agent's
-- path with the agent's interface was exported once more than it was unexported if the client holds an
-- agent, and as often if it holds none, and every object at another path or with another interface was
-- exported as often as it was unexported.
pub exports-run :
    (path iface : String) (p : Peer) (os : List Operation) (w : World)
    → Inv w
    → exports path iface (run p os w).trace
      ≡ unexports path iface (run p os w).trace + slot_size path iface (run p os w).client.agent
exports-run path iface p os w h = let k = run-Inv p os w h in k.counted path iface

nobody_registered :
    (w : World) (i : ℕ) → Inv w → w.client.agent ≡ none → (w.agents i).core.registered ≡ false
nobody_registered w i h n = elim (Bool-cases (w.agents i).core.registered) [
  | inl r ↦ let s = h.registered_slot i r in ground (arith, rw (n) at s)
  | inr r ↦ r
]

-- Being closed is for good: no operation changes the client or calls the peer any more.
unregister_closed :
    (p : Peer) (i : ℕ) (w : World)
    → Inv w
    → w.client.closed ≡ true
    → ((unregister p i w).1.client ≡ w.client) × ((unregister p i w).1.trace ≡ w.trace)
unfolding unregister
unregister_closed p i w h c =
    let n = h.emptied c in
    let idle = nobody_registered w i h n in
    let q = unregister-unregistered p (w.agents i).core w.trace idle in
    let out : points_to w.client.agent i ≡ false = rw (n) refl in
    let same = clear_idle i w.client (w.agents i).cleared out in rw (unregister, q) (same, refl)

register_closed :
    (p : Peer) (callbacks : CredentialCallbacks) (w : World)
    → w.client.closed ≡ true
    → (register_agent p callbacks w).1 ≡ w
unfolding register_agent register_locked
register_closed p callbacks w c = elim (Option-cases (validate "Client.RegisterAgent" callbacks)) [
  | inl v ↦
      rw (v, register_agent) (ap (λ (x : Returned ℕ × World). x.1) (if-true w.client.closed _ _ c))
  | inr (e, v) ↦ rw (v, register_agent) refl
]

perform_closed :
    (p : Peer) (o : Operation) (w : World)
    → Inv w
    → w.client.closed ≡ true
    → ((perform p o w).client ≡ w.client) × ((perform p o w).trace ≡ w.trace)
unfolding perform close
perform_closed p (register callbacks) w h c =
    let q = register_closed p callbacks w c in (ap (λ v. v.client) q, ap (λ v. v.trace) q)
perform_closed p (unregister_ i) w h c = unregister_closed p i w h c
perform_closed p close_ w h c =
    let d : w.client.close_done ≡ true = h.once ∙ c in
    let q = ap (λ (x : Error × World). x.1) (if-true w.client.close_done _ _ d) in
    (ap (λ v. v.client) q, ap (λ v. v.trace) q)

run_closed :
    (p : Peer) (os : List Operation) (w : World)
    → Inv w
    → w.client.closed ≡ true
    → ((run p os w).client ≡ w.client) × ((run p os w).trace ≡ w.trace)
unfolding run
run_closed p [] w h c = (refl, refl)
run_closed p (o ∷ os) w h c =
    let (q, r) = perform_closed p o w h c in
    let c' : (perform p o w).client.closed ≡ true = ap (λ v. v.closed) q ∙ c in
    let (q', r') = run_closed p os (perform p o w) (perform-Inv p o w h) c' in (q' ∙ q, r' ∙ r)

close_result : (p : Peer) (w : World) → (close p w).0 ≡ (close p w).1.client.close_err
unfolding close
close_result p w = elim (Bool-cases w.client.close_done) [
  | inl d ↦
      let q = if-true w.client.close_done (with_error w) (with_error (close_once p w)) d in
      ap (λ (x : Error × World). x.0) q ∙ sym (ap (λ (x : Error × World). x.1.client.close_err) q)
  | inr d ↦
      let q = if-false w.client.close_done (with_error w) (with_error (close_once p w)) d in
      ap (λ (x : Error × World). x.0) q ∙ sym (ap (λ (x : Error × World). x.1.client.close_err) q)
]

close_again :
    (p : Peer) (w : World) → w.client.close_done ≡ true → (close p w).0 ≡ w.client.close_err
unfolding close
close_again p w d = ap (λ (x : Error × World). x.0) (if-true w.client.close_done _ _ d)

-- After `Close` on a client in a state that satisfies the invariant: no agent is registered, every
-- object, by its path and interface, was unexported as often as it was exported, and the connection was closed once if the client has a
-- cleanup function. Whatever operations are called after that, nothing more is asked of the peer,
-- and a further `Close` returns the same error.
pub close_for_good :
    (p : Peer) (os : List Operation) (w : World)
    → Inv w
    → ((i : ℕ) → ((close p w).1.agents i).core.registered ≡ false)
      × ((path iface : String)
          → exports path iface (close p w).1.trace ≡ unexports path iface (close p w).1.trace)
      × (conn_closes (close p w).1.trace ≡ once_size (close p w).1.client.cleanup)
      × ((run p os (close p w).1).trace ≡ (close p w).1.trace)
      × ((close p (run p os (close p w).1)).0 ≡ (close p w).0)
close_for_good p os w h =
    let u = (close p w).1 in
    let k = close-Inv p w h in
    let c = close_closed p w h in
    let (q, r) = run_closed p os u k c in
    let n = k.emptied c in
    let v = run p os u in
    (
      λ i. nobody_registered u i k n,
      λ path iface. balance_none path iface (k.counted path iface) n,
      k.closings ∙ ap once_size (k.cleaned ∙ rw (c) refl),
      r,
      close_again p v (ap (λ x. x.close_done) q ∙ k.once ∙ c)
          ∙ ap (λ x. x.close_err) q
          ∙ sym (close_result p w),
    )
