-- ===== src/Agents/Requests/Canceling.antt =====
-- What iwd gets as the reply to a request, and when its Cancel reaches the request.
use spiderw.Base.{
  ℕ, ◌≡◌, ◌∙◌, refl, Option, none, some, String, List, [], ◌∷◌, Bool-cases, inl, inr,
}
use spiderw.Errors.{Error}
use spiderw.Outside.{Peer, Trace, Returned, ask, abort}
use spiderw.Agents.{CoreAgent, unregister}
use spiderw.Agents.Requests.{
  Reply, secret, dbus_error, State, Callback, begin_request, done_request, handle_cancel,
  wrap_callback, dispatch_credential, canceled_error, replied, iwd_agent_error_canceled,
}

-- The credential that a reply gives.
abbrev pub given : {A : Type 0} → Reply A → Option A
given (secret x) = some x
given (dbus_error n e) = none

-- The credential that a callback returned with no error.
abbrev pub returned_ok : {A : Type 0} → Returned A → Option A
returned_ok (o, none) = o
returned_ok (o, some e) = none

abbrev pub error_name : {A : Type 0} → Reply A → Option String
error_name (secret x) = none
error_name (dbus_error n e) = some n

-- `some x` turned into nil, and nil into the name of the error.
abbrev pub canceled_unless : {A : Type 0} → Option A → Option String
canceled_unless none = some iwd_agent_error_canceled
canceled_unless (some x) = none

replied-given :
    {A : Type 0} (r : Returned A × State)
    → (given (replied r).0 ≡ returned_ok r.0)
      × (error_name (replied r).0 ≡ canceled_unless (returned_ok r.0))
      × ((replied r).1 ≡ r.1)
unfolding canceled_error
replied-given ((o, some e), s) = (refl, refl, refl)
replied-given ((none, none), s) = (refl, refl, refl)
replied-given ((some x, none), s) = (refl, refl, refl)

-- What may happen to the agent while the callback runs, as long as no other request begins or ends.
pub data Interruption : Type 0 where
  canceled unregistered : Interruption

abbrev unregistered_state : (Error × CoreAgent) × Trace → State
unregistered_state r = (r.0.1, r.1)

unfoldable pub interrupt : Peer → List Interruption → State → State
unfolding handle_cancel unregister
interrupt p [] s = s
interrupt p (canceled ∷ is) s = interrupt p is (handle_cancel p s)
interrupt p (unregistered ∷ is) s = interrupt p is (unregistered_state (unregister p s.0 s.1))

unregister-current_cancel :
    (p : Peer) (a : CoreAgent) (t : Trace)
    → (unregister p a t).0.1.current_cancel ≡ a.current_cancel
unfolding unregister
unregister-current_cancel p a t = elim (Bool-cases a.registered) [
  | inl r ↦ rw (r, unregister) refl
  | inr r ↦ rw (r, unregister) refl
]

-- An interruption leaves the context of the request recorded.
interrupt-current_cancel :
    (p : Peer) (n : ℕ) (is : List Interruption) (s : State)
    → s.0.current_cancel ≡ some n
    → (interrupt p is s).0.current_cancel ≡ some n
unfolding interrupt handle_cancel
interrupt-current_cancel p n [] s h = h
interrupt-current_cancel p n (canceled ∷ is) s h =
    interrupt-current_cancel p n is (handle_cancel p s) h
interrupt-current_cancel p n (unregistered ∷ is) s h =
    interrupt-current_cancel p n is _ (unregister-current_cancel p s.0 s.1 ∙ h)

recorded_canceled :
    (p : Peer) (n : ℕ) (s : State)
    → s.0.current_cancel ≡ some n
    → handle_cancel p s ≡ (s.0, (ask p (abort n) s.1).1)
unfolding handle_cancel
recorded_canceled p n s h = rw (handle_cancel, h) refl

-- A request to an agent with a callback, for any callback and whatever iwd and the client do to the
-- agent meanwhile: iwd gets the credential exactly if the callback returned it with no error, and
-- the error Canceled otherwise, and afterwards Cancel aborts nothing. After the request has begun and
-- any number of calls of Cancel and of `Unregister`, Cancel aborts the request's context; but after
-- another request has begun and ended meanwhile, Cancel aborts nothing.
pub request_reply :
    {A : Type 0} (p : Peer) (n m : ℕ) (fn : Callback A) (is : List Interruption) (s : State)
    → let r = dispatch_credential p n (some fn) s in
      let during = interrupt p is (begin_request n s) in
      let overlapped = done_request p m (begin_request m during) in
      (given r.0 ≡ returned_ok (fn (begin_request n s)).0)
      × (error_name r.0 ≡ canceled_unless (returned_ok (fn (begin_request n s)).0))
      × (handle_cancel p r.1 ≡ r.1)
      × (handle_cancel p during ≡ (during.0, (ask p (abort n) during.1).1))
      × (handle_cancel p overlapped ≡ overlapped)
unfolding dispatch_credential wrap_callback handle_cancel begin_request done_request
request_reply p n m fn is s =
    let (g, e, k) = replied-given (wrap_callback p n fn s) in
    (
      g,
      e,
      rw (k) refl,
      recorded_canceled p n _ (interrupt-current_cancel p n is (begin_request n s) refl),
      refl,
    )
