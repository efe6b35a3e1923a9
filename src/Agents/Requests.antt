-- ===== src/Agents/Requests.antt =====
-- The requests that iwd makes of the exported credentials agent: `agentObject` of
-- internal/iwdbus/agent.go, and the context of a request that internal/core/agent.go keeps.
pub mod Canceling
use spiderw.Base.{ℕ, Bool, true, false, not, Option, none, some, String, ◌<>◌, ◌∷◌}
use spiderw.Errors.{Err, Error}
use spiderw.Outside.{Peer, Trace, Returned, ask, abort}
use spiderw.Agents.{CoreAgent, CredentialCallbacks, iwd_agent_iface}

abbrev pub iwd_agent_error_canceled : String
iwd_agent_error_canceled = iwd_agent_iface <> ".Error.Canceled"

-- The reply to iwd: the credential, or the D-Bus error with its name and the error whose text it
-- carries, if there is one.
pub data Reply (A : Type 0) : Type 0 where
  secret : A → Reply A
  dbus_error : String → Error → Reply A

-- `canceledError`.
unfoldable pub canceled_error : {A : Type 0} → Error → Reply A
canceled_error e = dbus_error iwd_agent_error_canceled e

-- The state that a request changes: the agent and the trace.
abbrev pub State : Type 0
State = CoreAgent × Trace

-- `beginRequest`, for a context with the number `n`.
unfoldable pub begin_request : ℕ → State → State
begin_request n (a, t) = (record a { current_cancel = some n }, t)

-- The function `done` that `beginRequest` returns.
unfoldable pub done_request : Peer → ℕ → State → State
unfolding ask
done_request p n (a, t) = (record a { current_cancel = none }, (ask p (abort n) t).1)

-- `handleCancel`, before it calls `OnCancel`.
abbrev pub cancel_current : Peer → Option ℕ → Trace → Trace
cancel_current p none t = t
cancel_current p (some n) t = (ask p (abort n) t).1

unfoldable pub handle_cancel : Peer → State → State
unfolding ask
handle_cancel p (a, t) = (a, cancel_current p a.current_cancel t)

-- A callback at work: what it returns, and how it leaves the state, in which iwd may have canceled
-- the request or the agent may have been unregistered meanwhile.
abbrev pub Callback : Type 0 → Type 0
Callback A = State → Returned A × State

-- The closures of `wrapSecret`, `wrapUserNameAndPassword` and `wrapUserPassword`, with the callback
-- given its arguments.
abbrev finished : {A : Type 0} → Peer → ℕ → Returned A × State → Returned A × State
finished p n r = (r.0, done_request p n r.1)

unfoldable pub wrap_callback : {A : Type 0} → Peer → ℕ → Callback A → Callback A
unfolding begin_request done_request
wrap_callback p n fn s = finished p n (fn (begin_request n s))

abbrev replied : {A : Type 0} → Returned A × State → Reply A × State
replied ((_, some e), s) = (canceled_error (some e), s)
replied ((none, none), s) = (canceled_error none, s)  -- never returned
replied ((some x, none), s) = (secret x, s)

-- `dispatchCredential`, `RequestUserNameAndPassword` and `RequestUserPassword`, with the handler's
-- function given its arguments, or nil.
unfoldable pub dispatch_credential :
    {A : Type 0} → Peer → ℕ → Option (Callback A) → State → Reply A × State
unfolding canceled_error wrap_callback
dispatch_credential p n none s = (canceled_error none, s)
dispatch_credential p n (some fn) s = replied (wrap_callback p n fn s)
