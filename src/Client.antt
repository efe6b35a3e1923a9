-- ===== src/Client.antt =====
-- client.go and agent.go: the client, the agents that it has registered, and the operations on
-- them, each called when the one before has returned. The branches for a nil receiver are left out.
pub mod Handles
pub mod Runs
pub mod Invariant
pub mod Closing
pub mod Registering
pub mod Promises
pub mod Opening
mod Tests
use spiderw.Base.{ℕ, ◌+◌, Bool, true, false, not, Option, none, some, String, List, [], ◌∷◌}
use spiderw.Base.{◌==◌, if◌then◌else◌}
use spiderw.Failure.{Kind, Resource}
use spiderw.Errors.{Err, Error, sentinel, public_mark, PublicMark, public_error, as_public}
use spiderw.Errors.{wrap_public_error}
use spiderw.Outside.{Peer, Trace, Returned, ask, close_conn}
use spiderw.Agents
use spiderw.Agents.{CredentialCallbacks, CoreAgent}
use spiderw.Connect.{Wiring}
use spiderw.Connect.Credentials.{new_agent}

-- The public `Agent`: the core agent behind it, and whether `clearOnce` has run. Its field `clear`
-- is the closure that `RegisterAgent` makes.
pub record Agent : Type 0 where
  pub core : CoreAgent
  pub cleared : Bool

-- `Client`. The field `agent` points to one of the agents of the world; `daemon` and `cleanup` say
-- whether the pointer and the function are set; `close_done` is the state of `closeOnce`.
pub record Client : Type 0 where
  pub daemon : Bool
  pub wire : Option Wiring
  pub cleanup : Bool
  pub agent : Option ℕ
  pub closed : Bool
  pub close_done : Bool
  pub close_err : Error

-- A client with all agents that it made, numbered from 0, and the state of the `cleanup` closure of
-- `newConn`.
pub record World : Type 0 where
  pub client : Client
  pub agents : ℕ → Agent
  pub next : ℕ
  pub cleanup_done : Bool
  pub cleanup_err : Error
  pub trace : Trace

-- The closure `cleanup` of `newConn`, which closes the connection once.
abbrev cleaned : World → Error × Trace → Error × World
cleaned w r = (r.0, record w { cleanup_done = true; cleanup_err = r.0; trace = r.1 })

unfoldable pub cleanup : Peer → World → Error × World
unfolding ask
cleanup p w = if w.cleanup_done then (w.cleanup_err, w) else cleaned w (ask p close_conn w.trace)

abbrev pub put : ℕ → Agent → (ℕ → Agent) → ℕ → Agent
put i a f j = if j == i then a else f j

abbrev pub points_to : Option ℕ → ℕ → Bool
points_to none i = false
points_to (some j) i = j == i

-- The closure `clear` of agent `i`.
abbrev pub clear : ℕ → Client → Client
clear i c = if points_to c.agent i then record c { agent = none } else c

-- What `Agent.Unregister` does after the core agent's `Unregister`.
abbrev unregistered : ℕ → World → (Error × CoreAgent) × Trace → Error × World
unregistered i w r = (
  wrap_public_error "Agent.Unregister" r.0.0,
  record w {
    agents = put i (record { core = r.0.1; cleared = true }) w.agents;
    client = if (w.agents i).cleared then w.client else clear i w.client;
    trace = r.1;
  },
)

-- `Agent.Unregister` of the public package, on agent `i`.
unfoldable pub unregister : Peer → ℕ → World → Error × World
unregister p i w = unregistered i w (Agents.unregister p (w.agents i).core w.trace)

-- The error that `Close` keeps.
unfoldable pub close_error : Error → Error
close_error none = none
close_error (some e) = elim (as_public e) [
  | some c ↦ some e
  | none ↦ wrap_public_error "Client.Close" (some e)
]

abbrev pub mark_closed : World → World
mark_closed w = record w {
  client = record w.client { closed = true; daemon = false; agent = none; close_done = true };
}

abbrev pub unregister_live : Peer → Option ℕ → World → World
unregister_live p none w = w
unregister_live p (some i) w = (unregister p i w).1

abbrev pub keep_error : Error × World → World
keep_error r = record r.1 { client = record r.1.client { close_err = close_error r.0 } }

-- The function that `Close` runs by `closeOnce`.
unfoldable pub close_once : Peer → World → World
unfolding cleanup unregister close_error
close_once p w =
    let u = unregister_live p w.client.agent (mark_closed w) in
    if not w.client.cleanup then u else keep_error (cleanup p u)

abbrev pub with_error : World → Error × World
with_error w = (w.client.close_err, w)

-- `Client.Close`.
unfoldable pub close : Peer → World → Error × World
unfolding close_once
close p w = if w.client.close_done then with_error w else with_error (close_once p w)

abbrev pub internal : String → Error
internal op = wrap_public_error op (some (sentinel (public_mark PublicMark.internal)))

abbrev pub invalid_state : Resource → String → Error
invalid_state r op =
    some (public_error Kind.invalid_state r op "" (sentinel (public_mark PublicMark.invalid_state)))

-- The end of `RegisterAgent`, with what `NewAgent` returned.
abbrev pub store : World → Returned CoreAgent × Trace → Returned ℕ × World
store w ((_, some e), t) =
    ((none, wrap_public_error "Client.RegisterAgent" (some e)), record w { trace = t })
store w ((none, none), t) = ((none, internal "Client.RegisterAgent"), record w { trace = t })
store w ((some a, none), t) = (
  (some w.next, none),
  record w {
    agents = put w.next (record { core = a; cleared = false }) w.agents;
    next = w.next + 1;
    client = record w.client { agent = some w.next };
    trace = t;
  },
)

abbrev pub is_some : {A : Type 0} → Option A → Bool
is_some none = false
is_some (some x) = true

-- `RegisterAgent` under the lock.
unfoldable pub register_locked : Peer → CredentialCallbacks → World → Returned ℕ × World
unfolding new_agent
register_locked p callbacks w =
    if w.client.closed
    then ((none, invalid_state Resource.client "Client.RegisterAgent"), w)
    else if not (is_some w.client.wire)
    then ((none, internal "Client.RegisterAgent"), w)
    else if is_some w.client.agent
    then ((none, invalid_state Resource.agent "Client.RegisterAgent"), w)
    else store w (new_agent p w.client.wire callbacks w.trace)

-- `Client.RegisterAgent`; the result is the number of the new agent.
unfoldable pub register_agent : Peer → CredentialCallbacks → World → Returned ℕ × World
unfolding register_locked
register_agent p callbacks w = elim (Agents.validate "Client.RegisterAgent" callbacks) [
  | some e ↦ ((none, wrap_public_error "Client.RegisterAgent" (some e)), w)
  | none ↦ register_locked p callbacks w
]

-- `Client.Daemon`: whether there is one.
unfoldable pub daemon : World → Bool
daemon w = if w.client.closed then false else w.client.daemon
