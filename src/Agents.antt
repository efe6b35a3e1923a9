-- ===== src/Agents.antt =====
-- The credentials agent: internal/iwdbus/agent.go (the agent manager, exporting the object) and
-- internal/core/agent.go (the handle that Unregister tears down).
pub mod Teardown
pub mod Requests
use spiderw.Base.{ℕ, Bool, true, false, not, ◌||◌, Option, none, some, String, ◌<>◌, if◌then◌else◌}
use spiderw.Failure.{Resource}
use spiderw.Errors.{Err, Error, sentinel, bus, bus_uninitialized, core_mark, plain, join, Object}
use spiderw.Errors.{wrap_connection, wrap_introspection, wrap_iwd_method, iwd_service}
use spiderw.Errors.{wrap_invalid_argument, wrap_unavailable, agent_unavailable_policy}
use spiderw.Errors.{connection}
use spiderw.Outside.{Peer, Io, Trace, Returned, ask, introspect, close_object}
use spiderw.Outside.{export, unexport, method, abort}

abbrev pub iwd_daemon_path : String
iwd_daemon_path = "/net/connman/iwd"

abbrev pub iwd_agent_manager_iface : String
iwd_agent_manager_iface = iwd_service <> ".AgentManager"

abbrev pub iwd_agent_iface : String
iwd_agent_iface = iwd_service <> ".Agent"

-- `AgentManager` of iwdbus: whether its field `intro` is set.
pub record AgentManager : Type 0 where
  pub intro : Bool

abbrev no_interface : Error
no_interface = some (plain "object does not implement the interface")

abbrev pub uninitialized_manager : Error
uninitialized_manager =
    wrap_connection "AgentManager.ensureInitialized"
      (some (sentinel (bus_uninitialized Object.agent_manager)))

-- What `NewAgentManager` does with the answer to the introspection.
unfoldable pub check_manager : Peer → Error × Trace → Returned AgentManager × Trace
unfolding ask
check_manager p (some e, t) = ((none, wrap_introspection iwd_daemon_path (some e)), t)
check_manager p (none, t) =
    if p.has_interface iwd_daemon_path iwd_agent_manager_iface
    then ((some (record { intro = true }), none), t)
    else (
      (none, wrap_introspection iwd_daemon_path no_interface),
      (ask p (close_object iwd_daemon_path) t).1,
    )

-- `NewAgentManager`.
unfoldable pub new_agent_manager : Peer → Io (Returned AgentManager)
unfolding ask check_manager
new_agent_manager p t = check_manager p (ask p (introspect iwd_daemon_path) t)

-- The answer to a method call of the agent manager.
abbrev wrap_answer : String → Error × Trace → Error × Trace
wrap_answer name r = (wrap_iwd_method iwd_agent_manager_iface name r.0, r.1)

-- `AgentManager.RegisterAgent` and `AgentManager.UnregisterAgent`, by the method's name.
unfoldable pub call_manager : Peer → String → AgentManager → String → Io Error
unfolding ask
call_manager p name m path t =
    if m.intro
    then wrap_answer name (ask p (method iwd_agent_manager_iface name path) t)
    else (uninitialized_manager, t)

unfoldable pub register_agent : Peer → AgentManager → String → Io Error
unfolding call_manager
register_agent p m path = call_manager p "RegisterAgent" m path

unfoldable pub unregister_agent : Peer → AgentManager → String → Io Error
unfolding call_manager
unregister_agent p m path = call_manager p "UnregisterAgent" m path

abbrev pub exported : String → Error × Trace → Returned String × Trace
exported path (some e, t) = ((none, wrap_connection "ExportAgent" (some e)), t)
exported path (none, t) = ((some path, none), t)

-- `ExportAgent`; the function to unexport is given by the object's path.
unfoldable pub export_agent : Peer → Bool → String → Io (Returned String)
unfolding ask
export_agent p conn path t =
    if not conn
    then ((none, wrap_connection "ExportAgent" (some (sentinel (bus connection)))), t)
    else if not (p.is_valid_path path)
    then ((none, wrap_connection "ExportAgent" (some (plain "invalid agent object path"))), t)
    else exported path (ask p (export path iwd_agent_iface) t)

-- The function that `ExportAgent` returns for `path`.
unfoldable pub unexport_agent : Peer → String → Io Error
unfolding ask
unexport_agent p path t = ask p (unexport path iwd_agent_iface) t

-- `CredentialCallbacks`: a callback gets the network's path and for `UserPassword` the user too, and
-- gives the credential or an error.
pub record CredentialCallbacks : Type 0 where
  pub passphrase : Option (String → Returned String)
  pub private_key_passphrase : Option (String → Returned String)
  pub user_name_and_password : Option (String → Returned (String × String))
  pub user_password : Option (String → String → Returned String)

abbrev is_set : {A : Type 0} → Option A → Bool
is_set none = false
is_set (some x) = true

-- `hasRequestCallback`.
unfoldable pub has_request_callback : CredentialCallbacks → Bool
has_request_callback c =
    is_set c.passphrase
    || is_set c.private_key_passphrase
    || is_set c.user_name_and_password
    || is_set c.user_password

-- `CredentialCallbacks.Validate`.
unfoldable pub validate : String → CredentialCallbacks → Error
unfolding has_request_callback
validate op c =
    if not (has_request_callback c)
    then wrap_invalid_argument Resource.agent op
        "at least one credential-request callback must be set" (some (sentinel core_mark))
    else none

-- `Agent` of core; the function `unexport` is given by the path of the object that it removes, and
-- `current_cancel` by the number of the context that it cancels.
pub record CoreAgent : Type 0 where
  pub callbacks : CredentialCallbacks
  pub current_cancel : Option ℕ
  pub registered : Bool
  pub manager : Option AgentManager
  pub path : String
  pub unexport : Option String

-- `NewAgent` of core.
unfoldable pub new_core_agent : CredentialCallbacks → CoreAgent
new_core_agent c = record {
  callbacks = c;
  current_cancel = none;
  registered = false;
  manager = none;
  path = "";
  unexport = none;
}

-- `Bind`.
unfoldable pub bind : AgentManager → String → String → CoreAgent → CoreAgent
bind m p u a = record a { manager = some m; path = p; unexport = some u; registered = true }

abbrev abort_request : Peer → Option ℕ → Trace → Trace
abort_request p none t = t
abort_request p (some n) t = (ask p (abort n) t).1

abbrev unavailable : String → Error × Trace → Error × Trace
unavailable details r =
    (wrap_unavailable agent_unavailable_policy "Agent.Unregister" details r.0, r.1)

abbrev unregister_manager : Peer → Option AgentManager → String → Io Error
unregister_manager p none path t = (none, t)
unregister_manager p (some m) path t =
    unavailable "failed unregistering iwd agent" (unregister_agent p m path t)

abbrev unexport_object : Peer → Option String → Io Error
unexport_object p none t = (none, t)
unexport_object p (some u) t = unavailable "failed unexporting agent object" (unexport_agent p u t)

-- The part of `Unregister` after the lock is released.
unfoldable pub tear_down : Peer → CoreAgent → Io Error
unfolding ask unregister_agent unexport_agent
tear_down p a t =
    let r = unregister_manager p a.manager a.path (abort_request p a.current_cancel t) in
    let u = unexport_object p a.unexport r.1 in (join r.0 u.0, u.1)

abbrev torn : CoreAgent → Error × Trace → (Error × CoreAgent) × Trace
torn a r = ((r.0, a), r.1)

-- `Agent.Unregister` of core on an agent that is not nil.
unfoldable pub unregister : Peer → CoreAgent → Trace → (Error × CoreAgent) × Trace
unfolding tear_down
unregister p a t =
    if not a.registered
    then ((none, a), t)
    else torn (record a { registered = false }) (tear_down p a t)
