-- ===== src/SignalAgent/Handle.antt =====
-- The handle of a signal-level agent: the rest of internal/core/signalagent.go, the exporting of
-- internal/iwdbus/signalagent.go, and the two methods of internal/iwdbus/station.go that it calls.
pub mod Teardown
use spiderw.Base.{
  Bool, true, false, not, Option, none, some, String, ◌<>◌, List, [], ◌∷◌, ℤ, if◌then◌else◌,
}
use spiderw.Errors.{Err, Error, sentinel, bus, bus_uninitialized, connection, plain, join, Object}
use spiderw.Errors.{
  wrap_connection, wrap_iwd_method, wrap_unavailable, station_unavailable_policy, iwd_service,
}
use spiderw.Outside.{Peer, Io, Trace, Returned, ask, export, unexport, method_at}
use spiderw.SignalAgent.{SignalLevelConfig, levels}

abbrev pub iwd_station_iface : String
iwd_station_iface = iwd_service <> ".Station"

abbrev pub iwd_signal_level_agent_iface : String
iwd_signal_level_agent_iface = iwd_service <> ".SignalLevelAgent"

-- `Station` of internal/iwdbus: its path, and whether its field `call` is set.
pub record IwdStation : Type 0 where
  pub path : String
  pub call : Bool

abbrev wrap_answer : String → Error × Trace → Error × Trace
wrap_answer name r = (wrap_iwd_method iwd_station_iface name r.0, r.1)

abbrev pub uninitialized_station : Error
uninitialized_station =
    wrap_connection "Station.ensureInitialized" (some (sentinel (bus_uninitialized Object.station)))

-- `Station.RegisterSignalLevelAgent`.
unfoldable pub register_signal_level_agent : Peer → IwdStation → String → List ℤ → Io Error
unfolding ask
register_signal_level_agent p s agent_path ls t =
    if s.call
    then wrap_answer "RegisterSignalLevelAgent"
        (ask p (method_at s.path iwd_station_iface "RegisterSignalLevelAgent" agent_path ls) t)
    else (uninitialized_station, t)

-- `Station.UnregisterSignalLevelAgent`.
unfoldable pub unregister_signal_level_agent : Peer → IwdStation → String → Io Error
unfolding ask
unregister_signal_level_agent p s agent_path t =
    if s.call
    then wrap_answer "UnregisterSignalLevelAgent"
        (ask p (method_at s.path iwd_station_iface "UnregisterSignalLevelAgent" agent_path []) t)
    else (uninitialized_station, t)

abbrev pub exported : String → Error × Trace → Returned String × Trace
exported path (some e, t) = ((none, wrap_connection "ExportSignalLevelAgent" (some e)), t)
exported path (none, t) = ((some path, none), t)

-- `ExportSignalLevelAgent`; the function to unexport is given by the object's path.
unfoldable pub export_signal_level_agent : Peer → Bool → String → Io (Returned String)
unfolding ask
export_signal_level_agent p conn path t =
    if not conn
    then ((none, wrap_connection "ExportSignalLevelAgent" (some (sentinel (bus connection)))), t)
    else if not (p.is_valid_path path)
    then (
      (
        none,
        wrap_connection "ExportSignalLevelAgent"
            (some (plain "invalid signal level agent object path")),
      ),
      t,
    )
    else exported path (ask p (export path iwd_signal_level_agent_iface) t)

-- The function that `ExportSignalLevelAgent` returns for `path`.
unfoldable pub unexport_signal_level_agent : Peer → String → Io Error
unfolding ask
unexport_signal_level_agent p path t = ask p (unexport path iwd_signal_level_agent_iface) t

-- `SignalLevelAgent`; its callbacks are left out.
pub record SignalLevelAgent : Type 0 where
  pub levels : List ℤ
  pub registered : Bool
  pub registrar : Option IwdStation
  pub path : String
  pub unexport : Option String

-- `NewSignalLevelAgent`.
unfoldable pub new_signal_level_agent : SignalLevelConfig → SignalLevelAgent
new_signal_level_agent c = record {
  levels = levels c;
  registered = false;
  registrar = none;
  path = "";
  unexport = none;
}

-- `Bind`.
unfoldable pub bind : IwdStation → String → String → SignalLevelAgent → SignalLevelAgent
bind s p u a = record a { registrar = some s; path = p; unexport = some u; registered = true }

abbrev unavailable : String → Error × Trace → Error × Trace
unavailable details r =
    (wrap_unavailable station_unavailable_policy "SignalLevelAgent.Unregister" details r.0, r.1)

abbrev unregister_registrar : Peer → Option IwdStation → String → Io Error
unregister_registrar p none path t = (none, t)
unregister_registrar p (some s) path t =
    unavailable "failed unregistering signal level agent" (unregister_signal_level_agent p s path t)

abbrev unexport_object : Peer → Option String → Io Error
unexport_object p none t = (none, t)
unexport_object p (some u) t =
    unavailable "failed unexporting signal level agent object" (unexport_signal_level_agent p u t)

-- The part of `Unregister` after the lock is released.
unfoldable pub tear_down : Peer → SignalLevelAgent → Io Error
unfolding unregister_signal_level_agent unexport_signal_level_agent
tear_down p a t =
    let r = unregister_registrar p a.registrar a.path t in
    let u = unexport_object p a.unexport r.1 in (join r.0 u.0, u.1)

abbrev torn : SignalLevelAgent → Error × Trace → (Error × SignalLevelAgent) × Trace
torn a r = ((r.0, a), r.1)

-- `Unregister` on an agent that is not nil.
unfoldable pub unregister : Peer → SignalLevelAgent → Trace → (Error × SignalLevelAgent) × Trace
unfolding tear_down
unregister p a t =
    if not a.registered
    then ((none, a), t)
    else torn (record a { registered = false }) (tear_down p a t)
