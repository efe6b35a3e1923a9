-- ===== src/Connect/SignalMonitor.antt =====
-- `NewSignalLevelAgent` of internal/connect/wiring.go, and `MonitorSignalLevel` of signalagent.go.
pub mod Registered
pub mod Unexported
use spiderw.Base.{Bool, true, not, ◌||◌, none, some, Option, String, ◌<>◌, if◌then◌else◌}
use spiderw.Base.Text.{is_blank, is_absolute}
use spiderw.Failure.{Resource}
use spiderw.Errors.{Error, sentinel, core_mark, plain, wrap_unavailable, station_unavailable_policy}
use spiderw.Errors.{
  wrap_invalid_argument, wrap_introspection, wrap_public_error, public_mark, PublicMark,
}
use spiderw.Outside.{Peer, Io, Trace, Returned}
use spiderw.SignalAgent.{SignalLevelConfig, validate}
use spiderw.SignalAgent.Handle.{
  IwdStation, SignalLevelAgent, new_signal_level_agent, export_signal_level_agent,
  unexport_signal_level_agent, register_signal_level_agent, bind,
}
use spiderw.Connect.{CoreObject, Wiring, nil_wiring, nil_conn, new_raw}
use spiderw.Connect.Constructors.{station_spec}

-- `signalLevelAgentObjectPath`.
unfoldable pub signal_level_agent_object_path : String → String
signal_level_agent_object_path station_path = "/spiderw/signalagent" <> station_path

abbrev pub unavailable : String → Error → Returned SignalLevelAgent
unavailable details e =
    (none, wrap_unavailable station_unavailable_policy "NewSignalLevelAgent" details e)

-- The branch that unexports the object before it returns an error.
abbrev pub on_registered :
    Peer
    → IwdStation
    → String
    → String
    → SignalLevelAgent
    → Error × Trace
    → Returned SignalLevelAgent × Trace
on_registered p s path u a (some e, t) = (
  unavailable "failed registering signal level agent" (some e),
  (unexport_signal_level_agent p u t).1,
)
on_registered p s path u a (none, t) = ((some (bind s path u a), none), t)

abbrev pub on_exported :
    Peer
    → IwdStation
    → String
    → SignalLevelAgent
    → Returned String × Trace
    → Returned SignalLevelAgent × Trace
on_exported p s path a ((_, some e), t) =
    (unavailable "failed exporting signal level agent object" (some e), t)
on_exported p s path a ((none, none), t) =
    (unavailable "failed exporting signal level agent object" (some (plain "no object")), t)  -- never returned
on_exported p s path a ((some u, none), t) =
    on_registered p s path u a (register_signal_level_agent p s path a.levels t)

abbrev pub on_station :
    Peer
    → Bool
    → String
    → SignalLevelConfig
    → Returned CoreObject × Trace
    → Returned SignalLevelAgent × Trace
on_station p conn station_path c ((_, some e), t) = (unavailable "station unavailable" (some e), t)
on_station p conn station_path c ((none, none), t) = (
  unavailable "station unavailable"
      (wrap_introspection station_path (some (plain "iwd station interface not available"))),
  t,
)
on_station p conn station_path c ((some raw, none), t) =
    let path = signal_level_agent_object_path station_path in
    on_exported p (record { path = raw.path; call = true }) path (new_signal_level_agent c)
      (export_signal_level_agent p conn path t)

-- `NewSignalLevelAgent`.
unfoldable pub new_agent :
    Peer → Option Wiring → String → SignalLevelConfig → Io (Returned SignalLevelAgent)
unfolding unexport_signal_level_agent bind new_signal_level_agent
new_agent p none station_path c t = ((none, nil_wiring "NewSignalLevelAgent"), t)
new_agent p (some w) station_path c t = elim w.signal_agent_factory [
  | some factory ↦ (factory station_path c, t)
  | none ↦
      if not w.conn
      then ((none, nil_conn "NewSignalLevelAgent"), t)
      else if is_blank station_path || not (is_absolute station_path)
      then (
        (
          none,
          wrap_invalid_argument Resource.station "NewSignalLevelAgent"
              "station path must be absolute" (some (sentinel core_mark)),
        ),
        t,
      )
      else on_station p w.conn station_path c (new_raw p station_spec station_path t)
]

-- What `MonitorSignalLevel` makes of the result of the hook.
abbrev pub monitored : Returned SignalLevelAgent × Trace → Returned SignalLevelAgent × Trace
monitored ((_, some e), t) = ((none, wrap_public_error "Station.MonitorSignalLevel" (some e)), t)
monitored ((none, none), t) = (
  (
    none,
    wrap_public_error "Station.MonitorSignalLevel"
        (some (sentinel (public_mark PublicMark.internal))),
  ),
  t,
)
monitored ((some a, none), t) = ((some a, none), t)

-- `MonitorSignalLevel` of a station that the client made, whose hook is `NewSignalLevelAgent`.
unfoldable pub monitor_signal_level :
    Peer → Wiring → String → SignalLevelConfig → Io (Returned SignalLevelAgent)
unfolding new_agent
monitor_signal_level p w station_path c t = elim (validate "Station.MonitorSignalLevel" c) [
  | some e ↦ ((none, wrap_public_error "Station.MonitorSignalLevel" (some e)), t)
  | none ↦ monitored (new_agent p (some w) station_path c t)
]
