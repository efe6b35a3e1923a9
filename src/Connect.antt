-- ===== src/Connect.antt =====
-- internal/connect/wiring.go: building the core objects over one D-Bus connection, and the
-- constructors New… of internal/iwdbus (adapter.go, device.go, station.go, bss.go, network.go,
-- knownnetwork.go, wsc.go and accesspoint.go) that they call.
mod Tests
pub mod Objects
pub mod Credentials
pub mod Opening
pub mod SignalMonitor
pub mod Constructors
use spiderw.Base.{Bool, true, false, not, Option, none, some, String, ◌<>◌, if◌then◌else◌}
use spiderw.Base.Text.{is_absolute, is_blank}
use spiderw.Failure.{Resource}
use spiderw.Errors.{Err, Error, sentinel, core_mark, plain, Object, iwd_service}
use spiderw.Errors.{wrap_introspection, wrap_invalid_state, wrap_invalid_argument, wrap_unavailable}
use spiderw.Errors.{
  UnavailablePolicy, adapter_unavailable_policy, device_unavailable_policy,
  station_unavailable_policy, bss_unavailable_policy, network_unavailable_policy,
  known_network_unavailable_policy, simple_configuration_unavailable_policy,
  access_point_unavailable_policy, agent_unavailable_policy,
}
use spiderw.Outside.{Peer, Io, Trace, Returned, ask, introspect, close_object}
use spiderw.Agents
use spiderw.SignalAgent.{SignalLevelConfig}
use spiderw.SignalAgent.Handle.{SignalLevelAgent}

-- An object of internal/iwdbus or of internal/core: what it wraps and where it is.
pub record CoreObject : Type 0 where
  pub kind : Object
  pub path : String

-- `Wiring`: whether `Conn`, `Daemon` and `Cleanup` are set, and the factories by which a test
-- replaces the construction of an object or of an agent.
pub record Wiring : Type 0 where
  pub conn : Bool
  pub daemon : Bool
  pub cleanup : Bool
  pub object_factory : Object → Option (String → Returned CoreObject)
  pub agent_factory : Option (Agents.CredentialCallbacks → Returned Agents.CoreAgent)
  pub signal_agent_factory : Option (String → SignalLevelConfig → Returned SignalLevelAgent)

-- What tells one constructor from another.
pub record Spec : Type 0 where
  pub op : String
  pub noun : String
  pub iface : String
  pub kind : Object
  pub resource : Resource
  pub policy : UnavailablePolicy

-- `NewAdapter`, …, `NewAccessPoint` of internal/iwdbus.
abbrev check_interface : Peer → Spec → String → Error × Trace → Returned CoreObject × Trace
check_interface p s path (some e, t) = ((none, wrap_introspection path (some e)), t)
check_interface p s path (none, t) =
    if not (p.has_interface path s.iface)
    then (
      (none, some (plain "object does not implement the interface")),
      (ask p (close_object path) t).1,
    )
    else ((some (record { kind = s.kind; path = path }), none), t)

unfoldable pub new_raw : Peer → Spec → String → Io (Returned CoreObject)
unfolding ask
new_raw p s path t = check_interface p s path (ask p (introspect path) t)

-- `NewAdapter`, …, `NewAccessPoint` of internal/core: nil for nil.
unfoldable pub new_core : Option CoreObject → Option CoreObject
new_core raw = raw

abbrev unavailable : Spec → Error → Error
unavailable s e = wrap_unavailable s.policy s.op (s.noun <> " unavailable") e

abbrev core_object : Spec → Option CoreObject → Returned CoreObject
core_object s none =
    (none, unavailable s (some (plain ("core " <> s.noun <> " interface not available"))))
core_object s (some o) = (some o, none)

abbrev wrap_raw : Spec → String → Returned CoreObject → Returned CoreObject
wrap_raw s path (_, some e) = (none, unavailable s (some e))
wrap_raw s path (none, none) = (
  none,
  unavailable s
      (wrap_introspection path (some (plain ("iwd " <> s.noun <> " interface not available")))),
)
wrap_raw s path (some raw, none) = core_object s (new_core (some raw))

abbrev pub on_raw : Spec → String → Returned CoreObject × Trace → Returned CoreObject × Trace
on_raw s path r = (wrap_raw s path r.0, r.1)

abbrev nil_wiring : String → Error
nil_wiring op =
    wrap_invalid_state Resource.client op "wiring cannot be nil" (some (sentinel core_mark))

abbrev nil_conn : String → Error
nil_conn op =
    wrap_invalid_state Resource.client op "D-Bus conn cannot be nil" (some (sentinel core_mark))

abbrev bad_path : Spec → String → Error
bad_path s details =
    wrap_invalid_argument s.resource s.op (s.noun <> details) (some (sentinel core_mark))

-- The body of a constructor after its tests of `w` and of the path.
unfoldable pub construct : Peer → Spec → Wiring → String → Io (Returned CoreObject)
unfolding new_raw new_core
construct p s w path t = elim (w.object_factory s.kind) [
  | some factory ↦ (factory path, t)
  | none ↦ if not w.conn then ((none, nil_conn s.op), t) else on_raw s path (new_raw p s path t)
]

-- The method `New…` of `Wiring` that `s` describes.
unfoldable pub new_object : Spec → Peer → Option Wiring → String → Io (Returned CoreObject)
unfolding construct
new_object s p none path t = ((none, nil_wiring s.op), t)
new_object s p (some w) path t =
    if is_blank path
    then ((none, bad_path s " path cannot be empty"), t)
    else if not (is_absolute path)
    then ((none, bad_path s " path must be absolute"), t)
    else construct p s w path t
