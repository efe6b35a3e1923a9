-- ===== src/Errors/Bus.antt =====
-- internal/iwdbus/errors.go and internal/iwdbus/iwderrors.go: how the D-Bus layer wraps errors.
use spiderw.Base.{Option, none, some, String, ◌<>◌, List, [], ◌∷◌, str_eq, if◌then◌else◌}
use mathlib.Core.Option
use spiderw.Errors.Tree.{
  IwdOutcome, no_agent, aborted, busy, failed, not_supported, timeout, in_progress, not_configured,
  not_found, already_exists, invalid_arguments, invalid_format, not_connected, not_implemented,
  service_set_overlap, already_provisioned, not_hidden, not_available, permission_denied,
  wsc_session_overlap, wsc_no_credentials, wsc_not_reachable, wsc_walk_time_expired,
  wsc_time_expired, connection, method, property, introspection, variant,
}
use spiderw.Errors.Tree.{Sentinel, iwd, Err, Error, sentinel, annotated, bus_error, as_dbus}

abbrev pub iwd_service : String
iwd_service = "net.connman.iwd"

abbrev pub iwd_simple_configuration_iface : String
iwd_simple_configuration_iface = iwd_service <> ".SimpleConfiguration"

-- The constants `IwdError…`: the name that iwd puts in its reply for an outcome.
unfoldable pub iwd_error_name : IwdOutcome → String
iwd_error_name no_agent = iwd_service <> ".NoAgent"
iwd_error_name aborted = iwd_service <> ".Aborted"
iwd_error_name busy = iwd_service <> ".Busy"
iwd_error_name failed = iwd_service <> ".Failed"
iwd_error_name not_supported = iwd_service <> ".NotSupported"
iwd_error_name timeout = iwd_service <> ".Timeout"
iwd_error_name in_progress = iwd_service <> ".InProgress"
iwd_error_name not_configured = iwd_service <> ".NotConfigured"
iwd_error_name not_found = iwd_service <> ".NotFound"
iwd_error_name already_exists = iwd_service <> ".AlreadyExists"
iwd_error_name invalid_arguments = iwd_service <> ".InvalidArguments"
iwd_error_name invalid_format = iwd_service <> ".InvalidFormat"
iwd_error_name not_connected = iwd_service <> ".NotConnected"
iwd_error_name not_implemented = iwd_service <> ".NotImplemented"
iwd_error_name service_set_overlap = iwd_service <> ".ServiceSetOverlap"
iwd_error_name already_provisioned = iwd_service <> ".AlreadyProvisioned"
iwd_error_name not_hidden = iwd_service <> ".NotHidden"
iwd_error_name not_available = iwd_service <> ".NotAvailable"
iwd_error_name permission_denied = iwd_service <> ".PermissionDenied"
iwd_error_name wsc_session_overlap = iwd_simple_configuration_iface <> ".SessionOverlap"
iwd_error_name wsc_no_credentials = iwd_simple_configuration_iface <> ".NoCredentials"
iwd_error_name wsc_not_reachable = iwd_simple_configuration_iface <> ".NotReachable"
iwd_error_name wsc_walk_time_expired = iwd_simple_configuration_iface <> ".WalkTimeExpired"
iwd_error_name wsc_time_expired = iwd_simple_configuration_iface <> ".TimeExpired"

abbrev row : IwdOutcome → String × IwdOutcome
row o = (iwd_error_name o, o)

-- The table `iwdErrorSentinels`.
unfoldable pub iwd_error_sentinels : List (String × IwdOutcome)
unfolding iwd_error_name
iwd_error_sentinels =
    row no_agent
    ∷ row aborted
    ∷ row busy
    ∷ row failed
    ∷ row not_supported
    ∷ row timeout
    ∷ row in_progress
    ∷ row not_configured
    ∷ row not_found
    ∷ row already_exists
    ∷ row invalid_arguments
    ∷ row invalid_format
    ∷ row not_connected
    ∷ row not_implemented
    ∷ row service_set_overlap
    ∷ row already_provisioned
    ∷ row not_hidden
    ∷ row not_available
    ∷ row permission_denied
    ∷ row wsc_session_overlap
    ∷ row wsc_no_credentials
    ∷ row wsc_not_reachable
    ∷ row wsc_walk_time_expired
    ∷ row wsc_time_expired
    ∷ []

unfoldable pub table_lookup : String → List (String × IwdOutcome) → Option IwdOutcome
table_lookup n [] = none
table_lookup n ((k, o) ∷ rows) = if str_eq k n then some o else table_lookup n rows

-- `iwdErrorSentinel`: the sentinel of a recognised iwd error, looked up by its D-Bus name.
unfoldable pub iwd_error_sentinel : Err → Option Sentinel
unfolding table_lookup iwd_error_sentinels as_dbus
iwd_error_sentinel e = elim (as_dbus e) [
  | none ↦ none
  | some n ↦ Option.map iwd (table_lookup n iwd_error_sentinels)
]

abbrev pub method_context : String → String → String
method_context iface name = "iface=" <> iface <> ", method=" <> name

abbrev pub property_context : String → String → String
property_context iface name = "iface=" <> iface <> ", property=" <> name

-- `WrapConnection`, `WrapMethod`, `WrapProperty`, `WrapIntrospection` and `WrapVariant`.
unfoldable pub wrap_connection : String → Error → Error
wrap_connection op none = none
wrap_connection op (some e) = some (bus_error connection ("op=" <> op) e)

unfoldable pub wrap_method : String → String → Error → Error
wrap_method iface name none = none
wrap_method iface name (some e) = some (bus_error method (method_context iface name) e)

unfoldable pub wrap_property : String → String → Error → Error
wrap_property iface name none = none
wrap_property iface name (some e) = some (bus_error property (property_context iface name) e)

unfoldable pub wrap_introspection : String → Error → Error
wrap_introspection path none = none
wrap_introspection path (some e) = some (bus_error introspection ("path=" <> path) e)

unfoldable pub wrap_variant : String → Error → Error
wrap_variant name none = none
wrap_variant name (some e) = some (bus_error variant ("variant=" <> name) e)

-- `wrapIwdMethod` and `wrapIwdProperty`: as `WrapMethod` and `WrapProperty`, with the sentinel of
-- a recognised iwd error put in front of the error.
unfoldable pub wrap_iwd_method : String → String → Error → Error
unfolding wrap_method
wrap_iwd_method iface name none = none
wrap_iwd_method iface name (some e) = elim (iwd_error_sentinel e) [
  | some s ↦ some (bus_error method (method_context iface name) (annotated (sentinel s) e))
  | none ↦ wrap_method iface name (some e)
]

unfoldable pub wrap_iwd_property : String → String → Error → Error
unfolding wrap_property
wrap_iwd_property iface name none = none
wrap_iwd_property iface name (some e) = elim (iwd_error_sentinel e) [
  | some s ↦ some (bus_error property (property_context iface name) (annotated (sentinel s) e))
  | none ↦ wrap_property iface name (some e)
]
