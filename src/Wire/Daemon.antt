-- ===== src/Wire/Daemon.antt =====
-- internal/iwdbus/daemon.go: the daemon's information, and the names of the managed objects.
use spiderw.Base.{Bool, false, not, ◌||◌, Option, none, some, String, List, [], ◌∷◌, if◌then◌else◌}
use spiderw.Base.Text.{is_blank, is_absolute, trim_space}
use spiderw.Errors.{
  Error, Object, sentinel, bus_uninitialized, wrap_introspection, wrap_method, wrap_variant,
}
use spiderw.Daemon.{Info}
use spiderw.Wire.{
  Value, nil, text, boolean, variant, variants, dictionary, Props, fields_of, lookup, Result, ok,
  failed, ◌>>=◌,
}
use spiderw.Wire.Parse.{bad}
use spiderw.Wire.Tree.{Interfaces, iface_of}

abbrev daemon_uninitialized : Error
daemon_uninitialized = some (sentinel (bus_uninitialized Object.daemon))

-- The three lookups of `parseDaemonMap`: a nil or missing value leaves the zero value.
abbrev string_field : String → String → Option Value → Result String
string_field k what none = ok ""
string_field k what (some nil) = ok ""
string_field k what (some (text s)) = if is_blank s then bad k what else ok s
string_field k what (some _) = bad k "expected string"

abbrev bool_field : String → Option Value → Result Bool
bool_field k none = ok false
bool_field k (some nil) = ok false
bool_field k (some (boolean b)) = ok b
bool_field k (some _) = bad k "expected bool"

-- `parseDaemonMap`, for its function `get`.
unfoldable pub parse_daemon_map : (String → Option Value) → Result Info
unfolding wrap_variant
parse_daemon_map get = do
  version ← string_field "Version" "info Version must not be empty" (get "Version")
  state_directory ←
      string_field "StateDirectory" "StateDirectory must not be empty" (get "StateDirectory")
  enabled ← bool_field "NetworkConfigurationEnabled" (get "NetworkConfigurationEnabled")
  ok (record {
    version = version;
    state_directory = state_directory;
    network_configuration_enabled = enabled;
  })

-- `value.(dbus.Variant)` and its `Value()` if it is one.
abbrev inner : Value → Value
inner (variant v) = v
inner v = v

abbrev inner_of : Option Value → Option Value
inner_of none = none
inner_of (some v) = some (inner v)

-- `parseDaemonInfo`.
unfoldable pub parse_daemon_info : Value → Result Info
unfolding parse_daemon_map lookup wrap_variant
parse_daemon_info (variants fs) = parse_daemon_map (λ k. lookup k (fields_of fs))
parse_daemon_info (dictionary fs) = parse_daemon_map (λ k. inner_of (lookup k (fields_of fs)))
parse_daemon_info _ = bad "GetInfo" "unexpected GetInfo payload type"

-- `GetInfo`, for the answer of the call, or for a daemon that is not initialised. The error of
-- parsing is wrapped in a text alone.
abbrev from_body : List Value → Result Info
from_body [] = bad "GetInfo" "empty DBus body"
from_body (v ∷ vs) = parse_daemon_info v

unfoldable pub get_info : Option (Result (List Value)) → Result Info
unfolding parse_daemon_info wrap_introspection wrap_method wrap_variant
get_info none = failed (wrap_introspection "Daemon.ensureInitialized" daemon_uninitialized)
get_info (some (failed e)) = failed (wrap_method (iface_of "Daemon") "GetInfo" e)
get_info (some (ok body)) = from_body body

-- `objectNameFromManagedObject`, and `bssAddressFromManagedObject` for the property Address; `props`
-- is none where the map is nil.
abbrev pub named : String → Option Value → Result String
named prop none = bad prop "missing property"
named prop (some (text s)) =
    let t = trim_space s in if is_blank t then bad prop "was empty" else ok t
named prop (some _) = bad prop "expected string"

abbrev pub bad_path : (String → Bool) → String → Bool
bad_path valid path = not (valid path) || not (is_absolute path)

unfoldable pub object_name : (String → Bool) → String → String → Props → Result String
unfolding trim_space wrap_variant lookup
object_name valid prop path props =
    if bad_path valid path then bad "Path" "invalid path" else named prop (lookup prop props)

-- `stationNameFromDevice`.
abbrev device_text : Option Value → String
device_text (some (text s)) = trim_space s
device_text _ = ""

abbrev device_name_in : Option Props → String
device_name_in none = ""
device_name_in (some dev) = device_text (lookup "Name" dev)

unfoldable pub station_name_from_device : Interfaces → String
unfolding trim_space lookup
station_name_from_device ifaces = device_name_in (lookup (iface_of "Device") ifaces)
