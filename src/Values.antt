-- ===== src/Values.antt =====
-- internal/iwdvalue: the modes, station states and network types that iwd writes as strings.
pub mod Canonical
mod Tests
use spiderw.Base.{Bool, true, false, not, Option, none, some, String, ◌||◌, str_eq, if◌then◌else◌}

-- `ValidMode`.
unfoldable pub valid_mode : String → Bool
valid_mode m = str_eq m "station" || str_eq m "ap" || str_eq m "ad-hoc"

-- `ParseMode`: the mode and whether the string is one.
unfoldable pub parse_mode : String → String × Bool
unfolding valid_mode
parse_mode s = if not (valid_mode s) then ("", false) else (s, true)

-- `Mode.String`.
unfoldable pub mode_string : String → String
unfolding valid_mode
mode_string m = if valid_mode m then m else "unknown"

-- `ValidStationState`, `ParseStationState` and `StationState.String`.
unfoldable pub valid_station_state : String → Bool
valid_station_state s =
    str_eq s "connected"
    || str_eq s "disconnected"
    || str_eq s "connecting"
    || str_eq s "disconnecting"
    || str_eq s "roaming"

unfoldable pub parse_station_state : String → String × Bool
unfolding valid_station_state
parse_station_state s = if not (valid_station_state s) then ("", false) else (s, true)

unfoldable pub station_state_string : String → String
unfolding valid_station_state
station_state_string s = if valid_station_state s then s else "unknown"

-- `ValidNetworkType`, `ParseNetworkType` and `NetworkType.String`.
unfoldable pub valid_network_type : String → Bool
valid_network_type t =
    str_eq t "open" || str_eq t "wep" || str_eq t "psk" || str_eq t "8021x" || str_eq t "hotspot"

unfoldable pub parse_network_type : String → String × Bool
unfolding valid_network_type
parse_network_type s = if not (valid_network_type s) then ("", false) else (s, true)

unfoldable pub network_type_string : String → String
unfolding valid_network_type
network_type_string t = if valid_network_type t then t else "unknown"
