-- ===== src/Wire/KnownNetwork.antt =====
-- internal/iwdbus/knownnetwork.go: the getters, the setter and the method of a known network.
use spiderw.Base.{Bool, Option, none, String, []}
use spiderw.Errors.{Error, Object}
use spiderw.Wire.{
  boolean, Iface, Caller, Result, ok, ◌>>=◌, read, read_optional, read_all, required, optional,
  write, invoke,
}
use spiderw.Wire.Parse.{as_bool, as_string, parse_type, parse_optional_string}

-- `KnownNetworkProperties`.
pub record Properties : Type 0 where
  pub name : String
  pub network_type : String
  pub hidden : Bool
  pub last_connected_time : Option String
  pub auto_connect : Bool

abbrev pub iface : Iface
iface = record { noun = "KnownNetwork"; object = Object.known_network }

unfoldable pub get_name : Option Caller → Result String
unfolding read as_string
get_name = read iface "Name" (as_string "Name")

unfoldable pub get_type : Option Caller → Result String
unfolding read parse_type
get_type = read iface "Type" parse_type

unfoldable pub get_hidden : Option Caller → Result Bool
unfolding read as_bool
get_hidden = read iface "Hidden" (as_bool "Hidden")

unfoldable pub get_last_connected_time : Option Caller → Result (Option String)
unfolding read_optional parse_optional_string
get_last_connected_time =
    read_optional iface "LastConnectedTime" none (parse_optional_string "LastConnectedTime")

unfoldable pub get_auto_connect : Option Caller → Result Bool
unfolding read as_bool
get_auto_connect = read iface "AutoConnect" (as_bool "AutoConnect")

unfoldable pub set_auto_connect : Bool → Option Caller → Error
unfolding write
set_auto_connect b = write iface "AutoConnect" (boolean b)

unfoldable pub forget : Option Caller → Error
unfolding invoke
forget = invoke iface "Forget" []

-- `GetProperties`.
unfoldable pub get_properties : Option Caller → Result Properties
unfolding read_all required optional as_string as_bool parse_type parse_optional_string
get_properties = read_all iface λ raw. do
  name ← required iface raw "Name" (as_string "Name")
  network_type ← required iface raw "Type" parse_type
  hidden ← required iface raw "Hidden" (as_bool "Hidden")
  auto_connect ← required iface raw "AutoConnect" (as_bool "AutoConnect")
  time ← optional raw "LastConnectedTime" none (parse_optional_string "LastConnectedTime")
  ok (record {
    name = name;
    network_type = network_type;
    hidden = hidden;
    last_connected_time = time;
    auto_connect = auto_connect;
  })
