-- ===== src/Wire/Network.antt =====
-- internal/iwdbus/network.go: the getters and the method of a network.
use spiderw.Base.{Bool, Option, none, String, List, []}
use spiderw.Errors.{Error, Object}
use spiderw.Network.{Properties}
use spiderw.Wire.{
  Iface, Caller, Result, ok, ◌>>=◌, read, read_optional, read_all, required, optional, invoke,
}
use spiderw.Wire.Parse.{
  as_bool, as_string, parse_type, parse_object_path, parse_optional_path, parse_object_path_list,
}

abbrev pub iface : Iface
iface = record { noun = "Network"; object = Object.network }

unfoldable pub get_name : Option Caller → Result String
unfolding read as_string
get_name = read iface "Name" (as_string "Name")

unfoldable pub get_connected : Option Caller → Result Bool
unfolding read as_bool
get_connected = read iface "Connected" (as_bool "Connected")

unfoldable pub get_type : Option Caller → Result String
unfolding read parse_type
get_type = read iface "Type" parse_type

module _ (valid : String → Bool) where
  unfoldable pub get_device : Option Caller → Result String
  unfolding read parse_object_path
  get_device = read iface "Device" (parse_object_path valid "Device")

  unfoldable pub get_known_network : Option Caller → Result (Option String)
  unfolding read_optional parse_optional_path
  get_known_network =
      read_optional iface "KnownNetwork" none (parse_optional_path valid "KnownNetwork")

  unfoldable pub get_extended_service_set : Option Caller → Result (List String)
  unfolding read parse_object_path_list
  get_extended_service_set = read iface "ExtendedServiceSet" (parse_object_path_list valid)

  -- `GetProperties`.
  unfoldable pub get_properties : Option Caller → Result Properties
  unfolding read_all required optional as_string as_bool parse_type parse_object_path
      parse_object_path_list parse_optional_path
  get_properties = read_all iface λ raw. do
    name ← required iface raw "Name" (as_string "Name")
    connected ← required iface raw "Connected" (as_bool "Connected")
    device ← required iface raw "Device" (parse_object_path valid "Device")
    network_type ← required iface raw "Type" parse_type
    service_set ← required iface raw "ExtendedServiceSet" (parse_object_path_list valid)
    known_network ← optional raw "KnownNetwork" none (parse_optional_path valid "KnownNetwork")
    ok (record {
      name = name;
      connected = connected;
      device = device;
      network_type = network_type;
      known_network = known_network;
      extended_service_set = service_set;
    })

unfoldable pub connect : Option Caller → Error
unfolding invoke
connect = invoke iface "Connect" []
