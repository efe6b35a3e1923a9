-- ===== src/Wire/Device.antt =====
-- internal/iwdbus/device.go: the getters and the setters of a device.
use spiderw.Base.{Bool, Option, none, some, String, str_eq, if◌then◌else◌}
use spiderw.Errors.{Error, Object, plain, wrap_property}
use spiderw.Values.{mode_string}
use spiderw.Wire.{
  text, boolean, Iface, Caller, Result, ok, ◌>>=◌, read, read_all, required, write, iface_name,
  uninitialized,
}
use spiderw.Wire.Parse.{as_bool, as_string, parse_device_mode, parse_object_path}

-- `DeviceProperties`.
pub record Properties : Type 0 where
  pub name : String
  pub address : String
  pub powered : Bool
  pub mode : String
  pub adapter : String

abbrev pub iface : Iface
iface = record { noun = "Device"; object = Object.device }

unfoldable pub get_name : Option Caller → Result String
unfolding read as_string
get_name = read iface "Name" (as_string "Name")

unfoldable pub get_address : Option Caller → Result String
unfolding read as_string
get_address = read iface "Address" (as_string "Address")

unfoldable pub get_powered : Option Caller → Result Bool
unfolding read as_bool
get_powered = read iface "Powered" (as_bool "Powered")

unfoldable pub get_mode : Option Caller → Result String
unfolding read parse_device_mode
get_mode = read iface "Mode" parse_device_mode

unfoldable pub set_powered : Bool → Option Caller → Error
unfolding write
set_powered b = write iface "Powered" (boolean b)

unfoldable pub set_mode : String → Option Caller → Error
unfolding write wrap_property mode_string
set_mode mode none = uninitialized iface
set_mode mode (some c) =
    if str_eq mode ""
    then wrap_property (iface_name iface) "Mode" (some (plain "invalid mode"))
    else write iface "Mode" (text (mode_string mode)) (some c)

module _ (valid : String → Bool) where
  unfoldable pub get_adapter : Option Caller → Result String
  unfolding read parse_object_path
  get_adapter = read iface "Adapter" (parse_object_path valid "Adapter")

  -- `GetProperties`.
  unfoldable pub get_properties : Option Caller → Result Properties
  unfolding read_all required as_string as_bool parse_device_mode parse_object_path
  get_properties = read_all iface λ raw. do
    name ← required iface raw "Name" (as_string "Name")
    address ← required iface raw "Address" (as_string "Address")
    powered ← required iface raw "Powered" (as_bool "Powered")
    mode ← required iface raw "Mode" parse_device_mode
    adapter ← required iface raw "Adapter" (parse_object_path valid "Adapter")
    ok (record {
      name = name;
      address = address;
      powered = powered;
      mode = mode;
      adapter = adapter;
    })
