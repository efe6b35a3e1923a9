-- ===== src/Wire/Adapter.antt =====
-- internal/iwdbus/adapter.go: the getters and the setter of an adapter.
use spiderw.Base.{Bool, not, Option, none, some, String, List, str_eq, if◌then◌else◌}
use spiderw.Errors.{Error, Object, plain}
use spiderw.Values.{valid_mode}
use spiderw.Wire.{
  boolean, Iface, Caller, Result, ok, failed, ◌>>=◌, read, read_optional, read_all, required,
  optional, write, uninitialized, contains,
}
use spiderw.Wire.Parse.{as_bool, as_string, parse_optional_string, parse_supported_modes}

-- `AdapterProperties`.
pub record Properties : Type 0 where
  pub powered : Bool
  pub name : String
  pub model : Option String
  pub vendor : Option String
  pub supported_modes : List String

abbrev pub iface : Iface
iface = record { noun = "Adapter"; object = Object.adapter }

unfoldable pub get_powered : Option Caller → Result Bool
unfolding read as_bool
get_powered = read iface "Powered" (as_bool "Powered")

unfoldable pub get_name : Option Caller → Result String
unfolding read as_string
get_name = read iface "Name" (as_string "Name")

unfoldable pub get_model : Option Caller → Result (Option String)
unfolding read_optional parse_optional_string
get_model = read_optional iface "Model" none (parse_optional_string "Model")

unfoldable pub get_vendor : Option Caller → Result (Option String)
unfolding read_optional parse_optional_string
get_vendor = read_optional iface "Vendor" none (parse_optional_string "Vendor")

unfoldable pub get_supported_modes : Option Caller → Result (List String)
unfolding read parse_supported_modes
get_supported_modes = read iface "SupportedModes" parse_supported_modes

unfoldable pub set_powered : Bool → Option Caller → Error
unfolding write
set_powered b = write iface "Powered" (boolean b)

-- `GetProperties`.
unfoldable pub get_properties : Option Caller → Result Properties
unfolding read_all required optional as_bool as_string parse_supported_modes parse_optional_string
get_properties = read_all iface λ raw. do
  powered ← required iface raw "Powered" (as_bool "Powered")
  name ← required iface raw "Name" (as_string "Name")
  modes ← required iface raw "SupportedModes" parse_supported_modes
  model ← optional raw "Model" none (parse_optional_string "Model")
  vendor ← optional raw "Vendor" none (parse_optional_string "Vendor")
  ok (record {
    powered = powered;
    name = name;
    model = model;
    vendor = vendor;
    supported_modes = modes;
  })

-- `isModeSupported`.
unfoldable pub is_mode_supported : List String → String → Result Bool
unfolding valid_mode contains
is_mode_supported modes mode =
    if not (valid_mode mode) then failed (some (plain "invalid mode")) else ok (contains modes mode)

abbrev among : String → Result (List String) → Result Bool
among mode modes = do ms ← modes; is_mode_supported ms mode

-- `SupportsMode`; `SupportsStation`, `SupportsAP` and `SupportsAdHoc` are its calls.
unfoldable pub supports_mode : String → Option Caller → Result Bool
unfolding get_supported_modes is_mode_supported
supports_mode mode none = failed (uninitialized iface)
supports_mode mode (some c) =
    if str_eq mode ""
    then failed (some (plain "invalid mode"))
    else among mode (get_supported_modes (some c))
