-- ===== src/Wire/Small.antt =====
-- internal/iwdbus/bss.go and internal/iwdbus/wsc.go: a basic service set, and Wi-Fi Simple
-- Configuration.
use spiderw.Base.{Option, String, List, [], ◌∷◌}
use spiderw.Errors.{Error, Object}
use spiderw.Wire.{Value, text, Iface, Caller, Result, read, read_all, required, invoke, fetch}
use spiderw.Wire.Parse.{as_string}

abbrev pub bss_iface : Iface
bss_iface = record { noun = "BasicServiceSet"; object = Object.basic_service_set }

unfoldable pub get_address : Option Caller → Result String
unfolding read as_string
get_address = read bss_iface "Address" (as_string "Address")

-- `GetProperties` of a basic service set, whose one field is the address.
unfoldable pub get_bss_properties : Option Caller → Result String
unfolding read_all required as_string
get_bss_properties =
    read_all bss_iface λ raw. required bss_iface raw "Address" (as_string "Address")

abbrev pub wsc_iface : Iface
wsc_iface = record { noun = "SimpleConfiguration"; object = Object.simple_configuration }

-- `PushButton`, `StartPin` and `Cancel`.
unfoldable pub push_button : Option Caller → Error
unfolding invoke
push_button = invoke wsc_iface "PushButton" []

unfoldable pub start_pin : String → Option Caller → Error
unfolding invoke
start_pin pin = invoke wsc_iface "StartPin" (text pin ∷ [])

unfoldable pub cancel : Option Caller → Error
unfolding invoke
cancel = invoke wsc_iface "Cancel" []

-- `GeneratePin`, for the function that decodes the reply.
unfoldable pub generate_pin : (List Value → Result String) → Option Caller → Result String
unfolding fetch
generate_pin store = fetch wsc_iface "GeneratePin" store
