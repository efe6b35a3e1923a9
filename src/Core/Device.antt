-- ===== src/Core/Device.antt =====
-- internal/core/device.go.
use spiderw.Base.{List, Bool, not, Option, some, String, if◌then◌else◌}
use spiderw.Failure.{Resource}
use spiderw.Errors.{
  Error, Object, plain, wrap_invalid_argument, wrap_invalid_state, device_unavailable_policy,
}
use spiderw.Values.{valid_mode}
use spiderw.Wire.{Value, Result, ok, failed, ◌>>=◌}
use spiderw.Wire.Events.{Event}
use spiderw.Wire.Device.{Properties}
use spiderw.Core.{Facade, Heard, subscribe, query, request, request_checked, required_text}

abbrev pub device : Facade
device = record {
  noun = "Device";
  words = "device";
  object = Object.device;
  policy = device_unavailable_policy;
}

-- `validateMode`.
unfoldable pub validate_mode : String → String → Result String
unfolding valid_mode wrap_invalid_state
validate_mode op mode =
    if not (valid_mode mode)
    then failed (
        wrap_invalid_state Resource.device op "device reported unknown mode"
          (some (plain "missing or invalid Mode field")))
    else ok mode

unfoldable pub name : Option (Result String) → Result String
unfolding query required_text
name b =
    query device "Name" "failed querying iwd Device name" b
      (required_text device "Device.Name" "Name")

unfoldable pub address : Option (Result String) → Result String
unfolding query required_text
address b =
    query device "Address" "failed querying iwd Device address" b
      (required_text device "Device.Address" "Address")

unfoldable pub powered : Option (Result Bool) → Result Bool
unfolding query
powered b = query device "Powered" "failed querying iwd Device powered" b ok

unfoldable pub set_powered : Option Error → Error
unfolding request
set_powered b = request device "SetPowered" "failed setting iwd Device powered" b

unfoldable pub mode : Option (Result String) → Result String
unfolding query validate_mode
mode b = query device "Mode" "failed querying iwd Device mode" b (validate_mode "Device.Mode")

-- `SetMode`, for an object that answers each mode.
unfoldable pub checked_mode : String → Result String
unfolding valid_mode wrap_invalid_argument
checked_mode m =
    if not (valid_mode m)
    then failed (
        wrap_invalid_argument Resource.device "Device.SetMode" "unknown mode"
          (some (plain "invalid mode")))
    else ok m

unfoldable pub set_mode : Option (String → Error) → String → Error
unfolding request_checked checked_mode
set_mode b m = request_checked device "SetMode" "failed setting iwd Device mode" b (checked_mode m)

unfoldable pub adapter : Option (Result String) → Result String
unfolding query required_text
adapter b =
    query device "Adapter" "failed querying iwd Device adapter" b
      (required_text device "Device.Adapter" "Adapter")

-- The tests of `Properties` on what `GetProperties` returns.
unfoldable pub normal : Properties → Result Properties
unfolding required_text validate_mode
normal raw = do
  n ← required_text device "Device.Properties" "Name" raw.name
  a ← required_text device "Device.Properties" "Address" raw.address
  owner ← required_text device "Device.Properties" "Adapter" raw.adapter
  m ← validate_mode "Device.Properties" raw.mode
  ok (record { name = n; address = a; powered = raw.powered; mode = m; adapter = owner })

unfoldable pub properties : Option (Result Properties) → Result Properties
unfolding query normal
properties b = query device "Properties" "failed querying iwd Device properties" b normal

-- The subscriptions.
unfoldable pub properties_changed :
    Bool → Option (Heard (Option (List Value)) Event) → Heard (Option (List Value)) Event
unfolding subscribe
properties_changed has_fn b = subscribe device "SubscribePropertiesChanged" has_fn b

unfoldable pub powered_changed : Bool → Option (Heard Event Bool) → Heard Event Bool
unfolding subscribe
powered_changed has_fn b = subscribe device "SubscribePoweredChanged" has_fn b

unfoldable pub mode_changed : Bool → Option (Heard Event String) → Heard Event String
unfolding subscribe
mode_changed has_fn b = subscribe device "SubscribeModeChanged" has_fn b
