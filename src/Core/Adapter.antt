-- ===== src/Core/Adapter.antt =====
-- internal/core/adapter.go.
use spiderw.Base.{Bool, not, Option, none, some, String, List, [], ◌∷◌, if◌then◌else◌}
use spiderw.Base.Text.{trim_space}
use spiderw.Failure.{Resource, Kind}
use spiderw.Errors.{
  Error, Object, sentinel, core_error, core_mark, plain, wrap_invalid_argument,
  adapter_unavailable_policy,
}
use spiderw.Values.{valid_mode}
use spiderw.Wire.{Value, Result, ok, failed, ◌>>=◌}
use spiderw.Wire.Events.{Event}
use spiderw.Wire.Adapter.{Properties}
use spiderw.Core.{Facade, Heard, subscribe, query, request, required_text}

abbrev pub adapter : Facade
adapter = record {
  noun = "Adapter";
  words = "adapter";
  object = Object.adapter;
  policy = adapter_unavailable_policy;
}

-- `validateSupportedModes`: the loop, and the copy that it returns.
abbrev pub unknown_mode : Error
unknown_mode = some (
    core_error Kind.invalid_argument Resource.adapter "Adapter.validateSupportedModes"
      "unknown supported mode" (sentinel core_mark))

unfoldable pub check_modes : List String → Error
unfolding valid_mode
check_modes [] = none
check_modes (m ∷ ms) = if not (valid_mode m) then unknown_mode else check_modes ms

unfoldable pub validate_supported_modes : List String → Result (List String)
unfolding check_modes
validate_supported_modes ms = elim (check_modes ms) [ some e ↦ failed (some e) | none ↦ ok ms ]

-- What `Model` and `Vendor` make of a text that is there.
unfoldable pub trim_optional : Option String → Option String
unfolding trim_space
trim_optional none = none
trim_optional (some m) = some (trim_space m)

unfoldable pub powered : Option (Result Bool) → Result Bool
unfolding query
powered b = query adapter "Powered" "failed querying iwd Adapter powered" b ok

unfoldable pub set_powered : Option Error → Error
unfolding request
set_powered b = request adapter "SetPowered" "failed setting iwd Adapter powered" b

unfoldable pub name : Option (Result String) → Result String
unfolding query required_text
name b =
    query adapter "Name" "failed querying iwd Adapter name" b
      (required_text adapter "Adapter.Name" "Name")

unfoldable pub model : Option (Result (Option String)) → Result (Option String)
unfolding query trim_optional
model b = query adapter "Model" "failed querying iwd Adapter model" b (λ m. ok (trim_optional m))

unfoldable pub vendor : Option (Result (Option String)) → Result (Option String)
unfolding query trim_optional
vendor b = query adapter "Vendor" "failed querying iwd Adapter vendor" b (λ v. ok (trim_optional v))

unfoldable pub supported_modes : Option (Result (List String)) → Result (List String)
unfolding query validate_supported_modes
supported_modes b =
    query adapter "SupportedModes" "failed querying iwd Adapter supported modes" b
      validate_supported_modes

-- The tests of `Properties` on what `GetProperties` returns.
unfoldable pub normal : Properties → Result Properties
unfolding required_text validate_supported_modes trim_optional
normal raw = do
  n ← required_text adapter "Adapter.Properties" "Name" raw.name
  modes ← validate_supported_modes raw.supported_modes
  ok (record {
    powered = raw.powered;
    name = n;
    model = trim_optional raw.model;
    vendor = trim_optional raw.vendor;
    supported_modes = modes;
  })

unfoldable pub properties : Option (Result Properties) → Result Properties
unfolding query normal
properties b = query adapter "Properties" "failed querying iwd Adapter properties" b normal

-- `SupportsMode`, for an object that answers each mode.
abbrev pub asked_mode : (String → Result Bool) → String → Result Bool
asked_mode b mode =
    if not (valid_mode mode)
    then failed (
        wrap_invalid_argument Resource.adapter "Adapter.SupportsMode" "unknown mode"
          (some (plain "unknown supported mode")))
    else query adapter "SupportsMode" "failed querying iwd Adapter supports mode" (some (b mode)) ok

unfoldable pub supports_mode : Option (String → Result Bool) → String → Result Bool
unfolding query valid_mode wrap_invalid_argument
supports_mode none mode = query {A = Bool} adapter "SupportsMode" "" none ok
supports_mode (some b) mode = asked_mode b mode

-- `SupportsStation`, `SupportsAP` and `SupportsAdHoc`.
unfoldable pub supports_station : Option (Result Bool) → Result Bool
unfolding query
supports_station b =
    query adapter "SupportsStation" "failed querying iwd Adapter supports station" b ok

unfoldable pub supports_ap : Option (Result Bool) → Result Bool
unfolding query
supports_ap b = query adapter "SupportsAP" "failed querying iwd Adapter supports AP" b ok

unfoldable pub supports_ad_hoc : Option (Result Bool) → Result Bool
unfolding query
supports_ad_hoc b = query adapter "SupportsAdHoc" "failed querying iwd Adapter supports ad-hoc" b ok

-- `ParseMode`, whose unused result beside an error is left out.
unfoldable pub parse_mode : String → Result String
unfolding valid_mode
parse_mode s =
    if not (valid_mode s)
    then failed (
        some (
          core_error Kind.invalid_argument Resource.adapter "Adapter.ParseMode" "invalid mode"
            (sentinel core_mark)))
    else ok s

-- The subscriptions.
unfoldable pub properties_changed :
    Bool → Option (Heard (Option (List Value)) Event) → Heard (Option (List Value)) Event
unfolding subscribe
properties_changed has_fn b = subscribe adapter "SubscribePropertiesChanged" has_fn b

unfoldable pub powered_changed : Bool → Option (Heard Event Bool) → Heard Event Bool
unfolding subscribe
powered_changed has_fn b = subscribe adapter "SubscribePoweredChanged" has_fn b
