-- ===== src/Public/Adapter.antt =====
-- adapter.go.
use spiderw.Base.{Bool, Option, some, String, List, [], ◌∷◌}
use spiderw.Failure.{Resource}
use spiderw.Errors.{Error}
use spiderw.Values.{valid_mode}
use spiderw.Wire.{Value, Result, ok, ◌>>=◌}
use spiderw.Wire.Events.{Event}
use spiderw.Core.{Heard}
use spiderw.Public.{delegate, do_request, converted, subscribe}
use spiderw.Wire.Adapter.{Properties}

-- `convertSupportedModeCoreToPublic`, `convertSupportedModePublicToCore` and `convertSupportedModes`.
unfoldable pub convert_mode : String → Result String
unfolding converted valid_mode
convert_mode m =
    converted valid_mode Resource.adapter "Adapter.convertSupportedMode" "invalid mode" m

unfoldable pub convert_modes : List String → Result (List String)
unfolding convert_mode
convert_modes [] = ok []
convert_modes (m ∷ ms) = do cm ← convert_mode m; rest ← convert_modes ms; ok (cm ∷ rest)

unfoldable pub powered : Option (Result Bool) → Result Bool
unfolding delegate
powered b = delegate "Adapter.Powered" b (λ r. r)

unfoldable pub set_powered : Option Error → Error
unfolding do_request
set_powered b = do_request "Adapter.SetPowered" b (λ e. e)

unfoldable pub name : Option (Result String) → Result String
unfolding delegate
name b = delegate "Adapter.Name" b (λ r. r)

unfoldable pub model : Option (Result (Option String)) → Result (Option String)
unfolding delegate
model b = delegate "Adapter.Model" b (λ r. r)

unfoldable pub vendor : Option (Result (Option String)) → Result (Option String)
unfolding delegate
vendor b = delegate "Adapter.Vendor" b (λ r. r)

-- `Properties`, whose type is that of the core layer.
abbrev pub with_modes : Properties → Result Properties
with_modes cp = do
  modes ← convert_modes cp.supported_modes
  ok (record {
    powered = cp.powered;
    name = cp.name;
    model = cp.model;
    vendor = cp.vendor;
    supported_modes = modes;
  })

unfoldable pub properties : Option (Result Properties) → Result Properties
unfolding delegate convert_modes
properties b = delegate "Adapter.Properties" b (λ r. r >>= with_modes)

unfoldable pub supported_modes : Option (Result (List String)) → Result (List String)
unfolding delegate convert_modes
supported_modes b = delegate "Adapter.SupportedModes" b (λ r. r >>= convert_modes)

-- `SupportsMode`, for an object that answers each mode.
unfoldable pub supports_mode : Option (String → Result Bool) → String → Result Bool
unfolding delegate convert_mode
supports_mode b mode =
    delegate "Adapter.SupportsMode" b (λ (c : String → Result Bool). convert_mode mode >>= c)

unfoldable pub supports_station : Option (Result Bool) → Result Bool
unfolding delegate
supports_station b = delegate "Adapter.SupportsStation" b (λ r. r)

unfoldable pub supports_ap : Option (Result Bool) → Result Bool
unfolding delegate
supports_ap b = delegate "Adapter.SupportsAP" b (λ r. r)

unfoldable pub supports_ad_hoc : Option (Result Bool) → Result Bool
unfolding delegate
supports_ad_hoc b = delegate "Adapter.SupportsAdHoc" b (λ r. r)

-- `ParseMode`, whose unused result beside an error is left out.
unfoldable pub parse_mode : String → Result String
unfolding converted valid_mode
parse_mode s = converted valid_mode Resource.adapter "Adapter.ParseMode" "invalid mode" s

-- The subscriptions.
unfoldable pub properties_changed :
    Bool → Option (Heard (Option (List Value)) Event) → Heard (Option (List Value)) Event
unfolding subscribe
properties_changed has_fn b =
    subscribe Resource.adapter "Adapter.SubscribePropertiesChanged" some has_fn b

unfoldable pub powered_changed : Bool → Option (Heard Event Bool) → Heard Event Bool
unfolding subscribe
powered_changed has_fn b =
    subscribe Resource.adapter "Adapter.SubscribePoweredChanged" some has_fn b
