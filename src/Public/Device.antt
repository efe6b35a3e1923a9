-- ===== src/Public/Device.antt =====
-- device.go.
use spiderw.Base.{Bool, Option, none, some, String, List}
use spiderw.Failure.{Resource}
use spiderw.Errors.{Error}
use spiderw.Values.{valid_mode}
use spiderw.Daemon.{Ref}
use spiderw.Wire.{Value, Result, ok, failed, ◌>>=◌}
use spiderw.Wire.Events.{Event}
use spiderw.Core.{Heard}
use spiderw.Public.{delegate, do_request, converted, subscribe}
use spiderw.Wire.Tree.{Objects}
use spiderw.Public.Refs.{Resolver, resolve_tree, adapter_ref_of}
use spiderw.Wire.Device.{Properties as Raw}

-- `DeviceProperties`.
pub record Properties : Type 0 where
  pub name : String
  pub address : String
  pub powered : Bool
  pub mode : String
  pub adapter : Ref

-- `convertDeviceModeCoreToPublic` and `convertDeviceModePublicToCore`.
unfoldable pub convert_mode : String → Result String
unfolding converted valid_mode
convert_mode m = converted valid_mode Resource.device "Device.convertMode" "invalid mode" m

unfoldable pub name : Option (Result String) → Result String
unfolding delegate
name b = delegate "Device.Name" b (λ r. r)

unfoldable pub address : Option (Result String) → Result String
unfolding delegate
address b = delegate "Device.Address" b (λ r. r)

unfoldable pub powered : Option (Result Bool) → Result Bool
unfolding delegate
powered b = delegate "Device.Powered" b (λ r. r)

unfoldable pub set_powered : Option Error → Error
unfolding do_request
set_powered b = do_request "Device.SetPowered" b (λ e. e)

unfoldable pub mode : Option (Result String) → Result String
unfolding delegate convert_mode
mode b = delegate "Device.Mode" b (λ r. r >>= convert_mode)

-- `SetMode`, for an object that answers each mode.
abbrev pub set_converted : (String → Error) → Result String → Error
set_converted c (failed e) = e
set_converted c (ok m) = c m

unfoldable pub set_mode : Option (String → Error) → String → Error
unfolding do_request convert_mode
set_mode b m =
    do_request "Device.SetMode" b (λ (c : String → Error). set_converted c (convert_mode m))

unfoldable pub adapter : Option (Result String) → Result String
unfolding delegate
adapter b = delegate "Device.Adapter" b (λ r. r)

abbrev pub bundle : Option Objects → String → Raw → Properties
bundle tree m cp = record {
  name = cp.name;
  address = cp.address;
  powered = cp.powered;
  mode = m;
  adapter = adapter_ref_of tree cp.adapter;
}

abbrev pub with_refs : Option Resolver → Raw → Result Properties
with_refs resolver cp = do
  m ← convert_mode cp.mode
  tree ← resolve_tree resolver
  ok (bundle tree m cp)

unfoldable pub properties : Option Resolver → Option (Result Raw) → Result Properties
unfolding delegate convert_mode resolve_tree adapter_ref_of
properties resolver b = delegate "Device.Properties" b (λ r. r >>= with_refs resolver)

-- The subscriptions.
unfoldable pub properties_changed :
    Bool → Option (Heard (Option (List Value)) Event) → Heard (Option (List Value)) Event
unfolding subscribe
properties_changed has_fn b =
    subscribe Resource.device "Device.SubscribePropertiesChanged" some has_fn b

unfoldable pub powered_changed : Bool → Option (Heard Event Bool) → Heard Event Bool
unfolding subscribe
powered_changed has_fn b = subscribe Resource.device "Device.SubscribePoweredChanged" some has_fn b

-- What is kept of a value that converts.
abbrev pub kept : Result String → Option String
kept (failed e) = none
kept (ok s) = some s

abbrev pub kept_mode : String → Option String
kept_mode m = kept (convert_mode m)

unfoldable pub mode_changed : Bool → Option (Heard Event String) → Heard Event String
unfolding subscribe convert_mode
mode_changed has_fn b = subscribe Resource.device "Device.SubscribeModeChanged" kept_mode has_fn b
