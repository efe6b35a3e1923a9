-- ===== src/Wire/Events.antt =====
-- internal/iwdbus: what the subscriptions to property changes hand to their functions. A function
-- is called with the value under `some`, and is not called where there is `none`; that it is nil is
-- tested first, and `RegisterSignalHandlerWithUnsubscribe` is Signals/Registry.
pub mod Delivered
pub mod Follow
use spiderw.Base.{
  ℕ, Bool, true, false, Option, none, some, String, List, [], ◌∷◌, str_eq, if◌then◌else◌,
}
use spiderw.Wire.{
  Value, nil, text, object_path, boolean, uint32, int16, texts, object_paths, slice, variant,
  variants, dictionary, other, Props, fields_of, lookup, Iface, iface_name, contains, Result, ok,
  failed,
}
use spiderw.Wire.Parse.{
  as_bool, parse_state, parse_device_mode, parse_optional_path, parse_affinities,
  parse_object_path_list, parse_optional_string,
}

-- `StationPropertiesChanged` and its likes.
pub record Event : Type 0 where
  pub changed : Props
  pub invalidated : List String

abbrev names : Value → List String
names (texts ps) = ps
names _ = []

abbrev event : Value → Value → Option Event
event (variants fs) w = some (record { changed = fields_of fs; invalidated = names w })
event _ w = none

-- The handler of `SubscribePropertiesChanged`, for the body of the signal, or for a nil signal.
unfoldable pub properties_changed : Iface → Option (List Value) → Option Event
properties_changed i (some (text name ∷ v ∷ w ∷ _)) =
    if str_eq name (iface_name i) then event v w else none
properties_changed i _ = none

-- `propertyCleared` of utils.go.
unfoldable pub property_cleared : List String → String → Bool
unfolding contains
property_cleared invalidated name = contains invalidated name

-- A value that is right, and nothing for one that is not.
abbrev pub right : {A : Type 0} → Result A → Option A
right (ok a) = some a
right (failed e) = none

-- The handler of a subscription to a property that iwd always has.
unfoldable pub delivered : {A : Type 0} → String → (Value → Result A) → Event → Option A
unfolding lookup
delivered prop parse ev = elim (lookup prop ev.changed) [ none ↦ none | some v ↦ right (parse v) ]

-- The handler of a subscription to a property that can be absent; `absent` stands for nil.
unfoldable pub delivered_optional :
    {A : Type 0} → String → A → (Value → Result A) → Event → Option A
unfolding lookup property_cleared
delivered_optional prop absent parse ev = elim (lookup prop ev.changed) [
  | none ↦ if property_cleared ev.invalidated prop then some absent else none
  | some v ↦ right (parse v)
]

-- Station: `SubscribeStateChanged`, `SubscribeScanningChanged`, `SubscribeConnectedNetworkChanged`,
-- `SubscribeConnectedAccessPointChanged` and `SubscribeAffinitiesChanged`.
unfoldable pub state_changed : Event → Option String
unfolding delivered parse_state
state_changed = delivered "State" parse_state

unfoldable pub scanning_changed : Event → Option Bool
unfolding delivered as_bool
scanning_changed = delivered "Scanning" (as_bool "Scanning")

-- Network: `SubscribeConnectedChanged`. Adapter and Device: `SubscribePoweredChanged`. Device:
-- `SubscribeModeChanged`. KnownNetwork: `SubscribeAutoConnectChanged`, `SubscribeHiddenChanged` and
-- `SubscribeLastConnectedTimeChanged`. AccessPoint: `SubscribeStartedChanged`, and
-- `SubscribeScanningChanged`, which is that of a station.
unfoldable pub connected_changed : Event → Option Bool
unfolding delivered as_bool
connected_changed = delivered "Connected" (as_bool "Connected")

unfoldable pub powered_changed : Event → Option Bool
unfolding delivered as_bool
powered_changed = delivered "Powered" (as_bool "Powered")

unfoldable pub mode_changed : Event → Option String
unfolding delivered parse_device_mode
mode_changed = delivered "Mode" parse_device_mode

unfoldable pub auto_connect_changed : Event → Option Bool
unfolding delivered as_bool
auto_connect_changed = delivered "AutoConnect" (as_bool "AutoConnect")

unfoldable pub hidden_changed : Event → Option Bool
unfolding delivered as_bool
hidden_changed = delivered "Hidden" (as_bool "Hidden")

unfoldable pub started_changed : Event → Option Bool
unfolding delivered as_bool
started_changed = delivered "Started" (as_bool "Started")

unfoldable pub last_connected_time_changed : Event → Option (Option String)
unfolding delivered_optional parse_optional_string
last_connected_time_changed =
    delivered_optional "LastConnectedTime" none (parse_optional_string "LastConnectedTime")

module _ (valid : String → Bool) where
  unfoldable pub connected_network_changed : Event → Option (Option String)
  unfolding delivered_optional parse_optional_path
  connected_network_changed =
      delivered_optional "ConnectedNetwork" none (parse_optional_path valid "ConnectedNetwork")

  unfoldable pub connected_access_point_changed : Event → Option (Option String)
  unfolding delivered_optional parse_optional_path
  connected_access_point_changed =
      delivered_optional "ConnectedAccessPoint" none
        (parse_optional_path valid "ConnectedAccessPoint")

  unfoldable pub affinities_changed : Event → Option (Option (List String))
  unfolding delivered_optional parse_affinities
  affinities_changed = delivered_optional "Affinities" none (parse_affinities valid)

  -- Network: `SubscribeKnownNetworkChanged` and `SubscribeExtendedServiceSetChanged`.
  unfoldable pub known_network_changed : Event → Option (Option String)
  unfolding delivered_optional parse_optional_path
  known_network_changed =
      delivered_optional "KnownNetwork" none (parse_optional_path valid "KnownNetwork")

  unfoldable pub extended_service_set_changed : Event → Option (List String)
  unfolding delivered parse_object_path_list
  extended_service_set_changed = delivered "ExtendedServiceSet" (parse_object_path_list valid)
