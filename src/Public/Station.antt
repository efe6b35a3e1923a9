-- ===== src/Public/Station.antt =====
-- station.go.
use spiderw.Base.{ℤ, Bool, Option, none, some, String, List, [], ◌∷◌, map}
use spiderw.Failure.{Resource}
use spiderw.Errors.{Error}
use spiderw.Values.{valid_station_state}
use spiderw.Daemon.{Ref}
use spiderw.Wire.{Value, Result, ok, ◌>>=◌}
use spiderw.Wire.Events.{Event}
use spiderw.Core.{Heard}
use spiderw.Public.{delegate, do_request, converted, subscribe}
use spiderw.Wire.Tree.{Objects}
use spiderw.Public.Refs.{Resolver, resolve_tree, network_ref_of, bss_ref_of}
use spiderw.Station.{Properties as Raw, OrderedNetwork as RawNetwork, HiddenAccessPoint}
use spiderw.Public.Device.{kept}
use spiderw.Public.Network.{convert_network_type}

-- `StationProperties`, where a slice that is nil is the empty list, and `OrderedNetwork`, with its
-- strength in hundredths: the division by 100 in floating point is left out, here and in
-- `HiddenAccessPoint`.
pub record Properties : Type 0 where
  pub state : String
  pub scanning : Bool
  pub connected_network : Option Ref
  pub connected_access_point : Option Ref
  pub affinities : List Ref

pub record OrderedNetwork : Type 0 where
  pub network : Ref
  pub signal_strength : ℤ

-- `convertStationStateCoreToPublic`.
unfoldable pub convert_state : String → Result String
unfolding converted valid_station_state
convert_state s =
    converted valid_station_state Resource.station "Station.convertState" "invalid station state" s

unfoldable pub state : Option (Result String) → Result String
unfolding delegate convert_state
state b = delegate "Station.State" b (λ r. r >>= convert_state)

unfoldable pub scanning : Option (Result Bool) → Result Bool
unfolding delegate
scanning b = delegate "Station.Scanning" b (λ r. r)

unfoldable pub connected_network : Option (Result (Option String)) → Result (Option String)
unfolding delegate
connected_network b = delegate "Station.ConnectedNetwork" b (λ r. r)

unfoldable pub connected_access_point : Option (Result (Option String)) → Result (Option String)
unfolding delegate
connected_access_point b = delegate "Station.ConnectedAccessPoint" b (λ r. r)

unfoldable pub affinities : Option (Result (Option (List String))) → Result (Option (List String))
unfolding delegate
affinities b = delegate "Station.Affinities" b (λ r. r)

abbrev pub optional_ref : (String → Ref) → Option String → Option Ref
optional_ref ref none = none
optional_ref ref (some path) = some (ref path)

abbrev pub refs_of : (String → Ref) → Option (List String) → List Ref
refs_of ref none = []
refs_of ref (some paths) = map ref paths

abbrev pub bundle : Option Objects → String → Raw → Properties
bundle tree s cp = record {
  state = s;
  scanning = cp.scanning;
  connected_network = optional_ref (network_ref_of tree) cp.connected_network;
  connected_access_point = optional_ref (bss_ref_of tree) cp.connected_access_point;
  affinities = refs_of (bss_ref_of tree) cp.affinities;
}

abbrev pub with_refs : Option Resolver → Raw → Result Properties
with_refs resolver cp = do
  s ← convert_state cp.state
  tree ← resolve_tree resolver
  ok (bundle tree s cp)

unfoldable pub properties : Option Resolver → Option (Result Raw) → Result Properties
unfolding delegate convert_state resolve_tree network_ref_of bss_ref_of
properties resolver b = delegate "Station.Properties" b (λ r. r >>= with_refs resolver)

unfoldable pub scan : Option Error → Error
unfolding do_request
scan b = do_request "Station.Scan" b (λ e. e)

-- `OrderedNetworks`: a round of its loop, and the method.
abbrev pub ordered_in : (String → Ref) → RawNetwork → OrderedNetwork
ordered_in ref n = record { network = ref n.network; signal_strength = n.signal_strength }

abbrev pub with_names : Option Resolver → List RawNetwork → Result (List OrderedNetwork)
with_names resolver ns = do
  tree ← resolve_tree resolver
  ok (map (ordered_in (network_ref_of tree)) ns)

unfoldable pub ordered_networks :
    Option Resolver → Option (Result (List RawNetwork)) → Result (List OrderedNetwork)
unfolding delegate resolve_tree network_ref_of
ordered_networks resolver b = delegate "Station.OrderedNetworks" b (λ r. r >>= with_names resolver)

-- `SetAffinities` and `ConnectHiddenNetwork`, for an object that answers each argument.
unfoldable pub set_affinities : Option (List String → Error) → List String → Error
unfolding do_request
set_affinities b paths = do_request "Station.SetAffinities" b (λ (c : List String → Error). c paths)

unfoldable pub disconnect : Option Error → Error
unfolding do_request
disconnect b = do_request "Station.Disconnect" b (λ e. e)

unfoldable pub connect_hidden_network : Option (String → Error) → String → Error
unfolding do_request
connect_hidden_network b name =
    do_request "Station.ConnectHiddenNetwork" b (λ (c : String → Error). c name)

-- `HiddenAccessPoints`: its loop, and the method.
unfoldable pub convert_hidden : List HiddenAccessPoint → Result (List HiddenAccessPoint)
unfolding convert_network_type
convert_hidden [] = ok []
convert_hidden (ap ∷ aps) = do
  t ← convert_network_type ap.network_type
  rest ← convert_hidden aps
  ok (
      record { address = ap.address; signal_strength = ap.signal_strength; network_type = t }
      ∷ rest)

unfoldable pub hidden_access_points :
    Option (Result (List HiddenAccessPoint)) → Result (List HiddenAccessPoint)
unfolding delegate convert_hidden
hidden_access_points b = delegate "Station.HiddenAccessPoints" b (λ r. r >>= convert_hidden)

-- The subscriptions.
unfoldable pub properties_changed :
    Bool → Option (Heard (Option (List Value)) Event) → Heard (Option (List Value)) Event
unfolding subscribe
properties_changed has_fn b =
    subscribe Resource.station "Station.SubscribePropertiesChanged" some has_fn b

abbrev pub kept_state : String → Option String
kept_state s = kept (convert_state s)

unfoldable pub state_changed : Bool → Option (Heard Event String) → Heard Event String
unfolding subscribe convert_state
state_changed has_fn b =
    subscribe Resource.station "Station.SubscribeStateChanged" kept_state has_fn b

unfoldable pub scanning_changed : Bool → Option (Heard Event Bool) → Heard Event Bool
unfolding subscribe
scanning_changed has_fn b =
    subscribe Resource.station "Station.SubscribeScanningChanged" some has_fn b

unfoldable pub connected_network_changed :
    Bool → Option (Heard Event (Option String)) → Heard Event (Option String)
unfolding subscribe
connected_network_changed has_fn b =
    subscribe Resource.station "Station.SubscribeConnectedNetworkChanged" some has_fn b

unfoldable pub connected_access_point_changed :
    Bool → Option (Heard Event (Option String)) → Heard Event (Option String)
unfolding subscribe
connected_access_point_changed has_fn b =
    subscribe Resource.station "Station.SubscribeConnectedAccessPointChanged" some has_fn b

unfoldable pub affinities_changed :
    Bool → Option (Heard Event (Option (List String))) → Heard Event (Option (List String))
unfolding subscribe
affinities_changed has_fn b =
    subscribe Resource.station "Station.SubscribeAffinitiesChanged" some has_fn b
