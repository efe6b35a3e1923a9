-- ===== src/Wire/Station.antt =====
-- internal/iwdbus/station.go: the getters, the setter and the methods of a station.
use spiderw.Base.{Bool, Option, none, String, List, [], ◌∷◌}
use spiderw.Errors.{Error, Object}
use spiderw.Station.{Properties, OrderedNetwork, HiddenAccessPoint}
use spiderw.Wire.{
  Value, text, object_paths, Iface, Caller, Result, ok, ◌>>=◌, read, read_optional, read_all,
  required, optional, write, invoke, fetch,
}
use spiderw.Wire.Parse.{as_bool, parse_state, parse_type, parse_optional_path, parse_affinities}

abbrev pub iface : Iface
iface = record { noun = "Station"; object = Object.station }

unfoldable pub get_state : Option Caller → Result String
unfolding read parse_state
get_state = read iface "State" parse_state

unfoldable pub get_scanning : Option Caller → Result Bool
unfolding read as_bool
get_scanning = read iface "Scanning" (as_bool "Scanning")

module _ (valid : String → Bool) where
  unfoldable pub get_connected_network : Option Caller → Result (Option String)
  unfolding read_optional parse_optional_path
  get_connected_network =
      read_optional iface "ConnectedNetwork" none (parse_optional_path valid "ConnectedNetwork")

  unfoldable pub get_connected_access_point : Option Caller → Result (Option String)
  unfolding read_optional parse_optional_path
  get_connected_access_point =
      read_optional iface "ConnectedAccessPoint" none
        (parse_optional_path valid "ConnectedAccessPoint")

  unfoldable pub get_affinities : Option Caller → Result (Option (List String))
  unfolding read_optional parse_affinities
  get_affinities = read_optional iface "Affinities" none (parse_affinities valid)

  -- `GetProperties`.
  unfoldable pub get_properties : Option Caller → Result Properties
  unfolding read_all required optional parse_state as_bool parse_optional_path parse_affinities
  get_properties = read_all iface λ raw. do
    state ← required iface raw "State" parse_state
    scanning ← required iface raw "Scanning" (as_bool "Scanning")
    network ← optional raw "ConnectedNetwork" none (parse_optional_path valid "ConnectedNetwork")
    access_point ←
        optional raw "ConnectedAccessPoint" none (parse_optional_path valid "ConnectedAccessPoint")
    affinities ← optional raw "Affinities" none (parse_affinities valid)
    ok (record {
      state = state;
      scanning = scanning;
      connected_network = network;
      connected_access_point = access_point;
      affinities = affinities;
    })

unfoldable pub scan : Option Caller → Error
unfolding invoke
scan = invoke iface "Scan" []

unfoldable pub disconnect : Option Caller → Error
unfolding invoke
disconnect = invoke iface "Disconnect" []

unfoldable pub connect_hidden_network : String → Option Caller → Error
unfolding invoke
connect_hidden_network name = invoke iface "ConnectHiddenNetwork" (text name ∷ [])

unfoldable pub set_affinities : List String → Option Caller → Error
unfolding write
set_affinities paths = write iface "Affinities" (object_paths paths)

-- `GetOrderedNetworks`, for the function that decodes the reply.
unfoldable pub get_ordered_networks :
    (List Value → Result (List OrderedNetwork)) → Option Caller → Result (List OrderedNetwork)
unfolding fetch
get_ordered_networks store = fetch iface "GetOrderedNetworks" store

-- The loop of `GetHiddenAccessPoints`.
unfoldable pub typed : List HiddenAccessPoint → Result (List HiddenAccessPoint)
unfolding parse_type
typed [] = ok []
typed (t ∷ ts) = do
  network_type ← parse_type (text t.network_type)
  rest ← typed ts
  ok (record t { network_type = network_type } ∷ rest)

unfoldable pub get_hidden_access_points :
    (List Value → Result (List HiddenAccessPoint)) → Option Caller → Result (List HiddenAccessPoint)
unfolding fetch typed
get_hidden_access_points store c = do
  tuples ← fetch iface "GetHiddenAccessPoints" store c
  typed tuples
