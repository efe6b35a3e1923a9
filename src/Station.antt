-- ===== src/Station.antt =====
-- internal/core/station.go: what the core layer makes of a station's answers, with the two helpers
-- of internal/core/network.go that it calls. The answer of a method of internal/iwdbus/station.go is
-- an argument, and none stands for a wrapper that has no backend. The subscriptions are
-- in Core/Station; a text that an error quotes is left out.
pub mod Normal
pub mod Commands
pub mod Requests
mod Tests
use spiderw.Base.{
  Bool, true, false, ◌||◌, not, Option, none, some, String, List, [], ◌∷◌, ℤ, if◌then◌else◌,
}
use spiderw.Base.Text.{is_blank, is_absolute, trim_space}
use spiderw.Failure.{Resource}
use spiderw.Errors.{Error, Object, sentinel, core_uninitialized, plain}
use spiderw.Errors.{
  wrap_invalid_state, wrap_invalid_argument, wrap_unavailable, station_unavailable_policy,
}
use spiderw.Outside.{Returned}
use spiderw.Values.{valid_station_state, valid_network_type}

-- `StationProperties` of both layers.
pub record Properties : Type 0 where
  pub state : String
  pub scanning : Bool
  pub connected_network : Option String
  pub connected_access_point : Option String
  pub affinities : Option (List String)

-- `OrderedNetwork` of both layers.
pub record OrderedNetwork : Type 0 where
  pub network : String
  pub signal_strength : ℤ

-- `HiddenAccessPoint` of both layers.
pub record HiddenAccessPoint : Type 0 where
  pub address : String
  pub signal_strength : ℤ
  pub network_type : String

-- `rawStation`: the error of a wrapper that has no backend.
abbrev pub uninitialized : String → Error
uninitialized op =
    wrap_invalid_state Resource.station op "station wrapper was nil"
      (some (sentinel (core_uninitialized Object.station)))

-- The start of each method: the backend is there, and its answer is no error. `zero` is what is
-- returned beside an error.
abbrev pub answered :
    {A B : Type 0} → String → String → B → Option (A × Error) → (A → B × Error) → B × Error
answered op details zero none next = (zero, uninitialized op)
answered op details zero (some (_, some e)) next =
    (zero, wrap_unavailable station_unavailable_policy op details (some e))
answered op details zero (some (x, none)) next = next x

-- `validateStationState`; a state that is not known comes back as `StationStateUnknown`.
unfoldable pub validate_station_state : String → String → String × Error
validate_station_state op state =
    if not (valid_station_state state)
    then (
      "",
      wrap_invalid_state Resource.station op "station reported unknown state"
          (some (plain "missing or invalid State field")),
    )
    else (state, none)

-- `validateNetworkType`.
unfoldable pub validate_network_type : Resource → String → String → String × Error
validate_network_type resource op t =
    if not (valid_network_type t)
    then (
      "",
      wrap_invalid_state resource op "network reported unknown type"
          (some (plain "missing or invalid Type field")),
    )
    else (t, none)

-- `normalizeOptionalString`.
unfoldable pub normalize_optional_string : Option String → Option String
unfolding trim_space
normalize_optional_string none = none
normalize_optional_string (some p) =
    let trimmed = trim_space p in if is_blank trimmed then none else some trimmed

-- `Station.State`, `Scanning`, `ConnectedNetwork`, `ConnectedAccessPoint` and `Affinities`.
unfoldable pub state : Option (String × Error) → String × Error
unfolding validate_station_state
state b =
    answered "Station.State" "failed querying iwd Station state" "" b
      (validate_station_state "Station.State")

unfoldable pub scanning : Option (Bool × Error) → Bool × Error
scanning b =
    answered "Station.Scanning" "failed querying iwd Station scanning" false b (λ v. (v, none))

unfoldable pub connected_network : Option (Option String × Error) → Option String × Error
unfolding normalize_optional_string
connected_network b =
    answered "Station.ConnectedNetwork" "failed querying iwd Station connected network" none b
      (λ v. (normalize_optional_string v, none))

unfoldable pub connected_access_point : Option (Option String × Error) → Option String × Error
unfolding normalize_optional_string
connected_access_point b =
    answered "Station.ConnectedAccessPoint" "failed querying iwd Station connected access point"
      none b (λ v. (normalize_optional_string v, none))

unfoldable pub affinities : Option (Returned (List String)) → Returned (List String)
affinities b =
    answered "Station.Affinities" "failed querying iwd Station affinities" none b (λ v. (v, none))

-- The part of `Properties` after the state is validated.
abbrev pub with_state : Properties → String × Error → Returned Properties
with_state raw (_, some e) = (none, some e)
with_state raw (s, none) = (
  some (record {
    state = s;
    scanning = raw.scanning;
    connected_network = normalize_optional_string raw.connected_network;
    connected_access_point = normalize_optional_string raw.connected_access_point;
    affinities = raw.affinities;
  }),
  none,
)

-- `Station.Properties`, for the answer of `GetProperties`, which is not nil without an error.
unfoldable pub properties : Option (Properties × Error) → Returned Properties
unfolding validate_station_state normalize_optional_string
properties b =
    answered "Station.Properties" "failed querying iwd Station properties" none b
      (λ raw. with_state raw (validate_station_state "Station.Properties" raw.state))

-- What a loop that appends to a result makes of the rest of its list.
abbrev pub prepend : {A : Type 0} → A → Returned (List A) → Returned (List A)
prepend x (none, e) = (none, e)
prepend x (some xs, e) = (some (x ∷ xs), e)

-- One round of such a loop, which returns early on an error.
abbrev pub append_or_return : {A : Type 0} → Returned A → Returned (List A) → Returned (List A)
append_or_return (_, some e) rest = (none, some e)
append_or_return (none, none) rest = (none, none)  -- never returned
append_or_return (some x, none) rest = prepend x rest

-- The two bodies of the loops: a network of `OrderedNetworks`, and an access point of
-- `HiddenAccessPoints`.
unfoldable pub ordered_network : OrderedNetwork → Returned OrderedNetwork
unfolding trim_space
ordered_network n =
    let path = trim_space n.network in
    if is_blank path || not (is_absolute path)
    then (
      none,
      wrap_invalid_state Resource.station "Station.OrderedNetworks"
          "station returned invalid network path" (some (plain "invalid network path")),
    )
    else (some (record { network = path; signal_strength = n.signal_strength }), none)

abbrev pub with_type : HiddenAccessPoint → String × Error → Returned HiddenAccessPoint
with_type ap (_, some e) = (none, some e)
with_type ap (t, none) = (
  some (record {
    address = trim_space ap.address;
    signal_strength = ap.signal_strength;
    network_type = t;
  }),
  none,
)

unfoldable pub hidden_access_point : HiddenAccessPoint → Returned HiddenAccessPoint
unfolding validate_network_type trim_space
hidden_access_point ap =
    with_type ap
      (validate_network_type Resource.station "Station.HiddenAccessPoints" ap.network_type)

-- The loops.
unfoldable pub collect : {A B : Type 0} → (A → Returned B) → List A → Returned (List B)
collect f [] = (some [], none)
collect f (x ∷ xs) = append_or_return (f x) (collect f xs)

-- `Station.OrderedNetworks` and `HiddenAccessPoints`; the answer nil is the empty slice.
unfoldable pub ordered_networks :
    Option (List OrderedNetwork × Error) → Returned (List OrderedNetwork)
unfolding collect ordered_network
ordered_networks b =
    answered "Station.OrderedNetworks" "failed querying iwd Station ordered networks" none b
      (collect ordered_network)

unfoldable pub hidden_access_points :
    Option (List HiddenAccessPoint × Error) → Returned (List HiddenAccessPoint)
unfolding collect hidden_access_point
hidden_access_points b =
    answered "Station.HiddenAccessPoints" "failed querying iwd Station hidden access points" none b
      (collect hidden_access_point)
