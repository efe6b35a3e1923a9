-- ===== src/Core/Station.antt =====
-- internal/core/station.go: the subscriptions. The rest of the file is Station.
use spiderw.Base.{Bool, not, Option, some, String, List, if◌then◌else◌}
use spiderw.Failure.{Kind, Resource}
use spiderw.Values.{valid_station_state}
use spiderw.Errors.{core_error, sentinel, core_mark, Object, station_unavailable_policy}
use spiderw.Wire.{Value, Result, ok, failed}
use spiderw.Wire.Events.{Event}
use spiderw.Core.{Facade, Heard, subscribe}

abbrev pub station : Facade
station = record {
  noun = "Station";
  words = "station";
  object = Object.station;
  policy = station_unavailable_policy;
}

unfoldable pub properties_changed :
    Bool → Option (Heard (Option (List Value)) Event) → Heard (Option (List Value)) Event
unfolding subscribe
properties_changed has_fn b = subscribe station "SubscribePropertiesChanged" has_fn b

unfoldable pub state_changed : Bool → Option (Heard Event String) → Heard Event String
unfolding subscribe
state_changed has_fn b = subscribe station "SubscribeStateChanged" has_fn b

unfoldable pub scanning_changed : Bool → Option (Heard Event Bool) → Heard Event Bool
unfolding subscribe
scanning_changed has_fn b = subscribe station "SubscribeScanningChanged" has_fn b

unfoldable pub connected_network_changed :
    Bool → Option (Heard Event (Option String)) → Heard Event (Option String)
unfolding subscribe
connected_network_changed has_fn b = subscribe station "SubscribeConnectedNetworkChanged" has_fn b

unfoldable pub connected_access_point_changed :
    Bool → Option (Heard Event (Option String)) → Heard Event (Option String)
unfolding subscribe
connected_access_point_changed has_fn b =
    subscribe station "SubscribeConnectedAccessPointChanged" has_fn b

unfoldable pub affinities_changed :
    Bool → Option (Heard Event (Option (List String))) → Heard Event (Option (List String))
unfolding subscribe
affinities_changed has_fn b = subscribe station "SubscribeAffinitiesChanged" has_fn b

-- `ParseStationState`, whose unused result beside an error is left out.
unfoldable pub parse_station_state : String → Result String
unfolding valid_station_state
parse_station_state s =
    if not (valid_station_state s)
    then failed (
        some (
          core_error Kind.invalid_argument Resource.station "Station.ParseStationState"
            "invalid station state" (sentinel core_mark)))
    else ok s
