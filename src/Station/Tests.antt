-- ===== src/Station/Tests.antt =====
-- The theorems on a station at concrete inputs.
use spiderw.Base.{
  true, false, ◌&&◌, ◌≡◌, ◌⊎◌, none, some, List, [], ◌∷◌, negsuc, if◌then◌else◌, String,
}
use spiderw.Base.Text.{is_absolute}
use spiderw.Errors.{Error, plain}
use spiderw.Errors.Laws.Some.{is_nil}
use spiderw.Values.{valid_station_state}
use spiderw.Station.{Properties, OrderedNetwork, HiddenAccessPoint, properties, state}
use spiderw.Station.Commands.{set_affinities}
use spiderw.Station.Normal.{read_one_by_one, properties-getters, all, Collected, networks-Accepts}
use spiderw.Station.Requests.{set_affinities-Asks}

abbrev raw : Properties
raw = record {
  state = "connected";
  scanning = false;
  connected_network = some " /net/connman/iwd/0/4 ";
  connected_access_point = some " ";
  affinities = none;
}

properties-getters_example :
    let accepted = is_nil (state (some (raw.state, none))).1 in
    ((properties (some (raw, none))).0 ≡ (if accepted then some (read_one_by_one raw) else none))
    × (is_nil (properties (some (raw, none))).1 ≡ accepted)
    × (accepted ≡ valid_station_state raw.state)
properties-getters_example = properties-getters raw

abbrev networks : List OrderedNetwork
networks =
    record { network = "/n1 "; signal_strength = negsuc 5999 }
    ∷ record { network = "n2"; signal_strength = negsuc 7099 }
    ∷ []

abbrev access_points : List HiddenAccessPoint
access_points =
    record { address = "00:11:22:33:44:55\n"; signal_strength = negsuc 6499; network_type = "psk" }
    ∷ []

networks-Accepts_example : Collected networks access_points
networks-Accepts_example = networks-Accepts networks access_points

abbrev accepts : List String → Error
accepts ps = none

abbrev refuses : List String → Error
refuses ps = some (plain "not supported")

abbrev paths : List String
paths = "/bss/1" ∷ "bss/2" ∷ []

set_affinities-Asks_example :
    (is_nil (set_affinities (some accepts) paths)
      ≡ (all is_absolute paths && is_nil (accepts paths)))
    × ((all is_absolute paths ≡ true)
        ⊎ (set_affinities (some refuses) paths ≡ set_affinities (some accepts) paths))
set_affinities-Asks_example = set_affinities-Asks accepts refuses paths
