-- ===== src/Values/Tests.antt =====
-- The theorems on canonical values at concrete strings.
use spiderw.Base.{true, ◌≡◌, refl}
use spiderw.Values.{
  parse_mode, mode_string, parse_station_state, station_state_string, parse_network_type,
  network_type_string,
}
use spiderw.Values.Canonical.{
  RoundTrips, round_trips, mode_words, station_state_words, network_type_words,
}

round_trips_example :
    RoundTrips mode_words parse_mode mode_string "ad-hoc"
    × RoundTrips station_state_words parse_station_state station_state_string "roaming"
    × RoundTrips network_type_words parse_network_type network_type_string "wpa3"
round_trips_example = round_trips "ad-hoc" "roaming" "wpa3"

parse_ap : parse_mode "ap" ≡ ("ap", true)
unfolding parse_mode
parse_ap = refl
