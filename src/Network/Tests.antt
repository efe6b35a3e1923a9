-- ===== src/Network/Tests.antt =====
-- The theorems on a network at concrete inputs.
use spiderw.Base.{none, some, [], ◌∷◌, true}
use spiderw.Network.{Properties, properties, extended_service_set}
use spiderw.Station.Normal.{Accepts, all}
use spiderw.Network.Normal.{is_solid, acceptable, normal, network_properties-getters}

abbrev raw : Properties
raw = record {
  name = "home ";
  connected = true;
  device = "/net/connman/iwd/0/4";
  network_type = "psk";
  known_network = some "";
  extended_service_set = " /bss/1" ∷ "/bss/2" ∷ [];
}

network_properties-getters_example :
    Accepts (λ (r : Properties). properties (some (r, none))) acceptable normal raw
    × Accepts
        (λ (r : Properties). extended_service_set (some (r.extended_service_set, none)))
        (λ r. all is_solid r.extended_service_set)
        (λ r. (normal r).extended_service_set)
        raw
network_properties-getters_example = network_properties-getters raw
