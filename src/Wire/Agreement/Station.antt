-- ===== src/Wire/Agreement/Station.antt =====
-- `GetProperties` of a station against its getters.
use spiderw.Base.{Bool, ◌≡◌, refl, some, String}
use spiderw.Station.{Properties}
use spiderw.Wire.{Props, Result, ok, ◌>>=◌, Caller}
use spiderw.Wire.Agreement.{Answers, value, >>=-value, required-read, optional-read_optional}
use spiderw.Wire.Station.{
  iface, get_state, get_scanning, get_connected_network, get_connected_access_point, get_affinities,
  get_properties,
}

-- The properties read by one getter after another.
abbrev pub by_getters : (String → Bool) → Caller → Result Properties
by_getters valid c = do
  state ← get_state (some c)
  scanning ← get_scanning (some c)
  network ← get_connected_network valid (some c)
  access_point ← get_connected_access_point valid (some c)
  affinities ← get_affinities valid (some c)
  ok (record {
    state = state;
    scanning = scanning;
    connected_network = network;
    connected_access_point = access_point;
    affinities = affinities;
  })

pub get_properties-getters :
    (valid : String → Bool) (c : Caller) (all : Props)
    → Answers c iface all
    → value (get_properties valid (some c)) ≡ value (by_getters valid c)
unfolding get_properties get_state get_scanning get_connected_network get_connected_access_point
    get_affinities
get_properties-getters valid c all h =
    rw (h.gets_all, get_properties)
      (>>=-value _ _ _ _ (required-read h "State" _) λ state.
        >>=-value _ _ _ _ (required-read h "Scanning" _) λ scanning.
          >>=-value _ _ _ _ (optional-read_optional h "ConnectedNetwork" _ _) λ network.
            >>=-value _ _ _ _ (optional-read_optional h "ConnectedAccessPoint" _ _) λ access_point.
              >>=-value _ _ _ _ (optional-read_optional h "Affinities" _ _) λ affinities. refl)
