-- ===== src/Wire/Agreement/Whole.antt =====
-- `GetProperties` against the getters, for every object that has both.
use spiderw.Base.{Bool, ◌≡◌, some, String}
use spiderw.Wire.{Props, Caller, Iface}
use spiderw.Wire.Agreement.{Answers, value, required-read}
use spiderw.Wire.Small.{bss_iface, get_address, get_bss_properties}
use spiderw.Wire
use spiderw.Wire.Agreement

basic_service_set :
    (c : Caller) (all : Props)
    → Answers c bss_iface all
    → value (get_bss_properties (some c)) ≡ value (get_address (some c))
unfolding get_bss_properties get_address
basic_service_set c all h = rw (h.gets_all, get_bss_properties) (required-read h "Address" _)

-- For an object that answers Properties.Get and Properties.GetAll from the same values, with the
-- error for a property without a value where one is missing: `GetProperties` succeeds exactly when
-- every getter does, and then returns what the getters return. This holds of stations, networks,
-- adapters, devices, known networks, access points and basic service sets.
pub get_properties_agree :
    (valid : String → Bool) (c : Caller) (all : Iface → Props)
    → ((i : Iface) → Answers c i (all i))
    → (value (Wire.Station.get_properties valid (some c))
        ≡ value (Agreement.Station.by_getters valid c))
      × (value (Wire.Network.get_properties valid (some c))
          ≡ value (Agreement.Network.by_getters valid c))
      × (value (Wire.Adapter.get_properties (some c)) ≡ value (Agreement.Adapter.by_getters c))
      × (value (Wire.Device.get_properties valid (some c))
          ≡ value (Agreement.Device.by_getters valid c))
      × (value (Wire.KnownNetwork.get_properties (some c))
          ≡ value (Agreement.KnownNetwork.by_getters c))
      × (value (Wire.AccessPoint.get_properties (some c))
          ≡ value (Agreement.AccessPoint.by_getters c))
      × (value (get_bss_properties (some c)) ≡ value (get_address (some c)))
get_properties_agree valid c all h = (
  Agreement.Station.get_properties-getters valid c _ (h Wire.Station.iface),
  Agreement.Network.get_properties-getters valid c _ (h Wire.Network.iface),
  Agreement.Adapter.get_properties-getters c _ (h Wire.Adapter.iface),
  Agreement.Device.get_properties-getters valid c _ (h Wire.Device.iface),
  Agreement.KnownNetwork.get_properties-getters c _ (h Wire.KnownNetwork.iface),
  Agreement.AccessPoint.get_properties-getters c _ (h Wire.AccessPoint.iface),
  basic_service_set c _ (h bss_iface),
)
