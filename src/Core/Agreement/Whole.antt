-- ===== src/Core/Agreement/Whole.antt =====
-- `Properties` of the core layer against its getters, for the facades that have both.
use spiderw.Base.{Bool, ◌≡◌, sym, ◌∙◌, some, String}
use spiderw.Wire.{Props, Caller, Iface}
use spiderw.Wire.Agreement.{Answers, value, >>=-value}
use spiderw.Wire.Agreement.Whole.{get_properties_agree}
use spiderw.Wire.Small.{get_address, get_bss_properties}
use spiderw.Wire
use spiderw.Core
use spiderw.Core.{required_text}
use spiderw.Core.Small.{basic_service_set}
use spiderw.Core.Agreement
use spiderw.Core.Agreement.{query-value, required_text-value}

service_set :
    (valid : String → Bool) (c : Caller) (all : Iface → Props)
    → ((i : Iface) → Answers c i (all i))
    → value (Core.Small.properties (some (get_bss_properties (some c))))
      ≡ value (Core.Small.address (some (get_address (some c))))
unfolding Core.Small.properties Core.Small.address
service_set valid c all h =
    let agree = (get_properties_agree valid c all h).6 in
    query-value basic_service_set "Properties" "failed querying iwd BasicServiceSet properties"
      (required_text basic_service_set "BasicServiceSet.Properties" "Address")
      (get_bss_properties (some c))
    ∙ >>=-value _ _ (required_text basic_service_set "BasicServiceSet.Properties" "Address")
        (required_text basic_service_set "BasicServiceSet.Address" "Address") agree
        (λ a. required_text-value basic_service_set _ _ "Address" a)
    ∙ sym (query-value basic_service_set "Address" _ _ (get_address (some c)))

-- What `Properties` of the core layer returns is what its getters return, one after another.
abbrev pub PropertiesAgree : (String → Bool) → Caller → Type 0
PropertiesAgree valid c =
    (value (Core.Adapter.properties (some (Wire.Adapter.get_properties (some c))))
      ≡ value (Agreement.Adapter.by_getters c))
    × (value (Core.Device.properties (some (Wire.Device.get_properties valid (some c))))
        ≡ value (Agreement.Device.by_getters valid c))
    × (value (Core.KnownNetwork.properties (some (Wire.KnownNetwork.get_properties (some c))))
        ≡ value (Agreement.KnownNetwork.by_getters c))
    × (value (Core.AccessPoint.properties (some (Wire.AccessPoint.get_properties (some c))))
        ≡ value (Agreement.AccessPoint.by_getters c))
    × (value (Core.Small.properties (some (get_bss_properties (some c))))
        ≡ value (Core.Small.address (some (get_address (some c)))))

-- Through both layers, for an object of iwd that answers Properties.Get and Properties.GetAll from the
-- same values, with the error for a property without a value where one is missing: `Properties` of
-- the core layer, over `GetProperties` of internal/iwdbus, succeeds exactly when every getter of the
-- core layer does over the getter of internal/iwdbus, and then returns what the getters return. This
-- holds of adapters, devices, known networks, access points and basic service sets.
pub properties_agree :
    (valid : String → Bool) (c : Caller) (all : Iface → Props)
    → ((i : Iface) → Answers c i (all i))
    → PropertiesAgree valid c
properties_agree valid c all h = (
  Agreement.Adapter.properties-getters c _ (h Wire.Adapter.iface),
  Agreement.Device.properties-getters valid c _ (h Wire.Device.iface),
  Agreement.KnownNetwork.properties-getters c _ (h Wire.KnownNetwork.iface),
  Agreement.AccessPoint.properties-getters c _ (h Wire.AccessPoint.iface),
  service_set valid c all h,
)
