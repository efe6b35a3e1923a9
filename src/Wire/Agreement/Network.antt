-- ===== src/Wire/Agreement/Network.antt =====
-- `GetProperties` of a network against its getters.
use spiderw.Base.{Bool, ◌≡◌, refl, some, String}
use spiderw.Network.{Properties}
use spiderw.Wire.{Props, Result, ok, ◌>>=◌, Caller}
use spiderw.Wire.Agreement.{Answers, value, >>=-value, required-read, optional-read_optional}
use spiderw.Wire.Network.{
  iface, get_name, get_connected, get_device, get_type, get_extended_service_set, get_known_network,
  get_properties,
}

-- The properties read by one getter after another.
abbrev pub by_getters : (String → Bool) → Caller → Result Properties
by_getters valid c = do
  name ← get_name (some c)
  connected ← get_connected (some c)
  device ← get_device valid (some c)
  network_type ← get_type (some c)
  extended_service_set ← get_extended_service_set valid (some c)
  known_network ← get_known_network valid (some c)
  ok (record {
    name = name;
    connected = connected;
    device = device;
    network_type = network_type;
    extended_service_set = extended_service_set;
    known_network = known_network;
  })

pub get_properties-getters :
    (valid : String → Bool) (c : Caller) (all : Props)
    → Answers c iface all
    → value (get_properties valid (some c)) ≡ value (by_getters valid c)
unfolding get_properties get_name get_connected get_device get_type get_extended_service_set
    get_known_network
get_properties-getters valid c all h =
    rw (h.gets_all, get_properties)
      (>>=-value _ _ _ _ (required-read h "Name" _) λ name.
        >>=-value _ _ _ _ (required-read h "Connected" _) λ connected.
          >>=-value _ _ _ _ (required-read h "Device" _) λ device.
            >>=-value _ _ _ _ (required-read h "Type" _) λ network_type.
              >>=-value _ _ _ _ (required-read h "ExtendedServiceSet" _) λ extended_service_set.
                >>=-value _ _ _ _ (optional-read_optional h "KnownNetwork" _ _)
                  λ known_network. refl)
