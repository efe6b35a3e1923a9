-- ===== src/Wire/Agreement/Adapter.antt =====
-- `GetProperties` of an adapter against its getters.
use spiderw.Base.{◌≡◌, refl, some}
use spiderw.Wire.{Props, Result, ok, ◌>>=◌, Caller}
use spiderw.Wire.Agreement.{Answers, value, >>=-value, required-read, optional-read_optional}
use spiderw.Wire.Adapter.{
  Properties, iface, get_powered, get_name, get_supported_modes, get_model, get_vendor,
  get_properties,
}

-- The properties read by one getter after another.
abbrev pub by_getters : Caller → Result Properties
by_getters c = do
  powered ← get_powered (some c)
  name ← get_name (some c)
  supported_modes ← get_supported_modes (some c)
  model ← get_model (some c)
  vendor ← get_vendor (some c)
  ok (record {
    powered = powered;
    name = name;
    supported_modes = supported_modes;
    model = model;
    vendor = vendor;
  })

pub get_properties-getters :
    (c : Caller) (all : Props)
    → Answers c iface all
    → value (get_properties (some c)) ≡ value (by_getters c)
unfolding get_properties get_powered get_name get_supported_modes get_model get_vendor
get_properties-getters c all h =
    rw (h.gets_all, get_properties)
      (>>=-value _ _ _ _ (required-read h "Powered" _) λ powered.
        >>=-value _ _ _ _ (required-read h "Name" _) λ name.
          >>=-value _ _ _ _ (required-read h "SupportedModes" _) λ supported_modes.
            >>=-value _ _ _ _ (optional-read_optional h "Model" _ _)
              λ model. >>=-value _ _ _ _ (optional-read_optional h "Vendor" _ _) λ vendor. refl)
