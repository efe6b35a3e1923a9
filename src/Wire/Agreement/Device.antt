-- ===== src/Wire/Agreement/Device.antt =====
-- `GetProperties` of a device against its getters.
use spiderw.Base.{Bool, ◌≡◌, refl, some, String}
use spiderw.Wire.{Props, Result, ok, ◌>>=◌, Caller}
use spiderw.Wire.Agreement.{Answers, value, >>=-value, required-read}
use spiderw.Wire.Device.{
  Properties, iface, get_name, get_address, get_powered, get_mode, get_adapter, get_properties,
}

-- The properties read by one getter after another.
abbrev pub by_getters : (String → Bool) → Caller → Result Properties
by_getters valid c = do
  name ← get_name (some c)
  address ← get_address (some c)
  powered ← get_powered (some c)
  mode ← get_mode (some c)
  adapter ← get_adapter valid (some c)
  ok (record { name = name; address = address; powered = powered; mode = mode; adapter = adapter })

pub get_properties-getters :
    (valid : String → Bool) (c : Caller) (all : Props)
    → Answers c iface all
    → value (get_properties valid (some c)) ≡ value (by_getters valid c)
unfolding get_properties get_name get_address get_powered get_mode get_adapter
get_properties-getters valid c all h =
    rw (h.gets_all, get_properties)
      (>>=-value _ _ _ _ (required-read h "Name" _) λ name.
        >>=-value _ _ _ _ (required-read h "Address" _) λ address.
          >>=-value _ _ _ _ (required-read h "Powered" _) λ powered.
            >>=-value _ _ _ _ (required-read h "Mode" _)
              λ mode. >>=-value _ _ _ _ (required-read h "Adapter" _) λ adapter. refl)
