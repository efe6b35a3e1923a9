-- ===== src/Core/Agreement/Adapter.antt =====
-- `Properties` of an adapter against its getters.
use spiderw.Base.{Bool, ◌≡◌, refl, sym, ◌∙◌, Option, some, String, List}
use spiderw.Wire.{Props, Result, ok, ◌>>=◌, Caller}
use spiderw.Wire.Agreement.{Answers, value, >>=-value}
use spiderw.Wire.Adapter.{
  Properties, iface, get_powered, get_name, get_model, get_vendor, get_supported_modes,
  get_properties,
}
use spiderw.Wire.Agreement.Adapter.{get_properties-getters}
use spiderw.Core.{required_text}
use spiderw.Core.Adapter.{
  adapter, powered, name, model, vendor, supported_modes, properties, normal, trim_optional,
  validate_supported_modes,
}
use spiderw.Core.Agreement.{query-value, five-value, five-checked, required_text-value}

abbrev made : Bool → String → List String → Option String → Option String → Properties
made p n ms m v = record { powered = p; name = n; supported_modes = ms; model = m; vendor = v }

-- The properties read by one getter of the core layer after another.
abbrev pub by_getters : Caller → Result Properties
by_getters c = do
  is_powered ← powered (some (get_powered (some c)))
  its_name ← name (some (get_name (some c)))
  modes ← supported_modes (some (get_supported_modes (some c)))
  its_model ← model (some (get_model (some c)))
  its_vendor ← vendor (some (get_vendor (some c)))
  ok (made is_powered its_name modes its_model its_vendor)

pub properties-getters :
    (c : Caller) (all : Props)
    → Answers c iface all
    → value (properties (some (get_properties (some c)))) ≡ value (by_getters c)
unfolding properties normal powered name model vendor supported_modes
properties-getters c all h =
    query-value adapter "Properties" "failed querying iwd Adapter properties" normal
      (get_properties (some c))
    ∙ >>=-value _ _ normal normal (get_properties-getters c all h) (λ r. refl)
    ∙ five-checked (get_powered (some c)) (get_name (some c)) (get_supported_modes (some c))
        (get_model (some c)) (get_vendor (some c)) ok (required_text adapter "Adapter.Name" "Name")
        validate_supported_modes (λ m. ok (trim_optional m)) (λ v. ok (trim_optional v)) made normal
        made
        (λ p n ms m v.
          >>=-value _ _ _ _
            (required_text-value adapter "Adapter.Properties" "Adapter.Name" "Name" n) λ t. refl)
    ∙ five-value _ _ _ _ _ _ _ _ _ _ made
        (sym (query-value adapter "Powered" _ ok (get_powered (some c))))
        (sym (query-value adapter "Name" _ _ (get_name (some c))))
        (sym (query-value adapter "SupportedModes" _ _ (get_supported_modes (some c))))
        (sym (query-value adapter "Model" _ _ (get_model (some c))))
        (sym (query-value adapter "Vendor" _ _ (get_vendor (some c))))
