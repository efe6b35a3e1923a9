-- ===== src/Core/Agreement/Device.antt =====
-- `Properties` of a device against its getters.
use spiderw.Base.{Bool, ◌≡◌, refl, sym, ◌∙◌, some, String, Bool-cases, inl, inr}
use spiderw.Values.{valid_mode}
use spiderw.Wire.{Props, Result, ok, ◌>>=◌, Caller}
use spiderw.Wire.Agreement.{Answers, value, >>=-value}
use spiderw.Wire.Device.{
  Properties, iface, get_name, get_address, get_powered, get_mode, get_adapter, get_properties,
}
use spiderw.Wire.Agreement.Device.{get_properties-getters}
use spiderw.Core.{required_text}
use spiderw.Core.Device.{
  device, name, address, powered, mode, adapter, properties, normal, validate_mode,
}
use spiderw.Core.Agreement.{
  query-value, five, five-value, five-checked, required_text-value, swap-value,
}

abbrev made : String → String → Bool → String → String → Properties
made n a p m owner = record { name = n; address = a; powered = p; mode = m; adapter = owner }

-- The properties read by one getter of the core layer after another.
abbrev pub by_getters : (String → Bool) → Caller → Result Properties
by_getters valid c = do
  its_name ← name (some (get_name (some c)))
  its_address ← address (some (get_address (some c)))
  is_powered ← powered (some (get_powered (some c)))
  its_mode ← mode (some (get_mode (some c)))
  owner ← adapter (some (get_adapter valid (some c)))
  ok (made its_name its_address is_powered its_mode owner)

validate_mode-value : (op op' m : String) → value (validate_mode op m) ≡ value (validate_mode op' m)
unfolding validate_mode
validate_mode-value op op' m = elim (Bool-cases (valid_mode m)) [
  | inl v ↦ rw (v, validate_mode) refl
  | inr v ↦ rw (v, validate_mode) refl
]

normal-checked :
    (n a : String) (p : Bool) (m owner : String)
    → value (normal (made n a p m owner))
      ≡ value (
          five
            (required_text device "Device.Name" "Name" n)
            (required_text device "Device.Address" "Address" a)
            (ok p)
            (validate_mode "Device.Mode" m)
            (required_text device "Device.Adapter" "Adapter" owner)
            made)
unfolding normal
normal-checked n a p m owner = >>=-value _ _ _ _ (required_text-value device _ _ "Name" n) λ n'.
    >>=-value _ _ _ _ (required_text-value device _ _ "Address" a) λ a'.
      swap-value (required_text device "Device.Properties" "Adapter" owner)
        (validate_mode "Device.Properties" m) (λ o' m'. ok (made n' a' p m' o'))
      ∙ >>=-value _ _ _ _ (validate_mode-value "Device.Properties" "Device.Mode" m) λ m'.
        >>=-value _ _ _ _
          (required_text-value device "Device.Properties" "Device.Adapter" "Adapter" owner)
          λ o'. refl

pub properties-getters :
    (valid : String → Bool) (c : Caller) (all : Props)
    → Answers c iface all
    → value (properties (some (get_properties valid (some c)))) ≡ value (by_getters valid c)
unfolding properties name address powered mode adapter
properties-getters valid c all h =
    query-value device "Properties" "failed querying iwd Device properties" normal
      (get_properties valid (some c))
    ∙ >>=-value _ _ normal normal (get_properties-getters valid c all h) (λ r. refl)
    ∙ five-checked (get_name (some c)) (get_address (some c)) (get_powered (some c))
        (get_mode (some c)) (get_adapter valid (some c)) (required_text device "Device.Name" "Name")
        (required_text device "Device.Address" "Address") ok (validate_mode "Device.Mode")
        (required_text device "Device.Adapter" "Adapter") made normal made normal-checked
    ∙ five-value _ _ _ _ _ _ _ _ _ _ made (sym (query-value device "Name" _ _ (get_name (some c))))
        (sym (query-value device "Address" _ _ (get_address (some c))))
        (sym (query-value device "Powered" _ ok (get_powered (some c))))
        (sym (query-value device "Mode" _ _ (get_mode (some c))))
        (sym (query-value device "Adapter" _ _ (get_adapter valid (some c))))
