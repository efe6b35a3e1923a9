-- ===== src/Core/Agreement/KnownNetwork.antt =====
-- `Properties` of a known network against its getters.
use spiderw.Base.{Bool, ◌≡◌, refl, sym, ◌∙◌, Option, some, String, Bool-cases, inl, inr}
use spiderw.Values.{valid_network_type}
use spiderw.Station.{normalize_optional_string, validate_network_type}
use spiderw.Errors.{wrap_invalid_state, new_error}
use spiderw.Wire.{Props, Result, ok, ◌>>=◌, Caller}
use spiderw.Wire.Agreement.{Answers, value, >>=-value}
use spiderw.Wire.KnownNetwork.{
  Properties, iface, get_name, get_type, get_hidden, get_auto_connect, get_last_connected_time,
  get_properties,
}
use spiderw.Wire.Agreement.KnownNetwork.{get_properties-getters}
use spiderw.Core.{required_text}
use spiderw.Core.KnownNetwork.{
  known_network, name, network_type, hidden, auto_connect, last_connected_time, properties, normal,
  checked_type,
}
use spiderw.Core.Agreement.{query-value, five-value, five-checked, required_text-value}

abbrev made : String → String → Bool → Bool → Option String → Properties
made n t is_hidden auto time = record {
  name = n;
  network_type = t;
  hidden = is_hidden;
  auto_connect = auto;
  last_connected_time = time;
}

-- The properties read by one getter of the core layer after another.
abbrev pub by_getters : Caller → Result Properties
by_getters c = do
  its_name ← name (some (get_name (some c)))
  its_type ← network_type (some (get_type (some c)))
  is_hidden ← hidden (some (get_hidden (some c)))
  connects ← auto_connect (some (get_auto_connect (some c)))
  time ← last_connected_time (some (get_last_connected_time (some c)))
  ok (made its_name its_type is_hidden connects time)

checked_type-value : (op op' t : String) → value (checked_type op t) ≡ value (checked_type op' t)
unfolding checked_type validate_network_type wrap_invalid_state new_error
checked_type-value op op' t = elim (Bool-cases (valid_network_type t)) [
  | inl v ↦ rw (v, checked_type) refl
  | inr v ↦ rw (v, checked_type) refl
]

pub properties-getters :
    (c : Caller) (all : Props)
    → Answers c iface all
    → value (properties (some (get_properties (some c)))) ≡ value (by_getters c)
unfolding properties normal name network_type hidden auto_connect last_connected_time
properties-getters c all h =
    query-value known_network "Properties" "failed querying iwd KnownNetwork properties" normal
      (get_properties (some c))
    ∙ >>=-value _ _ normal normal (get_properties-getters c all h) (λ r. refl)
    ∙ five-checked (get_name (some c)) (get_type (some c)) (get_hidden (some c))
        (get_auto_connect (some c)) (get_last_connected_time (some c))
        (required_text known_network "KnownNetwork.Name" "Name") (checked_type "KnownNetwork.Type")
        ok ok (λ t. ok (normalize_optional_string t)) made normal made
        (λ n t is_hidden auto time.
          >>=-value _ _ _ _ (required_text-value known_network "KnownNetwork.Properties" _ "Name" n)
            (λ n'. >>=-value _ _ _ _ (checked_type-value "KnownNetwork.Properties" _ t) λ t'. refl))
    ∙ five-value _ _ _ _ _ _ _ _ _ _ made
        (sym (query-value known_network "Name" _ _ (get_name (some c))))
        (sym (query-value known_network "Type" _ _ (get_type (some c))))
        (sym (query-value known_network "Hidden" _ ok (get_hidden (some c))))
        (sym (query-value known_network "AutoConnect" _ ok (get_auto_connect (some c))))
        (sym (query-value known_network "LastConnectedTime" _ _ (get_last_connected_time (some c))))
