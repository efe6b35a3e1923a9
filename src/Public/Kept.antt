-- ===== src/Public/Kept.antt =====
-- The public package checks again what the core layer has checked: it never refuses what that accepts.
mod Handed
pub mod Lists
use spiderw.Daemon.{Ref}
use spiderw.Public.Kept.Lists.{SameValue, ListsKept, lists-ListsKept}
use spiderw.Public.Kept.Handed.{kept_mode-mode_changed, kept_state-state_changed}
use spiderw.Base.{
  Bool, true, ◌≡◌, refl, arith, Option, none, some, String, List, [], ◌∷◌, Bool-cases, Option-cases,
  inl, inr,
}
use spiderw.Values.{valid_mode, valid_network_type, valid_station_state, parse_mode}
use spiderw.Values.{parse_station_state}
use spiderw.Wire.{
  Value, text, nil, object_path, boolean, uint32, int16, texts, object_paths, slice, variant,
  variants, dictionary, other, lookup, Result, ok, failed, ◌>>=◌,
}
use spiderw.Wire.Parse.{parse_device_mode, parse_state}
use spiderw.Wire.Agreement.{value}
use spiderw.Wire.Events.{Event, delivered, right, mode_changed, state_changed}
use spiderw.Wire.Adapter.{Properties}
use spiderw.Core
use spiderw.Core.{query, required_text, Heard, subscribe}
use spiderw.Core.Adapter.{adapter, check_modes, unknown_mode, validate_supported_modes, normal}
use spiderw.Core.Device.{device, validate_mode}
use spiderw.Core.KnownNetwork.{known_network, checked_type}
use spiderw.Core.Follow.{heard}
use spiderw.Failure.{Resource}
use spiderw.Station.{validate_network_type}
use spiderw.Errors.{wrap_invalid_state, new_error}
use spiderw.Public
use spiderw.Public.{delegate, published, converted, and_then}
use spiderw.Public.Device.{kept_mode}
use spiderw.Public.Station.{kept_state, convert_state}
use spiderw.Public.Network.{convert_network_type}
use spiderw.Public.KnownNetwork.{with_type}
use spiderw.Wire.KnownNetwork.{Properties as Known}
use spiderw.Public.Adapter.{convert_mode, convert_modes, with_modes}

-- A result that the function `f` does not refuse, and returns.
abbrev pub Keeps : {A : Type 0} → (A → Result A) → Result A → Type 0
Keeps f (ok a) = f a ≡ ok a
Keeps f (failed e) = Unit

-- Then an accessor that applies `f` to the result loses nothing.
delegate-Keeps :
    {A : Type 0} (op : String) (f : A → Result A) (r : Result A)
    → Keeps f r
    → value (delegate op (some r) (λ x. x >>= f)) ≡ value r
unfolding delegate
delegate-Keeps op f (ok a) h = rw (h, delegate) refl
delegate-Keeps op f (failed e) h = refl

query-Keeps :
    {A B : Type 0} (f : Core.Facade) (name details : String) (next : A → Result B)
    (g : B → Result B) (b : Option (Result A))
    → ((a : A) → Keeps g (next a))
    → Keeps g (query f name details b next)
unfolding query
query-Keeps f name details next g none h = tt
query-Keeps f name details next g (some (failed e)) h = tt
query-Keeps f name details next g (some (ok a)) h = h a

converted-ok :
    (valid : String → Bool) (resource : Resource) (op details s : String)
    → valid s ≡ true
    → converted valid resource op details s ≡ ok s
unfolding converted
converted-ok valid resource op details s h = rw (h, converted) refl

convert_modes-ok : (ms : List String) → check_modes ms ≡ none → convert_modes ms ≡ ok ms
unfolding check_modes convert_modes convert_mode converted
convert_modes-ok [] h = refl
convert_modes-ok (m ∷ ms) h = elim (Bool-cases (valid_mode m)) [
  | inl v ↦ rw (v, convert_modes-ok ms (rw (v) at h)) refl
  | inr v ↦ let q : unknown_mode ≡ none = rw (v) at h in absurd (ground (arith, q))
]

validate_supported_modes-Keeps :
    (ms : List String) → Keeps convert_modes (validate_supported_modes ms)
unfolding validate_supported_modes
validate_supported_modes-Keeps ms = elim (Option-cases (check_modes ms)) [
  | inl n ↦ rw (n, validate_supported_modes) (convert_modes-ok ms n)
  | inr (e, n) ↦ rw (n, validate_supported_modes) tt
]

>>=-Keeps :
    {A B : Type 0} (m : Result A) (f : A → Result B) (g : B → Result B)
    → ((a : A) → Keeps g (f a))
    → Keeps g (m >>= f)
>>=-Keeps (ok a) f g h = h a
>>=-Keeps (failed e) f g h = tt

adapter-Keeps : (raw : Properties) → Keeps with_modes (Core.Adapter.normal raw)
unfolding Core.Adapter.normal validate_supported_modes
adapter-Keeps raw = >>=-Keeps (required_text adapter "Adapter.Properties" "Name" raw.name) _ _ λ n.
    elim (Option-cases (check_modes raw.supported_modes)) [
      | inl q ↦ rw (q, validate_supported_modes, convert_modes-ok raw.supported_modes q) refl
      | inr (e, q) ↦ rw (q, validate_supported_modes) tt
    ]

validate_mode-Keeps : (op m : String) → Keeps Public.Device.convert_mode (validate_mode op m)
unfolding validate_mode Public.Device.convert_mode converted
validate_mode-Keeps op m = elim (Bool-cases (valid_mode m)) [
  | inl v ↦ rw (v, validate_mode) (rw (v, Public.Device.convert_mode, converted) refl)
  | inr v ↦ rw (v, validate_mode) tt
]

checked_type-Keeps : (op t : String) → Keeps convert_network_type (checked_type op t)
unfolding checked_type validate_network_type convert_network_type converted wrap_invalid_state
    new_error
checked_type-Keeps op t = elim (Bool-cases (valid_network_type t)) [
  | inl v ↦ rw (v, checked_type) (rw (v, convert_network_type, converted) refl)
  | inr v ↦ rw (v, checked_type) tt
]

known_network-Keeps : (raw : Known) → Keeps with_type (Core.KnownNetwork.normal raw)
unfolding Core.KnownNetwork.normal checked_type validate_network_type convert_network_type converted
    wrap_invalid_state new_error
known_network-Keeps raw =
    >>=-Keeps (required_text known_network "KnownNetwork.Properties" "Name" raw.name) _ _ λ n.
      elim (Bool-cases (valid_network_type raw.network_type)) [
        | inl v ↦ rw (v, checked_type) (rw (v, convert_network_type, converted) refl)
        | inr v ↦ rw (v, checked_type) tt
      ]

abbrev pub NothingLost :
    Option (Result (List String))
    → Option (Result Properties)
    → Option (Result String)
    → Option (Result Known)
    → Event
    → Type 0
NothingLost modes adapter_props reply known ev =
    SameValue Public.Adapter.supported_modes (Core.Adapter.supported_modes modes)
    × SameValue Public.Adapter.properties (Core.Adapter.properties adapter_props)
    × SameValue Public.Device.mode (Core.Device.mode reply)
    × SameValue Public.KnownNetwork.network_type (Core.KnownNetwork.network_type reply)
    × SameValue Public.KnownNetwork.properties (Core.KnownNetwork.properties known)
    × (heard
          (Public.Device.mode_changed true
            (some (Core.Device.mode_changed true (some (ok mode_changed)))))
          ev
        ≡ heard (Core.Device.mode_changed true (some (ok mode_changed))) ev)
    × (heard
          (Public.Station.state_changed true
            (some (Core.Station.state_changed true (some (ok state_changed)))))
          ev
        ≡ heard (Core.Station.state_changed true (some (ok state_changed))) ev)

-- The public package checks modes, network types and states again, and never refuses what the core
-- layer returns: whatever the object of internal/iwdbus answers, the supported modes and the properties
-- of an adapter, the mode of a device, and the type and the properties of a known network are those of
-- the core layer, or absent where that fails. The subscriptions to the mode of a device and to the state
-- of a station, made in all three layers, drop nothing that the core layer hands on. The seven
-- enumerations of the daemon return the references of the core layer in their order.
pub nothing_lost :
    (modes : Option (Result (List String))) (adapter_props : Option (Result Properties))
    (reply : Option (Result String)) (known : Option (Result Known)) (ev : Event)
    (refs : Result (List Ref))
    → NothingLost modes adapter_props reply known ev × ListsKept refs
unfolding Public.Adapter.supported_modes Core.Adapter.supported_modes Public.Adapter.properties
    Core.Adapter.properties Public.Device.mode Core.Device.mode Public.KnownNetwork.network_type
    Core.KnownNetwork.network_type Public.KnownNetwork.properties Core.KnownNetwork.properties
    Public.Device.mode_changed Core.Device.mode_changed Public.Station.state_changed
    Core.Station.state_changed subscribe Public.subscribe
nothing_lost modes adapter_props reply known ev refs = (
  (
    delegate-Keeps "Adapter.SupportedModes" convert_modes _
        (query-Keeps adapter "SupportedModes" _ _ _ modes validate_supported_modes-Keeps),
    delegate-Keeps "Adapter.Properties" with_modes _
        (query-Keeps adapter "Properties" _ _ _ adapter_props adapter-Keeps),
    delegate-Keeps "Device.Mode" Public.Device.convert_mode _
        (query-Keeps device "Mode" _ _ _ reply (validate_mode-Keeps "Device.Mode")),
    delegate-Keeps "KnownNetwork.Type" convert_network_type _
        (query-Keeps known_network "Type" _ _ _ reply (checked_type-Keeps "KnownNetwork.Type")),
    delegate-Keeps "KnownNetwork.Properties" with_type _
        (query-Keeps known_network "Properties" _ _ _ known known_network-Keeps),
    kept_mode-mode_changed ev,
    kept_state-state_changed ev,
  ),
  lists-ListsKept refs,
)
