-- ===== src/Network/Normal.antt =====
-- Which answers of a network the core layer accepts.
use spiderw.Base.{
  Bool, true, false, ◌&&◌, ◌≡◌, refl, arith, none, some, String, List, map, if◌then◌else◌,
  Bool-cases, inl, inr, not,
}
use spiderw.Base.Text.{is_blank, trim_space}
use spiderw.Errors.{wrap_invalid_state, new_error}
use spiderw.Errors.Laws.Some.{is_nil}
use spiderw.Outside.{Returned}
use spiderw.Values.{valid_network_type}
use spiderw.Station.{validate_network_type}
use spiderw.Station.Normal.{Accepts, all, collect-Accepts}
use spiderw.Network.{
  Properties, listed, normalize_path_list, name, connected, device, network_type, known_network,
  extended_service_set, properties, with_set,
}

-- Whether a path is not empty once it is trimmed.
abbrev pub is_solid : String → Bool
is_solid p = not (is_blank (trim_space p))

-- What the six getters accept together.
abbrev pub acceptable : Properties → Bool
acceptable raw =
    is_solid raw.name
    && is_solid raw.device
    && valid_network_type raw.network_type
    && all is_solid raw.extended_service_set

abbrev pub normal : Properties → Properties
normal raw = record {
  name = (name (some (raw.name, none))).0;
  connected = (connected (some (raw.connected, none))).0;
  device = (device (some (raw.device, none))).0;
  network_type = (network_type (some (raw.network_type, none))).0;
  known_network = (known_network (some (raw.known_network, none))).0;
  extended_service_set = map trim_space raw.extended_service_set;
}

listed-Accepts :
    (op p : String) → Accepts (λ (q : String). listed op (trim_space q)) is_solid trim_space p
unfolding wrap_invalid_state new_error
listed-Accepts op p = elim (Bool-cases (is_blank (trim_space p))) [
  | inl b ↦ rw (b) (refl, refl)
  | inr b ↦ rw (b) (refl, refl)
]

normalize_path_list-Accepts :
    (op : String) (ps : List String)
    → Accepts (normalize_path_list op) (all is_solid) (map trim_space) ps
unfolding normalize_path_list
normalize_path_list-Accepts op ps =
    collect-Accepts (λ (q : String). listed op (trim_space q)) is_solid trim_space
      (listed-Accepts op) ps

with_set-Accepts :
    (raw : Properties) (n d t : String) (r : Returned (List String)) (b : Bool) (set : List String)
    → r.0 ≡ (if b then some set else none)
    → is_nil r.1 ≡ b
    → ((with_set raw n d t r).0 ≡ (if b then (with_set raw n d t (some set, none)).0 else none))
      × (is_nil (with_set raw n d t r).1 ≡ b)
with_set-Accepts raw n d t (none, some e) true set p q = absurd (ground (arith, p))
with_set-Accepts raw n d t (none, none) true set p q = absurd (ground (arith, p))
with_set-Accepts raw n d t (some s, some e) true set p q = absurd (ground (arith, q))
with_set-Accepts raw n d t (some s, none) true set p q =
    let c : s ≡ set = ground (arith, p) in (rw (c) refl, refl)
with_set-Accepts raw n d t (o, some e) false set p q = (refl, refl)
with_set-Accepts raw n d t (o, none) false set p q = absurd (ground (arith, q))

-- `Properties` of a network accepts an answer exactly when its name, its device and every path of
-- its service set are not empty once they are trimmed and its type is a known network type. It then
-- returns what `Name`, `Connected`, `Device`, `Type` and `KnownNetwork` return for the same values,
-- and the trimmed paths in their order; otherwise nil with an error. `ExtendedServiceSet` accepts
-- the paths under the same test, and returns the same.
pub network_properties-getters :
    (raw : Properties)
    → Accepts (λ (r : Properties). properties (some (r, none))) acceptable normal raw
      × Accepts
          (λ (r : Properties). extended_service_set (some (r.extended_service_set, none)))
          (λ r. all is_solid r.extended_service_set)
          (λ r. (normal r).extended_service_set)
          raw
unfolding properties name connected device network_type known_network extended_service_set
    validate_network_type wrap_invalid_state new_error
network_properties-getters raw = (
  elim (Bool-cases (is_blank (trim_space raw.name))) [
    | inl n ↦ rw (n, properties) (refl, refl)
    | inr n ↦ elim (Bool-cases (is_blank (trim_space raw.device))) [
      | inl d ↦ rw (n, d, properties) (refl, refl)
      | inr d ↦ elim (Bool-cases (valid_network_type raw.network_type)) [
        | inr t ↦ rw (n, d, t, properties) (refl, refl)
        | inl t ↦
            let (p, q) =
              normalize_path_list-Accepts "Network.Properties" raw.extended_service_set in
            rw (n, d, t, properties, name, device, network_type)
              (with_set-Accepts raw (trim_space raw.name) (trim_space raw.device) raw.network_type _
                _ _ p q)
      ]
    ]
  ],
  normalize_path_list-Accepts "Network.ExtendedServiceSet" raw.extended_service_set,
)
