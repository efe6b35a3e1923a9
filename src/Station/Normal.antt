-- ===== src/Station/Normal.antt =====
-- Which answers of a station the core layer accepts, and that they come back normal.
use spiderw.Base.{
  Bool, true, false, ◌&&◌, ◌≡◌, refl, arith, none, some, List, [], ◌∷◌, map, if◌then◌else◌,
  Bool-cases, inl, inr,
}
use spiderw.Base.Text.{is_blank, is_absolute, absolute_not_blank, trim_space}
use spiderw.Errors.{wrap_invalid_state, new_error}
use spiderw.Errors.Laws.Some.{is_nil}
use spiderw.Outside.{Returned}
use spiderw.Values.{valid_station_state, valid_network_type}
use spiderw.Station.{
  Properties, OrderedNetwork, HiddenAccessPoint, validate_station_state, validate_network_type,
  state, scanning, connected_network, connected_access_point, affinities, properties,
  append_or_return, collect, ordered_network, hidden_access_point, ordered_networks,
  hidden_access_points,
}

-- The properties that the five getters return for the values of `raw`, each read on its own.
abbrev pub read_one_by_one : Properties → Properties
read_one_by_one raw = record {
  state = (state (some (raw.state, none))).0;
  scanning = (scanning (some (raw.scanning, none))).0;
  connected_network = (connected_network (some (raw.connected_network, none))).0;
  connected_access_point = (connected_access_point (some (raw.connected_access_point, none))).0;
  affinities = (affinities (some (raw.affinities, none))).0;
}

-- `Properties` agrees with the getters: for the values of one answer of iwd it returns what the five
-- getters return for these values, if `State` accepts the state, and otherwise nil with an error.
pub properties-getters :
    (raw : Properties)
    → let accepted = is_nil (state (some (raw.state, none))).1 in
      ((properties (some (raw, none))).0 ≡ (if accepted then some (read_one_by_one raw) else none))
      × (is_nil (properties (some (raw, none))).1 ≡ accepted)
      × (accepted ≡ valid_station_state raw.state)
unfolding properties state scanning connected_network connected_access_point affinities
    validate_station_state wrap_invalid_state new_error
properties-getters raw = elim (Bool-cases (valid_station_state raw.state)) [
  | inl v ↦ rw (v, properties, state) (refl, refl, refl)
  | inr v ↦ rw (v, properties, state) (refl, refl, refl)
]

-- `good` is whether a round of a loop goes on, and `value` is what it then appends.
abbrev pub Accepts : {A B : Type 0} → (A → Returned B) → (A → Bool) → (A → B) → A → Type 0
Accepts f good value x =
    ((f x).0 ≡ (if good x then some (value x) else none)) × (is_nil (f x).1 ≡ good x)

abbrev pub all : {A : Type 0} → (A → Bool) → List A → Bool
all good [] = true
all good (x ∷ xs) = good x && all good xs

append-Accepts :
    {B : Type 0} (a b : Bool) (y : B) (ys : List B) (x : Returned B) (rest : Returned (List B))
    → x.0 ≡ (if a then some y else none)
    → is_nil x.1 ≡ a
    → rest.0 ≡ (if b then some ys else none)
    → is_nil rest.1 ≡ b
    → ((append_or_return x rest).0 ≡ (if a && b then some (y ∷ ys) else none))
      × (is_nil (append_or_return x rest).1 ≡ (a && b))
append-Accepts true b y ys (none, e) rest p q r s = absurd (ground (arith, p))
append-Accepts true b y ys (some z, some e) rest p q r s = absurd (ground (arith, q))
append-Accepts true true y ys (some z, none) (none, e) p q r s = absurd (ground (arith, r))
append-Accepts true true y ys (some z, none) (some zs, e) p q r s = (ground (arith, p, r), s)
append-Accepts true false y ys (some z, none) (none, e) p q r s = (refl, s)
append-Accepts true false y ys (some z, none) (some zs, e) p q r s = absurd (ground (arith, r))
append-Accepts false b y ys (o, none) rest p q r s = absurd (ground (arith, q))
append-Accepts false b y ys (o, some e) rest p q r s = (refl, refl)

pub collect-Accepts :
    {A B : Type 0} (f : A → Returned B) (good : A → Bool) (value : A → B)
    → ((x : A) → Accepts f good value x)
    → (xs : List A) → Accepts (collect f) (all good) (map value) xs
unfolding collect
collect-Accepts f good value h [] = (refl, refl)
collect-Accepts f good value h (x ∷ xs) =
    let (p, q) = h x in
    let (r, s) = collect-Accepts f good value h xs in
    append-Accepts (good x) (all good xs) (value x) (map value xs) (f x) (collect f xs) p q r s

abbrev pub usable_network : OrderedNetwork → Bool
usable_network n = is_absolute (trim_space n.network)

abbrev pub trimmed_network : OrderedNetwork → OrderedNetwork
trimmed_network n = record n { network = trim_space n.network }

ordered_network-Accepts :
    (n : OrderedNetwork) → Accepts ordered_network usable_network trimmed_network n
unfolding ordered_network wrap_invalid_state new_error
ordered_network-Accepts n = elim (Bool-cases (is_absolute (trim_space n.network))) [
  | inl a ↦
      let b = absolute_not_blank (trim_space n.network) a in rw (a, b, ordered_network) (refl, refl)
  | inr a ↦ elim (Bool-cases (is_blank (trim_space n.network))) [
    | inl b ↦ rw (a, b, ordered_network) (refl, refl)
    | inr b ↦ rw (a, b, ordered_network) (refl, refl)
  ]
]

ordered_networks-Accepts :
    (ns : List OrderedNetwork)
    → Accepts
        (λ (xs : List OrderedNetwork). ordered_networks (some (xs, none)))
        (all usable_network)
        (map trimmed_network)
        ns
unfolding ordered_networks
ordered_networks-Accepts ns =
    collect-Accepts ordered_network usable_network trimmed_network ordered_network-Accepts ns

abbrev pub known_type : HiddenAccessPoint → Bool
known_type ap = valid_network_type ap.network_type

abbrev pub trimmed_access_point : HiddenAccessPoint → HiddenAccessPoint
trimmed_access_point ap = record ap { address = trim_space ap.address }

hidden_access_point-Accepts :
    (ap : HiddenAccessPoint) → Accepts hidden_access_point known_type trimmed_access_point ap
unfolding hidden_access_point validate_network_type wrap_invalid_state new_error
hidden_access_point-Accepts ap = elim (Bool-cases (valid_network_type ap.network_type)) [
  | inl v ↦ rw (v, hidden_access_point) (refl, refl)
  | inr v ↦ rw (v, hidden_access_point) (refl, refl)
]

hidden_access_points-Accepts :
    (aps : List HiddenAccessPoint)
    → Accepts
        (λ (xs : List HiddenAccessPoint). hidden_access_points (some (xs, none)))
        (all known_type)
        (map trimmed_access_point)
        aps
unfolding hidden_access_points
hidden_access_points-Accepts aps =
    collect-Accepts hidden_access_point known_type trimmed_access_point hidden_access_point-Accepts
      aps

-- What the two loops accept and return.
abbrev pub Collected : List OrderedNetwork → List HiddenAccessPoint → Type 0
Collected ns aps =
    Accepts (λ (xs : List OrderedNetwork). ordered_networks (some (xs, none))) (all usable_network)
      (map trimmed_network) ns
    × Accepts (λ (xs : List HiddenAccessPoint). hidden_access_points (some (xs, none)))
        (all known_type) (map trimmed_access_point) aps

-- `OrderedNetworks` accepts an answer exactly when every path in it is absolute once it is trimmed,
-- and returns the networks in their order, with their strengths and the trimmed paths;
-- `HiddenAccessPoints` accepts an answer exactly when the type of every access point in it is a known
-- network type, and returns them in their order, with the addresses trimmed. Otherwise they return
-- nil with an error.
pub networks-Accepts : (ns : List OrderedNetwork) (aps : List HiddenAccessPoint) → Collected ns aps
networks-Accepts ns aps = (ordered_networks-Accepts ns, hidden_access_points-Accepts aps)
