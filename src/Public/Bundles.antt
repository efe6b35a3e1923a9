-- ===== src/Public/Bundles.antt =====
-- The references in the bundles of the public package, against what the daemon enumerates.
use spiderw.Base.{
  Bool, true, ◌≡◌, refl, sym, ap, arith, Option, none, some, String, List, All, All-imp, str_eq,
  str_eq_iff, Bool-cases, inl, inr, if◌then◌else◌,
}
use spiderw.Base.Text.{trim_space}
use spiderw.Values.{valid_mode, valid_network_type, valid_station_state}
use spiderw.Daemon.{Ref}
use spiderw.Wire.{ok}
use spiderw.Wire.Agreement.{value}
use spiderw.Wire.Tree.{Objects, string_prop, iface_of, network_name, device_name, adapter_name}
use spiderw.Wire.Enumerate.{get_named}
use spiderw.Wire.Enumerate.Reordered.{AreDistinct}
use spiderw.Wire.Enumerate.Named.{IsNamed, get_named-IsNamed}
use spiderw.Wire.Device.{Properties as Device}
use spiderw.Network.{Properties as Network}
use spiderw.Station.{Properties as Station}
use spiderw.Public
use spiderw.Public.{delegate, converted}
use spiderw.Public.Refs.{
  Resolver, wiring_resolver, resolve_tree, or_blank, network_ref_of, device_ref_of, adapter_ref_of,
}

-- A reference `x` in a bundle has the name of the enumerated `r`, with white space around it, if their
-- paths are the same.
abbrev pub NamesAs : Ref → Ref → Type 0
NamesAs x r = (if str_eq x.path r.path then trim_space x.name else r.name) ≡ r.name

named-NamesAs :
    (noun path : String) (objects : Objects) (r : Ref)
    → IsNamed (iface_of noun) "Name" objects r
    → NamesAs
        (record {
          path = path;
          name = or_blank (string_prop (some objects) path (iface_of noun) "Name");
        })
        r
named-NamesAs noun path objects r (s, found, q) = elim (Bool-cases (str_eq path r.path)) [
  | inr e ↦ rw (e) refl
  | inl e ↦ let same : path ≡ r.path = (str_eq_iff path r.path).0 e in rw (e, same, found) q
]

-- The resolver of a client whose connection answers with the objects.
abbrev pub over : Objects → Option Resolver
over objects = wiring_resolver true none (some (ok objects))

-- A reference that a bundle made of `path`.
abbrev pub Resolves : Ref → String → List Ref → Type 0
Resolves x path refs = (x.path ≡ path) × All (NamesAs x) refs

-- `find` looks a name up as the enumeration of the objects of `noun` does.
found-Resolves :
    (noun path : String) (objects : Objects) (refs : List Ref) (x : Ref)
    → x ≡ record {
      path = path;
      name = or_blank (string_prop (some objects) path (iface_of noun) "Name");
    }
    → All (IsNamed (iface_of noun) "Name" objects) refs
    → Resolves x path refs
found-Resolves noun path objects refs x q h =
    rw (q) (refl, All-imp _ _ (λ r n. named-NamesAs noun path objects r n) refs h)

some-injective : {A : Type 0} (a b : A) → some a ≡ some b → b ≡ a
some-injective a b h = ground (arith, h)

device-Resolves :
    (objects : Objects) (refs : List Ref) (raw : Device) (props : Public.Device.Properties)
    → All (IsNamed (iface_of "Adapter") "Name" objects) refs
    → value (Public.Device.properties (over objects) (some (ok raw))) ≡ some props
    → Resolves props.adapter raw.adapter refs
unfolding Public.Device.properties Public.Device.convert_mode converted delegate resolve_tree
    adapter_ref_of adapter_name wiring_resolver
device-Resolves objects refs raw props h q = elim (Bool-cases (valid_mode raw.mode)) [
  | inl v ↦
      let made = Public.Device.bundle (some objects) raw.mode raw in
      let e : some made ≡ some props =
        rw (v, Public.Device.properties, Public.Device.convert_mode, converted) at q in
      found-Resolves "Adapter" raw.adapter objects refs props.adapter
        (ap (λ (x : Public.Device.Properties). x.adapter) (some-injective made props e)) h
  | inr v ↦
      let e : none ≡ some props =
        rw (v, Public.Device.properties, Public.Device.convert_mode, converted) at q in
      absurd (ground (arith, e))
]

network-Resolves :
    (objects : Objects) (refs : List Ref) (raw : Network) (props : Public.Network.Properties)
    → All (IsNamed (iface_of "Device") "Name" objects) refs
    → value (Public.Network.properties (over objects) (some (ok raw))) ≡ some props
    → Resolves props.device raw.device refs
unfolding Public.Network.properties Public.Network.convert_network_type converted delegate
    resolve_tree device_ref_of device_name wiring_resolver
network-Resolves objects refs raw props h q =
    elim (Bool-cases (valid_network_type raw.network_type)) [
      | inl v ↦
          let made = Public.Network.bundle (some objects) raw.network_type raw in
          let e : some made ≡ some props =
            rw (v, Public.Network.properties, Public.Network.convert_network_type, converted) at
              q in
          found-Resolves "Device" raw.device objects refs props.device
            (ap (λ (x : Public.Network.Properties). x.device) (some-injective made props e)) h
      | inr v ↦
          let e : none ≡ some props =
            rw (v, Public.Network.properties, Public.Network.convert_network_type, converted) at
              q in
          absurd (ground (arith, e))
    ]

-- The same of a reference that may be absent.
abbrev pub ResolvesOptional : Option Ref → Option String → List Ref → Type 0
ResolvesOptional none none refs = Unit
ResolvesOptional none (some path) refs = ⊥
ResolvesOptional (some x) none refs = ⊥
ResolvesOptional (some x) (some path) refs = Resolves x path refs

optional-ResolvesOptional :
    (objects : Objects) (refs : List Ref) (path : Option String) (x : Option Ref)
    → x ≡ Public.Station.optional_ref (network_ref_of (some objects)) path
    → All (IsNamed (iface_of "Network") "Name" objects) refs
    → ResolvesOptional x path refs
unfolding network_ref_of network_name
optional-ResolvesOptional objects refs none none q h = tt
optional-ResolvesOptional objects refs none (some x) q h = absurd (ground (arith, q))
optional-ResolvesOptional objects refs (some path) none q h = absurd (ground (arith, q))
optional-ResolvesOptional objects refs (some path) (some x) q h =
    found-Resolves "Network" path objects refs x (some-injective _ x (sym q)) h

station-Resolves :
    (objects : Objects) (refs : List Ref) (raw : Station) (props : Public.Station.Properties)
    → All (IsNamed (iface_of "Network") "Name" objects) refs
    → value (Public.Station.properties (over objects) (some (ok raw))) ≡ some props
    → ResolvesOptional props.connected_network raw.connected_network refs
unfolding Public.Station.properties Public.Station.convert_state converted delegate resolve_tree
    wiring_resolver
station-Resolves objects refs raw props h q = elim (Bool-cases (valid_station_state raw.state)) [
  | inl v ↦
      let made = Public.Station.bundle (some objects) raw.state raw in
      let e : some made ≡ some props =
        rw (v, Public.Station.properties, Public.Station.convert_state, converted) at q in
      optional-ResolvesOptional objects refs raw.connected_network props.connected_network
        (ap (λ (x : Public.Station.Properties). x.connected_network) (some-injective made props e))
        h
  | inr v ↦
      let e : none ≡ some props =
        rw (v, Public.Station.properties, Public.Station.convert_state, converted) at q in
      absurd (ground (arith, e))
]

-- For a client whose connection answers with managed objects with distinct paths: where the bundles of
-- a device, a network and a station are read, the references to the adapter of the device, to the
-- device of the network and to the network that the station is connected to keep the path that the core
-- layer reports, and are absent where it is. A reference to an object that `GetAdapters`, `GetDevices`
-- or `GetNetworks` lists for the same objects has the name that it is listed under, with white space
-- around it.
pub bundles_named :
    (valid : String → Bool) (objects : Objects) (adapters devices networks : List Ref)
    → AreDistinct objects
    → value (get_named valid "Daemon.GetAdapters" "Adapter" (some true) (ok objects))
      ≡ some adapters
    → value (get_named valid "Daemon.GetDevices" "Device" (some true) (ok objects)) ≡ some devices
    → value (get_named valid "Daemon.GetNetworks" "Network" (some true) (ok objects))
      ≡ some networks
    → (d : Device) (n : Network) (s : Station) (pd : Public.Device.Properties)
      (pn : Public.Network.Properties) (ps : Public.Station.Properties)
    → value (Public.Device.properties (over objects) (some (ok d))) ≡ some pd
    → value (Public.Network.properties (over objects) (some (ok n))) ≡ some pn
    → value (Public.Station.properties (over objects) (some (ok s))) ≡ some ps
    → Resolves pd.adapter d.adapter adapters
      × Resolves pn.device n.device devices
      × ResolvesOptional ps.connected_network s.connected_network networks
bundles_named valid objects adapters devices networks distinct a b c d n s pd pn ps qd qn qs = (
  device-Resolves objects adapters d pd (get_named-IsNamed valid _ "Adapter" objects _ distinct a)
      qd,
  network-Resolves objects devices n pn (get_named-IsNamed valid _ "Device" objects _ distinct b)
      qn,
  station-Resolves objects networks s ps (get_named-IsNamed valid _ "Network" objects _ distinct c)
      qs,
)
