-- ===== src/Wire/Events/Follow.antt =====
-- The subscriptions against the getters, one by one.
use spiderw.Base.{
  Bool, true, false, ◌≡◌, refl, arith, Option, none, some, String, Option-cases, inl, inr,
  if◌then◌else◌,
}
use spiderw.Wire.{
  Value, Props, lookup, contains, Iface, Caller, Result, ok, failed, read, read_optional,
}
use spiderw.Wire.Agreement.{Answers, value}
use spiderw.Wire.Events.{
  Event, delivered, property_cleared, state_changed, connected_changed, powered_changed,
  mode_changed, auto_connect_changed, hidden_changed, started_changed, last_connected_time_changed,
  connected_network_changed, connected_access_point_changed, affinities_changed,
  known_network_changed, extended_service_set_changed, scanning_changed,
}
use spiderw.Wire
use spiderw.Wire.Events.Delivered.{
  without, after, is_changed, is_mentioned, lookup-append-none, lookup-without, delivered-read,
  delivered_optional-read_optional,
}

-- `d` is what a subscription to the property hands on, and `r` what its getter reads afterwards.
abbrev pub Follows : {A : Type 0} → Bool → Option A → Result A → Type 0
Follows b d r = d ≡ (if b then value r else none)

-- After an event on an object whose properties are then those before it, less the invalidated ones
-- and with the changed ones put in: a subscription to a property that can be absent hands on what
-- the getter now reads if the event changes or invalidates the property, and hands on nothing
-- otherwise or where the getter fails. So do the subscriptions to the connected network, to the
-- connected access point and to the affinities of a station, to the known-network record of a
-- network, and to the time of the last connection of a known network.
pub optional_properties_follow :
    (valid : String → Bool) (c : Caller) (all : Iface → Props) (ev : Event)
    → ((i : Iface) → Answers c i (after ev (all i)))
    → Follows
        (is_mentioned ev "ConnectedNetwork")
        (connected_network_changed valid ev)
        (Wire.Station.get_connected_network valid (some c))
      × Follows
          (is_mentioned ev "ConnectedAccessPoint")
          (connected_access_point_changed valid ev)
          (Wire.Station.get_connected_access_point valid (some c))
      × Follows
          (is_mentioned ev "Affinities")
          (affinities_changed valid ev)
          (Wire.Station.get_affinities valid (some c))
      × Follows
          (is_mentioned ev "KnownNetwork")
          (known_network_changed valid ev)
          (Wire.Network.get_known_network valid (some c))
      × Follows
          (is_mentioned ev "LastConnectedTime")
          (last_connected_time_changed ev)
          (Wire.KnownNetwork.get_last_connected_time (some c))
unfolding connected_network_changed connected_access_point_changed affinities_changed
    known_network_changed last_connected_time_changed Wire.Station.get_connected_network
    Wire.Station.get_connected_access_point Wire.Station.get_affinities
    Wire.Network.get_known_network Wire.KnownNetwork.get_last_connected_time
optional_properties_follow valid c all ev h =
    let s = h Wire.Station.iface in
    let n = h Wire.Network.iface in
    let k = h Wire.KnownNetwork.iface in
    (
      delivered_optional-read_optional (all Wire.Station.iface) ev s "ConnectedNetwork" _ _,
      delivered_optional-read_optional (all Wire.Station.iface) ev s "ConnectedAccessPoint" _ _,
      delivered_optional-read_optional (all Wire.Station.iface) ev s "Affinities" _ _,
      delivered_optional-read_optional (all Wire.Network.iface) ev n "KnownNetwork" _ _,
      delivered_optional-read_optional (all Wire.KnownNetwork.iface) ev k "LastConnectedTime" _ _,
    )

-- After an event as above, a subscription to a property that iwd always has hands on what the getter
-- now reads if the event changes the property, and hands on nothing otherwise or where the getter
-- fails. So do the subscriptions to the state of a station, to whether a network is connected and to
-- its service set, to whether an adapter and a device are powered and to the mode of a device, to
-- whether a known network is hidden and connects by itself, and to whether an access point has
-- started.
pub properties_follow :
    (valid : String → Bool) (c : Caller) (all : Iface → Props) (ev : Event)
    → ((i : Iface) → Answers c i (after ev (all i)))
    → Follows (is_changed ev "State") (state_changed ev) (Wire.Station.get_state (some c))
      × Follows
          (is_changed ev "Connected")
          (connected_changed ev)
          (Wire.Network.get_connected (some c))
      × Follows
          (is_changed ev "ExtendedServiceSet")
          (extended_service_set_changed valid ev)
          (Wire.Network.get_extended_service_set valid (some c))
      × Follows (is_changed ev "Powered") (powered_changed ev) (Wire.Adapter.get_powered (some c))
      × Follows (is_changed ev "Powered") (powered_changed ev) (Wire.Device.get_powered (some c))
      × Follows (is_changed ev "Mode") (mode_changed ev) (Wire.Device.get_mode (some c))
      × Follows (is_changed ev "Hidden") (hidden_changed ev) (Wire.KnownNetwork.get_hidden (some c))
      × Follows
          (is_changed ev "AutoConnect")
          (auto_connect_changed ev)
          (Wire.KnownNetwork.get_auto_connect (some c))
      × Follows
          (is_changed ev "Started")
          (started_changed ev)
          (Wire.AccessPoint.get_started (some c))
unfolding state_changed connected_changed extended_service_set_changed powered_changed mode_changed
    hidden_changed auto_connect_changed started_changed Wire.Station.get_state
    Wire.Network.get_connected Wire.Network.get_extended_service_set Wire.Adapter.get_powered
    Wire.Device.get_powered Wire.Device.get_mode Wire.KnownNetwork.get_hidden
    Wire.KnownNetwork.get_auto_connect Wire.AccessPoint.get_started
properties_follow valid c all ev h = (
  delivered-read (all Wire.Station.iface) ev (h Wire.Station.iface) "State" _,
  delivered-read (all Wire.Network.iface) ev (h Wire.Network.iface) "Connected" _,
  delivered-read (all Wire.Network.iface) ev (h Wire.Network.iface) "ExtendedServiceSet" _,
  delivered-read (all Wire.Adapter.iface) ev (h Wire.Adapter.iface) "Powered" _,
  delivered-read (all Wire.Device.iface) ev (h Wire.Device.iface) "Powered" _,
  delivered-read (all Wire.Device.iface) ev (h Wire.Device.iface) "Mode" _,
  delivered-read (all Wire.KnownNetwork.iface) ev (h Wire.KnownNetwork.iface) "Hidden" _,
  delivered-read (all Wire.KnownNetwork.iface) ev (h Wire.KnownNetwork.iface) "AutoConnect" _,
  delivered-read (all Wire.AccessPoint.iface) ev (h Wire.AccessPoint.iface) "Started" _,
)

-- The subscription to `Scanning` of an access point is of the second kind, although the getter reads
-- the property as one that can be absent: after an event that invalidates `Scanning` and does not
-- change it, the getter reads false, and the subscription hands on nothing.
pub cleared_scanning_missed :
    (c : Caller) (all : Props) (ev : Event)
    → Answers c Wire.AccessPoint.iface (after ev all)
    → is_changed ev "Scanning" ≡ false
    → property_cleared ev.invalidated "Scanning" ≡ true
    → (Wire.AccessPoint.get_scanning (some c) ≡ ok false) × (scanning_changed ev ≡ none)
unfolding scanning_changed delivered property_cleared Wire.AccessPoint.get_scanning
cleared_scanning_missed c all ev h q k = elim (Option-cases (lookup "Scanning" ev.changed)) [
  | inr (v, s) ↦ let t : true ≡ false = rw (s) at q in absurd (ground (arith, t))
  | inl n ↦
      let rest = without ev.invalidated all in
      let gone = lookup-without ev.invalidated "Scanning" all k in
      let gone' : lookup "Scanning" (after ev all) ≡ none =
        rw (lookup-append-none "Scanning" ev.changed rest n) gone in
      let (e, p, u) = h.lacks "Scanning" gone' in
      (rw (p, u) refl, rw (n, scanning_changed, delivered) refl)
]
