-- ===== src/Wire/Tests.antt =====
-- The theorems on the D-Bus layer at concrete inputs.
use spiderw.Base.{true, false, ◌≡◌, refl, arith, none, some, String, List, [], ◌∷◌, All, str_eq_iff}
use spiderw.Daemon.{Ref}
use spiderw.Wire
use spiderw.Wire.{
  Value, text, object_path, boolean, Props, lookup, Iface, Caller, Result, ok, failed,
}
use spiderw.Wire.Served.{served, served-Answers, valid}
use spiderw.Wire.Agreement
use spiderw.Wire.Agreement.{Answers, value}
use spiderw.Wire.Agreement.Whole.{get_properties_agree}
use spiderw.Wire.Small.{get_address, get_bss_properties}
use spiderw.Wire.Events.{
  Event, state_changed, connected_changed, powered_changed, mode_changed, auto_connect_changed,
  hidden_changed, started_changed, scanning_changed, last_connected_time_changed,
  connected_network_changed, connected_access_point_changed, affinities_changed,
  known_network_changed, extended_service_set_changed,
}
use spiderw.Wire.Events.Delivered.{after, is_changed, is_mentioned}
use spiderw.Wire.Events.Follow.{Follows, optional_properties_follow, cleared_scanning_missed}
use spiderw.Wire.Tree.{Interfaces, iface_of}
use spiderw.Wire.Enumerate.{MakeRef, get_refs, make_named, get_named}
use spiderw.Wire.Enumerate.Reordered.{swap, AreDistinct, get_refs-Reordered}
use spiderw.Wire.Enumerate.Named.{IsNamed, get_named-IsNamed}

abbrev station : Props
station =
    ("State", text "connected")
    ∷ ("Scanning", boolean false)
    ∷ ("ConnectedNetwork", object_path "/net/connman/iwd/0/4/5")
    ∷ []

get_properties_agree_example :
    let c = served station in
    (value (Wire.Station.get_properties valid (some c))
      ≡ value (Agreement.Station.by_getters valid c))
    × (value (Wire.Network.get_properties valid (some c))
        ≡ value (Agreement.Network.by_getters valid c))
    × (value (Wire.Adapter.get_properties (some c)) ≡ value (Agreement.Adapter.by_getters c))
    × (value (Wire.Device.get_properties valid (some c))
        ≡ value (Agreement.Device.by_getters valid c))
    × (value (Wire.KnownNetwork.get_properties (some c))
        ≡ value (Agreement.KnownNetwork.by_getters c))
    × (value (Wire.AccessPoint.get_properties (some c))
        ≡ value (Agreement.AccessPoint.by_getters c))
    × (value (get_bss_properties (some c)) ≡ value (get_address (some c)))
get_properties_agree_example =
    get_properties_agree valid (served station) (λ i. station) (served-Answers station)

-- A station that is disconnected.
abbrev disconnected : Event
disconnected = record {
  changed = ("State", text "disconnected") ∷ [];
  invalidated = "ConnectedNetwork" ∷ "Scanning" ∷ [];
}

abbrev now : Caller
now = served (after disconnected station)

optional_properties_follow_example :
    Follows
      (is_mentioned disconnected "ConnectedNetwork")
      (connected_network_changed valid disconnected)
      (Wire.Station.get_connected_network valid (some now))
    × Follows
        (is_mentioned disconnected "ConnectedAccessPoint")
        (connected_access_point_changed valid disconnected)
        (Wire.Station.get_connected_access_point valid (some now))
    × Follows
        (is_mentioned disconnected "Affinities")
        (affinities_changed valid disconnected)
        (Wire.Station.get_affinities valid (some now))
    × Follows
        (is_mentioned disconnected "KnownNetwork")
        (known_network_changed valid disconnected)
        (Wire.Network.get_known_network valid (some now))
    × Follows
        (is_mentioned disconnected "LastConnectedTime")
        (last_connected_time_changed disconnected)
        (Wire.KnownNetwork.get_last_connected_time (some now))
optional_properties_follow_example =
    optional_properties_follow valid now (λ i. station) disconnected
      (served-Answers (after disconnected station))

cleared_scanning_missed_example :
    (Wire.AccessPoint.get_scanning (some now) ≡ ok false) × (scanning_changed disconnected ≡ none)
unfolding lookup Wire.Events.property_cleared
cleared_scanning_missed_example =
    cleared_scanning_missed now station disconnected
      (served-Answers (after disconnected station) Wire.AccessPoint.iface) changed cleared
  where
    changed : is_changed disconnected "Scanning" ≡ false
    changed = refl

    cleared : Wire.Events.property_cleared disconnected.invalidated "Scanning" ≡ true
    cleared = refl

abbrev phy0 : String × Interfaces
phy0 = ("/net/connman/iwd/0", ("net.connman.iwd.Adapter", ("Name", text "phy0 ") ∷ []) ∷ [])

abbrev phy1 : String × Interfaces
phy1 = ("/net/connman/iwd/1", ("net.connman.iwd.Adapter", ("Name", text "phy1") ∷ []) ∷ [])

distinct : AreDistinct (phy1 ∷ phy0 ∷ [])
distinct = ((differ, tt), (tt, tt))
  where
    differ : ◌≡◌ {A = String} "/net/connman/iwd/1" "/net/connman/iwd/0" → ⊥
    differ e = ground (arith, (str_eq_iff phy1.0 phy0.0).1 e)

abbrev make : MakeRef
make = make_named valid (iface_of "Adapter") "Name"

get_refs-Reordered_example :
    value (get_refs true "Daemon.GetAdapters" (iface_of "Adapter") make (ok (phy1 ∷ phy0 ∷ [])))
    ≡ value (get_refs true "Daemon.GetAdapters" (iface_of "Adapter") make (ok (phy0 ∷ phy1 ∷ [])))
get_refs-Reordered_example =
    get_refs-Reordered true "Daemon.GetAdapters" (iface_of "Adapter") make (swap phy1 phy0 [])
      distinct

abbrev adapters : List Ref
adapters =
    record { path = "/net/connman/iwd/0"; name = "phy0" }
    ∷ record { path = "/net/connman/iwd/1"; name = "phy1" }
    ∷ []

enumerated :
    value (get_named valid "Daemon.GetAdapters" "Adapter" (some true) (ok (phy1 ∷ phy0 ∷ [])))
    ≡ some adapters
unfolding get_named
enumerated = refl

get_named-IsNamed_example : All (IsNamed (iface_of "Adapter") "Name" (phy1 ∷ phy0 ∷ [])) adapters
get_named-IsNamed_example =
    get_named-IsNamed valid "Daemon.GetAdapters" "Adapter" (phy1 ∷ phy0 ∷ []) adapters distinct
      enumerated
