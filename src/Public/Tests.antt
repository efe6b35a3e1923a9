-- ===== src/Public/Tests.antt =====
-- The theorems on the public package at concrete inputs.
use spiderw.Base.{
  Bool, true, false, ◌≡◌, refl, arith, Option, none, some, String, List, [], ◌∷◌, str_eq,
  str_eq_iff, ◌≢◌,
}
use spiderw.Failure.{Resource}
use spiderw.Errors.{Error, plain}
use spiderw.Daemon.{Ref}
use spiderw.Wire.{text, Result, ok, failed}
use spiderw.Wire.Agreement.{value}
use spiderw.Wire.Events.{Event}
use spiderw.Wire.Tree.{Objects}
use spiderw.Wire.Served.{valid}
use spiderw.Wire.Enumerate.{get_named}
use spiderw.Wire.Enumerate.Reordered.{AreDistinct}
use spiderw.Wire.Device.{Properties as Device}
use spiderw.Network.{Properties as Network}
use spiderw.Station.{Properties as Station}
use spiderw.Core.{Heard}
use spiderw.Public
use spiderw.Public.Refs.{wiring_resolver}
use spiderw.Public.Failures.{Outcomes, failures-Outcomes}
use spiderw.Public.Kept.Lists.{ListsKept}
use spiderw.Public.Kept.{NothingLost, nothing_lost}
use spiderw.Public.Bundles.{over, Resolves, ResolvesOptional, bundles_named}

abbrev broken : Error
broken = some (plain "broken pipe")

abbrev read_name : Bool → Result String
read_name b = failed broken

abbrev write_mode : Bool → Error
write_mode b = broken

abbrev listen : Heard Event Bool
listen = failed broken

abbrev keep : Bool → Option Bool
keep b = some b

failures-Outcomes_example :
    Outcomes Resource.device "Device.Name" true read_name write_mode keep listen
failures-Outcomes_example =
    failures-Outcomes Resource.device "Device.Name" true read_name write_mode keep listen refl refl

abbrev to_ap : Event
to_ap = record { changed = ("Mode", text "ap") ∷ []; invalidated = [] }

abbrev listing : Result (List Ref)
listing = ok (record { path = "/phy0"; name = "phy0" } ∷ [])

nothing_lost_example :
    NothingLost (some (ok ("station" ∷ "ap" ∷ []))) none (some (ok "ap")) none to_ap
    × ListsKept listing
nothing_lost_example =
    nothing_lost (some (ok ("station" ∷ "ap" ∷ []))) none (some (ok "ap")) none to_ap listing

abbrev objects : Objects
objects =
    ("/phy0", ("net.connman.iwd.Adapter", ("Name", text "phy0 ") ∷ []) ∷ [])
    ∷ ("/wlan0", ("net.connman.iwd.Device", ("Name", text "wlan0") ∷ []) ∷ [])
    ∷ ("/home", ("net.connman.iwd.Network", ("Name", text "home") ∷ []) ∷ [])
    ∷ []

different : (s t : String) → str_eq s t ≡ false → s ≢ t
different s t h e = let q = (str_eq_iff s t).1 e in ground (arith, h, q)

distinct : AreDistinct objects
distinct = (
  (different "/phy0" "/wlan0" refl, (different "/phy0" "/home" refl, tt)),
  ((different "/wlan0" "/home" refl, tt), (tt, tt)),
)

abbrev phy0 : List Ref
phy0 = record { path = "/phy0"; name = "phy0" } ∷ []

abbrev wlan0 : List Ref
wlan0 = record { path = "/wlan0"; name = "wlan0" } ∷ []

abbrev home : List Ref
home = record { path = "/home"; name = "home" } ∷ []

abbrev device : Device
device = record {
  name = "wlan0";
  address = "00:11:22:33:44:55";
  powered = true;
  mode = "station";
  adapter = "/phy0";
}

abbrev network : Network
network = record {
  name = "home";
  connected = true;
  device = "/wlan0";
  network_type = "psk";
  known_network = none;
  extended_service_set = [];
}

abbrev station : Station
station = record {
  state = "connected";
  scanning = false;
  connected_network = some "/home";
  connected_access_point = none;
  affinities = none;
}

abbrev device_bundle : Public.Device.Properties
device_bundle = Public.Device.bundle (some objects) "station" device

abbrev network_bundle : Public.Network.Properties
network_bundle = Public.Network.bundle (some objects) "psk" network

abbrev station_bundle : Public.Station.Properties
station_bundle = Public.Station.bundle (some objects) "connected" station

listed :
    (value (get_named valid "Daemon.GetAdapters" "Adapter" (some true) (ok objects)) ≡ some phy0)
    × (value (get_named valid "Daemon.GetDevices" "Device" (some true) (ok objects)) ≡ some wlan0)
    × (value (get_named valid "Daemon.GetNetworks" "Network" (some true) (ok objects)) ≡ some home)
unfolding get_named
listed = (refl, refl, refl)

read :
    (value (Public.Device.properties (over objects) (some (ok device))) ≡ some device_bundle)
    × (value (Public.Network.properties (over objects) (some (ok network))) ≡ some network_bundle)
    × (value (Public.Station.properties (over objects) (some (ok station))) ≡ some station_bundle)
unfolding Public.Device.properties Public.Network.properties Public.Station.properties
    wiring_resolver
read = (refl, refl, refl)

bundles_named_example :
    Resolves device_bundle.adapter "/phy0" phy0
    × Resolves network_bundle.device "/wlan0" wlan0
    × ResolvesOptional station_bundle.connected_network (some "/home") home
bundles_named_example =
    bundles_named valid objects phy0 wlan0 home distinct listed.0 listed.1 listed.2 device network
      station device_bundle network_bundle station_bundle read.0 read.1 read.2
