-- ===== src/Connect/Constructors.antt =====
-- The eight constructors New… of `Wiring` in internal/connect/wiring.go, and what tells one from
-- another.
use spiderw.Base.{Option, String, ◌<>◌}
use spiderw.Failure.{Resource}
use spiderw.Errors.{Object, iwd_service}
use spiderw.Errors.{
  adapter_unavailable_policy, device_unavailable_policy, station_unavailable_policy,
  bss_unavailable_policy, network_unavailable_policy, known_network_unavailable_policy,
  simple_configuration_unavailable_policy, access_point_unavailable_policy,
}
use spiderw.Outside.{Peer, Io, Returned}
use spiderw.Connect.{Spec, Wiring, CoreObject, new_object}

abbrev pub adapter_spec : Spec
adapter_spec = record {
  op = "NewAdapter";
  noun = "adapter";
  iface = iwd_service <> ".Adapter";
  kind = Object.adapter;
  resource = Resource.adapter;
  policy = adapter_unavailable_policy;
}

unfoldable pub new_adapter : Peer → Option Wiring → String → Io (Returned CoreObject)
unfolding new_object
new_adapter = new_object adapter_spec

abbrev pub device_spec : Spec
device_spec = record {
  op = "NewDevice";
  noun = "device";
  iface = iwd_service <> ".Device";
  kind = Object.device;
  resource = Resource.device;
  policy = device_unavailable_policy;
}

unfoldable pub new_device : Peer → Option Wiring → String → Io (Returned CoreObject)
unfolding new_object
new_device = new_object device_spec

abbrev pub station_spec : Spec
station_spec = record {
  op = "NewStation";
  noun = "station";
  iface = iwd_service <> ".Station";
  kind = Object.station;
  resource = Resource.station;
  policy = station_unavailable_policy;
}

unfoldable pub new_station : Peer → Option Wiring → String → Io (Returned CoreObject)
unfolding new_object
new_station = new_object station_spec

abbrev pub access_point_spec : Spec
access_point_spec = record {
  op = "NewAccessPoint";
  noun = "access point";
  iface = iwd_service <> ".AccessPoint";
  kind = Object.access_point;
  resource = Resource.access_point;
  policy = access_point_unavailable_policy;
}

unfoldable pub new_access_point : Peer → Option Wiring → String → Io (Returned CoreObject)
unfolding new_object
new_access_point = new_object access_point_spec

abbrev pub basic_service_set_spec : Spec
basic_service_set_spec = record {
  op = "NewBasicServiceSet";
  noun = "basic service set";
  iface = iwd_service <> ".BasicServiceSet";
  kind = Object.basic_service_set;
  resource = Resource.basic_service_set;
  policy = bss_unavailable_policy;
}

unfoldable pub new_basic_service_set : Peer → Option Wiring → String → Io (Returned CoreObject)
unfolding new_object
new_basic_service_set = new_object basic_service_set_spec

abbrev pub network_spec : Spec
network_spec = record {
  op = "NewNetwork";
  noun = "network";
  iface = iwd_service <> ".Network";
  kind = Object.network;
  resource = Resource.network;
  policy = network_unavailable_policy;
}

unfoldable pub new_network : Peer → Option Wiring → String → Io (Returned CoreObject)
unfolding new_object
new_network = new_object network_spec

abbrev pub known_network_spec : Spec
known_network_spec = record {
  op = "NewKnownNetwork";
  noun = "known network";
  iface = iwd_service <> ".KnownNetwork";
  kind = Object.known_network;
  resource = Resource.known_network;
  policy = known_network_unavailable_policy;
}

unfoldable pub new_known_network : Peer → Option Wiring → String → Io (Returned CoreObject)
unfolding new_object
new_known_network = new_object known_network_spec

abbrev pub simple_configuration_spec : Spec
simple_configuration_spec = record {
  op = "NewSimpleConfiguration";
  noun = "simple configuration";
  iface = iwd_service <> ".SimpleConfiguration";
  kind = Object.simple_configuration;
  resource = Resource.simple_configuration;
  policy = simple_configuration_unavailable_policy;
}

unfoldable pub new_simple_configuration : Peer → Option Wiring → String → Io (Returned CoreObject)
unfolding new_object
new_simple_configuration = new_object simple_configuration_spec
