-- ===== src/Public/Network.antt =====
-- network.go.
use spiderw.Base.{Bool, Option, some, String, List, map}
use spiderw.Failure.{Resource}
use spiderw.Errors.{Error}
use spiderw.Values.{valid_network_type}
use spiderw.Daemon.{Ref}
use spiderw.Wire.{Value, Result, ok, ◌>>=◌}
use spiderw.Wire.Events.{Event}
use spiderw.Core.{Heard}
use spiderw.Public.{delegate, do_request, converted, subscribe}
use spiderw.Wire.Tree.{Objects}
use spiderw.Public.Refs.{Resolver, resolve_tree, bss_ref_of, device_ref_of}
use spiderw.Network.{Properties as Raw}

-- `NetworkProperties`; a slice that is nil is the empty list.
pub record Properties : Type 0 where
  pub name : String
  pub connected : Bool
  pub device : Ref
  pub network_type : String
  pub known_network : Option String
  pub extended_service_set : List Ref

-- `convertNetworkType`.
unfoldable pub convert_network_type : String → Result String
unfolding converted valid_network_type
convert_network_type t =
    converted valid_network_type Resource.network "Network.convertType" "invalid network type" t

unfoldable pub name : Option (Result String) → Result String
unfolding delegate
name b = delegate "Network.Name" b (λ r. r)

unfoldable pub connected : Option (Result Bool) → Result Bool
unfolding delegate
connected b = delegate "Network.Connected" b (λ r. r)

unfoldable pub device : Option (Result String) → Result String
unfolding delegate
device b = delegate "Network.Device" b (λ r. r)

unfoldable pub network_type : Option (Result String) → Result String
unfolding delegate convert_network_type
network_type b = delegate "Network.Type" b (λ r. r >>= convert_network_type)

unfoldable pub known_network : Option (Result (Option String)) → Result (Option String)
unfolding delegate
known_network b = delegate "Network.KnownNetwork" b (λ r. r)

unfoldable pub extended_service_set : Option (Result (List String)) → Result (List String)
unfolding delegate
extended_service_set b = delegate "Network.ExtendedServiceSet" b (λ r. r)

unfoldable pub connect : Option Error → Error
unfolding do_request
connect b = do_request "Network.Connect" b (λ e. e)

abbrev pub bundle : Option Objects → String → Raw → Properties
bundle tree t cp = record {
  name = cp.name;
  connected = cp.connected;
  device = device_ref_of tree cp.device;
  network_type = t;
  known_network = cp.known_network;
  extended_service_set = map (bss_ref_of tree) cp.extended_service_set;
}

abbrev pub with_refs : Option Resolver → Raw → Result Properties
with_refs resolver cp = do
  t ← convert_network_type cp.network_type
  tree ← resolve_tree resolver
  ok (bundle tree t cp)

unfoldable pub properties : Option Resolver → Option (Result Raw) → Result Properties
unfolding delegate convert_network_type resolve_tree device_ref_of bss_ref_of
properties resolver b = delegate "Network.Properties" b (λ r. r >>= with_refs resolver)

-- The subscriptions.
unfoldable pub properties_changed :
    Bool → Option (Heard (Option (List Value)) Event) → Heard (Option (List Value)) Event
unfolding subscribe
properties_changed has_fn b =
    subscribe Resource.network "Network.SubscribePropertiesChanged" some has_fn b

unfoldable pub connected_changed : Bool → Option (Heard Event Bool) → Heard Event Bool
unfolding subscribe
connected_changed has_fn b =
    subscribe Resource.network "Network.SubscribeConnectedChanged" some has_fn b

unfoldable pub known_network_changed :
    Bool → Option (Heard Event (Option String)) → Heard Event (Option String)
unfolding subscribe
known_network_changed has_fn b =
    subscribe Resource.network "Network.SubscribeKnownNetworkChanged" some has_fn b

unfoldable pub extended_service_set_changed :
    Bool → Option (Heard Event (List String)) → Heard Event (List String)
unfolding subscribe
extended_service_set_changed has_fn b =
    subscribe Resource.network "Network.SubscribeExtendedServiceSetChanged" some has_fn b
