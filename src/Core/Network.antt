-- ===== src/Core/Network.antt =====
-- internal/core/network.go: the subscriptions. The rest of the file is Network.
use spiderw.Base.{Bool, Option, String, List}
use spiderw.Errors.{Object, network_unavailable_policy}
use spiderw.Wire.{Value}
use spiderw.Wire.Events.{Event}
use spiderw.Core.{Facade, Heard, subscribe}

abbrev pub network : Facade
network = record {
  noun = "Network";
  words = "network";
  object = Object.network;
  policy = network_unavailable_policy;
}

unfoldable pub properties_changed :
    Bool → Option (Heard (Option (List Value)) Event) → Heard (Option (List Value)) Event
unfolding subscribe
properties_changed has_fn b = subscribe network "SubscribePropertiesChanged" has_fn b

unfoldable pub connected_changed : Bool → Option (Heard Event Bool) → Heard Event Bool
unfolding subscribe
connected_changed has_fn b = subscribe network "SubscribeConnectedChanged" has_fn b

unfoldable pub known_network_changed :
    Bool → Option (Heard Event (Option String)) → Heard Event (Option String)
unfolding subscribe
known_network_changed has_fn b = subscribe network "SubscribeKnownNetworkChanged" has_fn b

unfoldable pub extended_service_set_changed :
    Bool → Option (Heard Event (List String)) → Heard Event (List String)
unfolding subscribe
extended_service_set_changed has_fn b =
    subscribe network "SubscribeExtendedServiceSetChanged" has_fn b
