-- ===== src/Public/KnownNetwork.antt =====
-- knownnetwork.go.
use spiderw.Base.{Bool, Option, some, String, List}
use spiderw.Failure.{Resource}
use spiderw.Errors.{Error}
use spiderw.Wire.{Value, Result, ok, ◌>>=◌}
use spiderw.Wire.Events.{Event}
use spiderw.Core.{Heard}
use spiderw.Public.{delegate, do_request, subscribe}
use spiderw.Wire.KnownNetwork.{Properties}
use spiderw.Public.Network.{convert_network_type}

unfoldable pub name : Option (Result String) → Result String
unfolding delegate
name b = delegate "KnownNetwork.Name" b (λ r. r)

unfoldable pub network_type : Option (Result String) → Result String
unfolding delegate convert_network_type
network_type b = delegate "KnownNetwork.Type" b (λ r. r >>= convert_network_type)

unfoldable pub hidden : Option (Result Bool) → Result Bool
unfolding delegate
hidden b = delegate "KnownNetwork.Hidden" b (λ r. r)

unfoldable pub last_connected_time : Option (Result (Option String)) → Result (Option String)
unfolding delegate
last_connected_time b = delegate "KnownNetwork.LastConnectedTime" b (λ r. r)

unfoldable pub auto_connect : Option (Result Bool) → Result Bool
unfolding delegate
auto_connect b = delegate "KnownNetwork.AutoConnect" b (λ r. r)

unfoldable pub set_auto_connect : Option Error → Error
unfolding do_request
set_auto_connect b = do_request "KnownNetwork.SetAutoConnect" b (λ e. e)

unfoldable pub forget : Option Error → Error
unfolding do_request
forget b = do_request "KnownNetwork.Forget" b (λ e. e)

-- `Properties`, whose type is that of the core layer.
abbrev pub with_type : Properties → Result Properties
with_type cp = do
  t ← convert_network_type cp.network_type
  ok (record {
    name = cp.name;
    network_type = t;
    hidden = cp.hidden;
    last_connected_time = cp.last_connected_time;
    auto_connect = cp.auto_connect;
  })

unfoldable pub properties : Option (Result Properties) → Result Properties
unfolding delegate convert_network_type
properties b = delegate "KnownNetwork.Properties" b (λ r. r >>= with_type)

-- The subscriptions.
unfoldable pub properties_changed :
    Bool → Option (Heard (Option (List Value)) Event) → Heard (Option (List Value)) Event
unfolding subscribe
properties_changed has_fn b =
    subscribe Resource.known_network "KnownNetwork.SubscribePropertiesChanged" some has_fn b

unfoldable pub auto_connect_changed : Bool → Option (Heard Event Bool) → Heard Event Bool
unfolding subscribe
auto_connect_changed has_fn b =
    subscribe Resource.known_network "KnownNetwork.SubscribeAutoConnectChanged" some has_fn b

unfoldable pub hidden_changed : Bool → Option (Heard Event Bool) → Heard Event Bool
unfolding subscribe
hidden_changed has_fn b =
    subscribe Resource.known_network "KnownNetwork.SubscribeHiddenChanged" some has_fn b

unfoldable pub last_connected_time_changed :
    Bool → Option (Heard Event (Option String)) → Heard Event (Option String)
unfolding subscribe
last_connected_time_changed has_fn b =
    subscribe Resource.known_network "KnownNetwork.SubscribeLastConnectedTimeChanged" some has_fn b
