-- ===== src/Core/KnownNetwork.antt =====
-- internal/core/knownnetwork.go.
use spiderw.Base.{List, Bool, Option, none, some, String}
use spiderw.Failure.{Resource}
use spiderw.Errors.{Error, Object, known_network_unavailable_policy}
use spiderw.Station.{normalize_optional_string, validate_network_type}
use spiderw.Wire.{Value, Result, ok, failed, ◌>>=◌}
use spiderw.Wire.Events.{Event}
use spiderw.Wire.KnownNetwork.{Properties}
use spiderw.Core.{Facade, Heard, subscribe, query, request, required_text}

abbrev pub known_network : Facade
known_network = record {
  noun = "KnownNetwork";
  words = "known network";
  object = Object.known_network;
  policy = known_network_unavailable_policy;
}

-- `validateNetworkType` as a result.
abbrev pub result_of : String × Error → Result String
result_of (t, none) = ok t
result_of (t, some e) = failed (some e)

unfoldable pub checked_type : String → String → Result String
unfolding validate_network_type
checked_type op t = result_of (validate_network_type Resource.known_network op t)

unfoldable pub name : Option (Result String) → Result String
unfolding query required_text
name b =
    query known_network "Name" "failed querying iwd KnownNetwork name" b
      (required_text known_network "KnownNetwork.Name" "Name")

unfoldable pub network_type : Option (Result String) → Result String
unfolding query checked_type
network_type b =
    query known_network "Type" "failed querying iwd KnownNetwork type" b
      (checked_type "KnownNetwork.Type")

unfoldable pub hidden : Option (Result Bool) → Result Bool
unfolding query
hidden b = query known_network "Hidden" "failed querying iwd KnownNetwork hidden" b ok

unfoldable pub last_connected_time : Option (Result (Option String)) → Result (Option String)
unfolding query normalize_optional_string
last_connected_time b =
    query known_network "LastConnectedTime" "failed querying iwd KnownNetwork last-connected time" b
      (λ v. ok (normalize_optional_string v))

unfoldable pub auto_connect : Option (Result Bool) → Result Bool
unfolding query
auto_connect b =
    query known_network "AutoConnect" "failed querying iwd KnownNetwork auto-connect" b ok

unfoldable pub set_auto_connect : Option Error → Error
unfolding request
set_auto_connect b =
    request known_network "SetAutoConnect" "failed setting iwd KnownNetwork auto-connect" b

unfoldable pub forget : Option Error → Error
unfolding request
forget b = request known_network "Forget" "failed forgetting iwd KnownNetwork" b

-- The tests of `Properties` on what `GetProperties` returns.
unfoldable pub normal : Properties → Result Properties
unfolding required_text checked_type normalize_optional_string
normal raw = do
  n ← required_text known_network "KnownNetwork.Properties" "Name" raw.name
  t ← checked_type "KnownNetwork.Properties" raw.network_type
  ok (record {
    name = n;
    network_type = t;
    hidden = raw.hidden;
    last_connected_time = normalize_optional_string raw.last_connected_time;
    auto_connect = raw.auto_connect;
  })

unfoldable pub properties : Option (Result Properties) → Result Properties
unfolding query normal
properties b =
    query known_network "Properties" "failed querying iwd KnownNetwork properties" b normal

-- The subscriptions.
unfoldable pub properties_changed :
    Bool → Option (Heard (Option (List Value)) Event) → Heard (Option (List Value)) Event
unfolding subscribe
properties_changed has_fn b = subscribe known_network "SubscribePropertiesChanged" has_fn b

unfoldable pub auto_connect_changed : Bool → Option (Heard Event Bool) → Heard Event Bool
unfolding subscribe
auto_connect_changed has_fn b = subscribe known_network "SubscribeAutoConnectChanged" has_fn b

unfoldable pub hidden_changed : Bool → Option (Heard Event Bool) → Heard Event Bool
unfolding subscribe
hidden_changed has_fn b = subscribe known_network "SubscribeHiddenChanged" has_fn b

unfoldable pub last_connected_time_changed :
    Bool → Option (Heard Event (Option String)) → Heard Event (Option String)
unfolding subscribe
last_connected_time_changed has_fn b =
    subscribe known_network "SubscribeLastConnectedTimeChanged" has_fn b
