-- ===== src/Public/AccessPoint.antt =====
-- accesspoint.go.
use spiderw.Base.{ℕ, Bool, Option, some, String, List, map}
use spiderw.Failure.{Resource}
use spiderw.Errors.{Error}
use spiderw.Wire.{Value, Result, ok, failed, ◌>>=◌}
use spiderw.Wire.Events.{Event}
use spiderw.Core.{Heard}
use spiderw.Public.{delegate, do_request, subscribe}
use spiderw.Wire.AccessPoint.{Properties, OrderedNetwork}
use spiderw.Public.Network.{convert_network_type}

unfoldable pub started : Option (Result Bool) → Result Bool
unfolding delegate
started b = delegate "AccessPoint.Started" b (λ r. r)

unfoldable pub scanning : Option (Result Bool) → Result Bool
unfolding delegate
scanning b = delegate "AccessPoint.Scanning" b (λ r. r)

unfoldable pub ssid : Option (Result (Option String)) → Result (Option String)
unfolding delegate
ssid b = delegate "AccessPoint.SSID" b (λ r. r)

unfoldable pub frequency : Option (Result (Option ℕ)) → Result (Option ℕ)
unfolding delegate
frequency b = delegate "AccessPoint.Frequency" b (λ r. r)

unfoldable pub pairwise_ciphers :
    Option (Result (Option (List String))) → Result (Option (List String))
unfolding delegate
pairwise_ciphers b = delegate "AccessPoint.PairwiseCiphers" b (λ r. r)

unfoldable pub group_cipher : Option (Result (Option String)) → Result (Option String)
unfolding delegate
group_cipher b = delegate "AccessPoint.GroupCipher" b (λ r. r)

-- `Properties`, which copies the fields; `SSID` is the field `name`.
unfoldable pub properties : Option (Result Properties) → Result Properties
unfolding delegate
properties b = delegate "AccessPoint.Properties" b (λ r. do
  p ← r
  ok (record {
    started = p.started;
    scanning = p.scanning;
    name = p.name;
    frequency = p.frequency;
    pairwise_ciphers = p.pairwise_ciphers;
    group_cipher = p.group_cipher;
  }))

-- `Start` and `StartProfile`, for an object that answers all arguments.
unfoldable pub start : Option (String → String → Error) → String → String → Error
unfolding do_request
start b ssid psk = do_request "AccessPoint.Start" b (λ (c : String → String → Error). c ssid psk)

unfoldable pub start_profile : Option (String → Error) → String → Error
unfolding do_request
start_profile b ssid = do_request "AccessPoint.StartProfile" b (λ (c : String → Error). c ssid)

unfoldable pub stop : Option Error → Error
unfolding do_request
stop b = do_request "AccessPoint.Stop" b (λ e. e)

unfoldable pub scan : Option Error → Error
unfolding do_request
scan b = do_request "AccessPoint.Scan" b (λ e. e)

-- `OrderedNetworks`: its loop, and the method. A type that is not known is `NetworkTypeUnknown`. The
-- strength stays in hundredths, as in Station.
abbrev pub or_unknown : Result String → String
or_unknown (failed e) = ""
or_unknown (ok t) = t

abbrev pub lenient : OrderedNetwork → OrderedNetwork
lenient n = record {
  name = n.name;
  signal_strength = n.signal_strength;
  network_type = or_unknown (convert_network_type n.network_type);
}

unfoldable pub ordered_networks :
    Option (Result (List OrderedNetwork)) → Result (List OrderedNetwork)
unfolding delegate convert_network_type
ordered_networks b = delegate "AccessPoint.OrderedNetworks" b (λ r. do ns ← r; ok (map lenient ns))

-- The subscriptions.
unfoldable pub properties_changed :
    Bool → Option (Heard (Option (List Value)) Event) → Heard (Option (List Value)) Event
unfolding subscribe
properties_changed has_fn b =
    subscribe Resource.access_point "AccessPoint.SubscribePropertiesChanged" some has_fn b

unfoldable pub started_changed : Bool → Option (Heard Event Bool) → Heard Event Bool
unfolding subscribe
started_changed has_fn b =
    subscribe Resource.access_point "AccessPoint.SubscribeStartedChanged" some has_fn b

unfoldable pub scanning_changed : Bool → Option (Heard Event Bool) → Heard Event Bool
unfolding subscribe
scanning_changed has_fn b =
    subscribe Resource.access_point "AccessPoint.SubscribeScanningChanged" some has_fn b
