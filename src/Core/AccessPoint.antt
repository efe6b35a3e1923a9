-- ===== src/Core/AccessPoint.antt =====
-- internal/core/accesspoint.go.
use spiderw.Base.{ℕ, Bool, ◌||◌, Option, some, String, List, [], ◌∷◌, ltb, ◌==◌, if◌then◌else◌}
use spiderw.Base.Text.{len}
use spiderw.Failure.{Resource}
use spiderw.Errors.{
  Error, Object, sentinel, core_mark, wrap_invalid_argument, access_point_unavailable_policy,
}
use spiderw.Wire.{Value, Result, ok, failed, ◌>>=◌}
use spiderw.Wire.Events.{Event}
use spiderw.Wire.AccessPoint.{Properties, OrderedNetwork}
use spiderw.Core.{Facade, Heard, subscribe, query, request, request_checked}

abbrev pub access_point : Facade
access_point = record {
  noun = "AccessPoint";
  words = "access point";
  object = Object.access_point;
  policy = access_point_unavailable_policy;
}

unfoldable pub started : Option (Result Bool) → Result Bool
unfolding query
started b = query access_point "Started" "failed querying iwd AccessPoint Started" b ok

unfoldable pub scanning : Option (Result Bool) → Result Bool
unfolding query
scanning b = query access_point "Scanning" "failed querying iwd AccessPoint Scanning" b ok

unfoldable pub name : Option (Result (Option String)) → Result (Option String)
unfolding query
name b = query access_point "Name" "failed querying iwd AccessPoint Name" b ok

unfoldable pub frequency : Option (Result (Option ℕ)) → Result (Option ℕ)
unfolding query
frequency b = query access_point "Frequency" "failed querying iwd AccessPoint Frequency" b ok

unfoldable pub pairwise_ciphers :
    Option (Result (Option (List String))) → Result (Option (List String))
unfolding query
pairwise_ciphers b =
    query access_point "PairwiseCiphers" "failed querying iwd AccessPoint PairwiseCiphers" b ok

unfoldable pub group_cipher : Option (Result (Option String)) → Result (Option String)
unfolding query
group_cipher b = query access_point "GroupCipher" "failed querying iwd AccessPoint GroupCipher" b ok

-- `Properties`, which copies the fields.
unfoldable pub properties : Option (Result Properties) → Result Properties
unfolding query
properties b =
    query access_point "Properties" "failed querying iwd AccessPoint properties" b λ props.
      ok (record {
        started = props.started;
        scanning = props.scanning;
        name = props.name;
        frequency = props.frequency;
        pairwise_ciphers = props.pairwise_ciphers;
        group_cipher = props.group_cipher;
      })

-- `validateAccessPointSSID`.
unfoldable pub validate_ssid : String → String → Result String
unfolding len wrap_invalid_argument
validate_ssid op ssid =
    if len ssid == 0 || ltb 32 (len ssid)
    then failed (
        wrap_invalid_argument Resource.access_point op "SSID must be 1-32 bytes"
          (some (sentinel core_mark)))
    else ok ssid

-- The tests of `Start` on its arguments, in their order.
unfoldable pub checked_psk : String → Result String
unfolding len wrap_invalid_argument
checked_psk psk =
    if ltb (len psk) 8 || ltb 63 (len psk)
    then failed (
        wrap_invalid_argument Resource.access_point "AccessPoint.Start"
          "passphrase must be 8-63 characters" (some (sentinel core_mark)))
    else ok psk

unfoldable pub checked_start : String × String → Result (String × String)
unfolding validate_ssid checked_psk
checked_start (ssid, psk) = do
  s ← validate_ssid "AccessPoint.Start" ssid
  p ← checked_psk psk
  ok (s, p)

-- `Start` and `StartProfile`, for an object that answers all arguments.
unfoldable pub start : Option (String × String → Error) → String → String → Error
unfolding request_checked checked_start
start b ssid psk =
    request_checked access_point "Start" "failed starting iwd AccessPoint" b
      (checked_start (ssid, psk))

unfoldable pub start_profile : Option (String → Error) → String → Error
unfolding request_checked validate_ssid
start_profile b ssid =
    request_checked access_point "StartProfile" "failed starting iwd AccessPoint profile" b
      (validate_ssid "AccessPoint.StartProfile" ssid)

unfoldable pub stop : Option Error → Error
unfolding request
stop b = request access_point "Stop" "failed stopping iwd AccessPoint" b

unfoldable pub scan : Option Error → Error
unfolding request
scan b = request access_point "Scan" "failed scheduling iwd AccessPoint scan" b

-- `OrderedNetworks`: the loop, which copies each network.
unfoldable pub copied : List OrderedNetwork → List OrderedNetwork
copied [] = []
copied (n ∷ ns) =
    record { name = n.name; signal_strength = n.signal_strength; network_type = n.network_type }
    ∷ copied ns

unfoldable pub ordered_networks :
    Option (Result (List OrderedNetwork)) → Result (List OrderedNetwork)
unfolding query copied
ordered_networks b =
    query access_point "OrderedNetworks" "failed querying iwd AccessPoint ordered networks" b
      (λ ns. ok (copied ns))

-- The subscriptions.
unfoldable pub properties_changed :
    Bool → Option (Heard (Option (List Value)) Event) → Heard (Option (List Value)) Event
unfolding subscribe
properties_changed has_fn b = subscribe access_point "SubscribePropertiesChanged" has_fn b

unfoldable pub started_changed : Bool → Option (Heard Event Bool) → Heard Event Bool
unfolding subscribe
started_changed has_fn b = subscribe access_point "SubscribeStartedChanged" has_fn b

unfoldable pub scanning_changed : Bool → Option (Heard Event Bool) → Heard Event Bool
unfolding subscribe
scanning_changed has_fn b = subscribe access_point "SubscribeScanningChanged" has_fn b
