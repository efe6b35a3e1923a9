-- ===== src/Wire/AccessPoint.antt =====
-- internal/iwdbus/accesspoint.go: the getters and the methods of an access point.
use spiderw.Base.{ℕ, ℤ, pos, Bool, false, Option, none, String, List, [], ◌∷◌}
use spiderw.Errors.{Error, Object}
use spiderw.Wire.{
  Value, text, int16, Props, Iface, Caller, Result, ok, failed, ◌>>=◌, read, read_optional,
  read_all, required, optional, invoke, fetch,
}
use spiderw.Wire.Parse.{
  bad, as_bool, as_string, parse_type, parse_optional_text, parse_frequency, parse_ciphers,
}

-- `AccessPointProperties`; a slice that is nil is `none`.
pub record Properties : Type 0 where
  pub started : Bool
  pub scanning : Bool
  pub name : Option String
  pub frequency : Option ℕ
  pub pairwise_ciphers : Option (List String)
  pub group_cipher : Option String

abbrev pub iface : Iface
iface = record { noun = "AccessPoint"; object = Object.access_point }

unfoldable pub get_started : Option Caller → Result Bool
unfolding read as_bool
get_started = read iface "Started" (as_bool "Started")

unfoldable pub get_scanning : Option Caller → Result Bool
unfolding read_optional as_bool
get_scanning = read_optional iface "Scanning" false (as_bool "Scanning")

unfoldable pub get_name : Option Caller → Result (Option String)
unfolding read_optional parse_optional_text
get_name = read_optional iface "Name" none (parse_optional_text "Name")

unfoldable pub get_frequency : Option Caller → Result (Option ℕ)
unfolding read_optional parse_frequency
get_frequency = read_optional iface "Frequency" none parse_frequency

unfoldable pub get_pairwise_ciphers : Option Caller → Result (Option (List String))
unfolding read_optional parse_ciphers
get_pairwise_ciphers = read_optional iface "PairwiseCiphers" none parse_ciphers

unfoldable pub get_group_cipher : Option Caller → Result (Option String)
unfolding read_optional parse_optional_text
get_group_cipher = read_optional iface "GroupCipher" none (parse_optional_text "GroupCipher")

-- `GetProperties`.
unfoldable pub get_properties : Option Caller → Result Properties
unfolding read_all required optional as_bool parse_optional_text parse_frequency parse_ciphers
get_properties = read_all iface λ raw. do
  started ← required iface raw "Started" (as_bool "Started")
  scanning ← optional raw "Scanning" false (as_bool "Scanning")
  name ← optional raw "Name" none (parse_optional_text "Name")
  frequency ← optional raw "Frequency" none parse_frequency
  ciphers ← optional raw "PairwiseCiphers" none parse_ciphers
  group ← optional raw "GroupCipher" none (parse_optional_text "GroupCipher")
  ok (record {
    started = started;
    scanning = scanning;
    name = name;
    frequency = frequency;
    pairwise_ciphers = ciphers;
    group_cipher = group;
  })

-- `Start`, `StartProfile`, `Stop` and `Scan`.
unfoldable pub start : String → String → Option Caller → Error
unfolding invoke
start ssid psk = invoke iface "Start" (text ssid ∷ text psk ∷ [])

unfoldable pub start_profile : String → Option Caller → Error
unfolding invoke
start_profile ssid = invoke iface "StartProfile" (text ssid ∷ [])

unfoldable pub stop : Option Caller → Error
unfolding invoke
stop = invoke iface "Stop" []

unfoldable pub scan : Option Caller → Error
unfolding invoke
scan = invoke iface "Scan" []

-- `AccessPointOrderedNetwork`.
pub record OrderedNetwork : Type 0 where
  pub name : String
  pub signal_strength : ℤ
  pub network_type : String

-- The type assertion `v.Value().(int16)`.
abbrev pub as_int16 : String → Value → Result ℤ
as_int16 field (int16 n) = ok n
as_int16 field _ = bad field "expected int16"

-- What the type of a scanned network is read as: `NetworkTypeUnknown` where it is not known.
abbrev pub lenient : Result String → Result String
lenient (ok t) = ok t
lenient (failed e) = ok ""

abbrev pub scanned_type : Value → Result String
scanned_type v = do s ← as_string "Type" v; lenient (parse_type (text s))

-- `parseAccessPointOrderedNetwork`.
unfoldable pub parse_ordered_network : Props → Result OrderedNetwork
unfolding optional as_string parse_type
parse_ordered_network m = do
  name ← optional m "Name" "" (as_string "Name")
  signal ← optional m "SignalStrength" (pos 0) (as_int16 "SignalStrength")
  network_type ← optional m "Type" "" scanned_type
  ok (record { name = name; signal_strength = signal; network_type = network_type })

-- The loop of `GetOrderedNetworks`, and the method.
unfoldable pub parse_ordered_networks : List Props → Result (List OrderedNetwork)
unfolding parse_ordered_network
parse_ordered_networks [] = ok []
parse_ordered_networks (m ∷ ms) = do
  network ← parse_ordered_network m
  rest ← parse_ordered_networks ms
  ok (network ∷ rest)

unfoldable pub get_ordered_networks :
    (List Value → Result (List Props)) → Option Caller → Result (List OrderedNetwork)
unfolding fetch parse_ordered_networks
get_ordered_networks store c = do
  entries ← fetch iface "GetOrderedNetworks" store c
  parse_ordered_networks entries
