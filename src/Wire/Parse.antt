-- ===== src/Wire/Parse.antt =====
-- internal/iwdbus: the functions that make a typed value of a property's value, from utils.go,
-- adapter.go, device.go, network.go, station.go and accesspoint.go. `valid` stands for
-- `ObjectPath.IsValid` of godbus.
use spiderw.Base.{
  ℕ, Bool, true, false, not, ◌||◌, Option, none, some, String, List, [], ◌∷◌, str_eq, if◌then◌else◌,
}
use spiderw.Errors.{plain, wrap_variant}
use spiderw.Values.{parse_mode, parse_station_state, parse_network_type}
use spiderw.Wire.{
  Value, nil, text, object_path, boolean, uint32, texts, object_paths, slice, variant, Items,
  no_items, item, Result, ok, failed, ◌>>=◌,
}

-- The error of `WrapVariant` for a value that is not right.
abbrev pub bad : {A : Type 0} → String → String → Result A
bad field what = failed (wrap_variant field (some (plain what)))

-- The type assertions `value.(bool)` and `value.(string)`.
unfoldable pub as_bool : String → Value → Result Bool
unfolding wrap_variant
as_bool field (boolean b) = ok b
as_bool field _ = bad field "expected bool"

unfoldable pub as_string : String → Value → Result String
unfolding wrap_variant
as_string field (text s) = ok s
as_string field _ = bad field "expected string"

-- A parser of internal/iwdvalue with its second result read.
abbrev pub known : String → String → String × Bool → Result String
known field what (s, true) = ok s
known field what (s, false) = bad field what

-- `parseOptionalString`, with the error wrapped as its callers do.
unfoldable pub parse_optional_string : String → Value → Result (Option String)
unfolding wrap_variant
parse_optional_string field nil = ok none
parse_optional_string field (text s) = ok (some s)
parse_optional_string field (variant nil) = ok none
parse_optional_string field (variant (text s)) = ok (some s)
parse_optional_string field (variant _) = bad field "expected string variant"
parse_optional_string field _ = bad field "expected string or variant(string)"

-- `parseStationState`, `parseNetworkType` and `parseDeviceMode`.
unfoldable pub parse_state : Value → Result String
unfolding wrap_variant parse_station_state
parse_state (text s) = known "State" "invalid station state" (parse_station_state s)
parse_state _ = bad "State" "expected string"

unfoldable pub parse_type : Value → Result String
unfolding wrap_variant parse_network_type
parse_type (text s) = known "Type" "invalid network type" (parse_network_type s)
parse_type _ = bad "Type" "expected string"

unfoldable pub parse_device_mode : Value → Result String
unfolding wrap_variant parse_mode
parse_device_mode (text s) = known "Mode" "invalid mode" (parse_mode s)
parse_device_mode _ = bad "Mode" "expected string"

-- `parseSupportedModes`: its two loops, and the switch.
unfoldable pub parse_modes : List String → Result (List String)
unfolding wrap_variant parse_mode
parse_modes [] = ok []
parse_modes (s ∷ ss) = do
  mode ← known "SupportedModes" "invalid mode" (parse_mode s)
  rest ← parse_modes ss
  ok (mode ∷ rest)

unfoldable pub parse_mode_items : Items → Result (List String)
unfolding wrap_variant parse_mode
parse_mode_items no_items = ok []
parse_mode_items (item (text s) xs) = do
  mode ← known "SupportedModes" "invalid mode" (parse_mode s)
  rest ← parse_mode_items xs
  ok (mode ∷ rest)
parse_mode_items (item _ xs) = bad "SupportedModes" "expected string"

unfoldable pub parse_supported_modes : Value → Result (List String)
unfolding wrap_variant parse_modes parse_mode_items
parse_supported_modes (texts ss) = parse_modes ss
parse_supported_modes (slice xs) = parse_mode_items xs
parse_supported_modes _ = bad "SupportedModes" "unexpected type"

module _ (valid : String → Bool) where
  abbrev pub checked_path : String → String → Result String
  checked_path field p = if not (valid p) then bad field "invalid object path" else ok p

  -- `parseNetworkObjectPath`, and `parseObjectPath` of device.go for the field Adapter.
  unfoldable pub parse_object_path : String → Value → Result String
  unfolding wrap_variant
  parse_object_path field (object_path p) = checked_path field p
  parse_object_path field (text p) = checked_path field p
  parse_object_path field _ = bad field "expected object path"

  abbrev pub present_path : String → String → Result (Option String)
  present_path field p =
      if str_eq p "" || str_eq p "/"
      then ok none
      else if not (valid p)
      then bad field "invalid object path"
      else ok (some p)

  -- `parseStationObjectPath`, and `parseOptionalObjectPath` of network.go for the field
  -- KnownNetwork.
  unfoldable pub parse_optional_path : String → Value → Result (Option String)
  unfolding wrap_variant
  parse_optional_path field nil = ok none
  parse_optional_path field (object_path p) = present_path field p
  parse_optional_path field (text p) = present_path field p
  parse_optional_path field (variant v) = parse_optional_path field v
  parse_optional_path field _ = bad field "expected object path"

  -- The loop over a []dbus.ObjectPath.
  unfoldable pub parse_paths : String → List String → Result (List String)
  unfolding wrap_variant
  parse_paths field [] = ok []
  parse_paths field (p ∷ ps) = do
    path ← checked_path field p
    rest ← parse_paths field ps
    ok (path ∷ rest)

  -- `parseObjectPathList`, with the loop over its []interface{}.
  unfoldable pub parse_path_items : String → Items → Result (List String)
  unfolding parse_object_path
  parse_path_items field no_items = ok []
  parse_path_items field (item v xs) = do
    path ← parse_object_path field v
    rest ← parse_path_items field xs
    ok (path ∷ rest)

  unfoldable pub parse_object_path_list : Value → Result (List String)
  unfolding wrap_variant parse_paths parse_path_items
  parse_object_path_list (object_paths ps) = parse_paths "ExtendedServiceSet" ps
  parse_object_path_list (slice xs) = parse_path_items "ExtendedServiceSet" xs
  parse_object_path_list _ = bad "ExtendedServiceSet" "expected object path array"

  -- `parseStationAffinities`, with the loop over its []interface{}; a nil slice is `none`.
  unfoldable pub parse_affinity_items : Items → Result (List String)
  unfolding wrap_variant
  parse_affinity_items no_items = ok []
  parse_affinity_items (item (object_path p) xs) = do
    path ← checked_path "Affinities" p
    rest ← parse_affinity_items xs
    ok (path ∷ rest)
  parse_affinity_items (item _ xs) = bad "Affinities" "expected object path"

  unfoldable pub parse_affinities : Value → Result (Option (List String))
  unfolding wrap_variant parse_paths parse_affinity_items
  parse_affinities nil = ok none
  parse_affinities (variant v) = parse_affinities v
  parse_affinities (object_paths ps) = do paths ← parse_paths "Affinities" ps; ok (some paths)
  parse_affinities (slice xs) = do paths ← parse_affinity_items xs; ok (some paths)
  parse_affinities _ = bad "Affinities" "expected object path array"

-- `parseOptionalAccessPointString`, `parseAccessPointFrequency` and `parseAccessPointCiphers`.
unfoldable pub parse_optional_text : String → Value → Result (Option String)
unfolding wrap_variant
parse_optional_text field nil = ok none
parse_optional_text field (text s) = if str_eq s "" then ok none else ok (some s)
parse_optional_text field (variant v) = parse_optional_text field v
parse_optional_text field _ = bad field "expected string"

unfoldable pub parse_frequency : Value → Result (Option ℕ)
unfolding wrap_variant
parse_frequency nil = ok none
parse_frequency (uint32 f) = ok (some f)
parse_frequency (variant v) = parse_frequency v
parse_frequency _ = bad "Frequency" "expected uint32"

unfoldable pub parse_ciphers : Value → Result (Option (List String))
unfolding wrap_variant
parse_ciphers nil = ok none
parse_ciphers (texts c) = ok (some c)
parse_ciphers (variant v) = parse_ciphers v
parse_ciphers _ = bad "PairwiseCiphers" "expected string array"
