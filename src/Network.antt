-- ===== src/Network.antt =====
-- internal/core/network.go: what the core layer makes of a network's answers. The answer of a method
-- of internal/iwdbus/network.go is an argument, and none stands for a wrapper that has no backend.
-- The subscriptions are in Core/Network; a text that an error quotes is left out.
pub mod Normal
mod Tests
use spiderw.Base.{Bool, false, Option, none, some, String, List, [], ◌∷◌, if◌then◌else◌}
use spiderw.Base.Text.{is_blank, trim_space}
use spiderw.Failure.{Resource}
use spiderw.Errors.{
  Error, Object, sentinel, core_uninitialized, plain, is, iwd, IwdOutcome, wrap_invalid_state,
  wrap_unavailable, network_unavailable_policy,
}
use spiderw.Outside.{Returned}
use spiderw.Station.{validate_network_type, normalize_optional_string, collect}

-- `NetworkProperties` of both layers; a slice that is nil is the empty list.
pub record Properties : Type 0 where
  pub name : String
  pub connected : Bool
  pub device : String
  pub network_type : String
  pub known_network : Option String
  pub extended_service_set : List String

-- `rawNetwork`: the error of a wrapper that has no backend.
abbrev uninitialized : String → Error
uninitialized op =
    wrap_invalid_state Resource.network op "network wrapper was nil"
      (some (sentinel (core_uninitialized Object.network)))

-- The start of each method, as in `Station`.
abbrev answered :
    {A B : Type 0} → String → String → B → Option (A × Error) → (A → B × Error) → B × Error
answered op details zero none next = (zero, uninitialized op)
answered op details zero (some (_, some e)) next =
    (zero, wrap_unavailable network_unavailable_policy op details (some e))
answered op details zero (some (x, none)) next = next x

-- The test of a field that is trimmed and must not be empty.
abbrev pub required : String → String → String → String → String × Error
required op details reason trimmed =
    if is_blank trimmed
    then ("", wrap_invalid_state Resource.network op details (some (plain reason)))
    else (trimmed, none)

abbrev pub checked_name : String → String → String × Error
checked_name op raw =
    required op "network returned empty Name" "missing or invalid Name field" (trim_space raw)

abbrev pub checked_device : String → String → String × Error
checked_device op raw =
    required op "network returned empty Device" "missing or invalid Device field" (trim_space raw)

-- `normalizePathList`: a round of its loop, and the loop.
abbrev pub listed : String → String → Returned String
listed op trimmed =
    if is_blank trimmed
    then (
      none,
      wrap_invalid_state Resource.network op "network returned empty basic service set path"
          (some (plain "missing or invalid ExtendedServiceSet entry")),
    )
    else (some trimmed, none)

unfoldable pub normalize_path_list : String → List String → Returned (List String)
unfolding collect trim_space
normalize_path_list op paths = collect (λ (p : String). listed op (trim_space p)) paths

-- `Network.Name`, `Connected`, `Device`, `Type`, `KnownNetwork` and `ExtendedServiceSet`.
unfoldable pub name : Option (String × Error) → String × Error
unfolding trim_space
name b =
    answered "Network.Name" "failed querying iwd Network name" "" b (checked_name "Network.Name")

unfoldable pub connected : Option (Bool × Error) → Bool × Error
connected b =
    answered "Network.Connected" "failed querying iwd Network connected" false b (λ v. (v, none))

unfoldable pub device : Option (String × Error) → String × Error
unfolding trim_space
device b =
    answered "Network.Device" "failed querying iwd Network device" "" b
      (checked_device "Network.Device")

unfoldable pub network_type : Option (String × Error) → String × Error
unfolding validate_network_type
network_type b =
    answered "Network.Type" "failed querying iwd Network type" "" b
      (validate_network_type Resource.network "Network.Type")

unfoldable pub known_network : Option (Option String × Error) → Option String × Error
unfolding normalize_optional_string
known_network b =
    answered "Network.KnownNetwork" "failed querying iwd Network known-network" none b
      (λ v. (normalize_optional_string v, none))

unfoldable pub extended_service_set : Option (List String × Error) → Returned (List String)
unfolding normalize_path_list
extended_service_set b =
    answered "Network.ExtendedServiceSet" "failed querying iwd Network extended service set" none b
      (normalize_path_list "Network.ExtendedServiceSet")

-- The tests of `Properties`, in their order.
abbrev pub with_set :
    Properties → String → String → String → Returned (List String) → Returned Properties
with_set raw n d t (_, some e) = (none, some e)
with_set raw n d t (none, none) = (none, none)  -- never returned
with_set raw n d t (some set, none) = (
  some (record {
    name = n;
    connected = raw.connected;
    device = d;
    network_type = t;
    known_network = normalize_optional_string raw.known_network;
    extended_service_set = set;
  }),
  none,
)

abbrev pub with_type : String → Properties → String → String → String × Error → Returned Properties
with_type op raw n d (_, some e) = (none, some e)
with_type op raw n d (t, none) =
    with_set raw n d t (normalize_path_list op raw.extended_service_set)

abbrev pub with_device : String → Properties → String → String × Error → Returned Properties
with_device op raw n (_, some e) = (none, some e)
with_device op raw n (d, none) =
    with_type op raw n d (validate_network_type Resource.network op raw.network_type)

abbrev pub with_name : String → Properties → String × Error → Returned Properties
with_name op raw (_, some e) = (none, some e)
with_name op raw (n, none) = with_device op raw n (checked_device op raw.device)

-- `Network.Properties`, for the answer of `GetProperties`, which is not nil without an error.
unfoldable pub properties : Option (Properties × Error) → Returned Properties
unfolding validate_network_type normalize_optional_string normalize_path_list trim_space
properties b =
    answered "Network.Properties" "failed querying iwd Network properties" none b
      (λ raw. with_name "Network.Properties" raw (checked_name "Network.Properties" raw.name))

-- `Network.Connect`, for the error that the backend returns.
unfoldable pub connect : Option Error → Error
connect none = uninitialized "Network.Connect"
connect (some none) = none
connect (some (some e)) =
    if is (iwd IwdOutcome.no_agent) e
    then wrap_unavailable network_unavailable_policy "Network.Connect"
        "no credentials agent registered" (some e)
    else wrap_unavailable network_unavailable_policy "Network.Connect"
        "failed connecting to iwd Network" (some e)
