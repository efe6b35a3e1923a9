-- ===== src/Wire/Enumerate.antt =====
-- internal/iwdbus/daemon.go: the enumerations of the managed objects.
pub mod Order
pub mod Reordered
pub mod Named
use spiderw.Base.{
  Bool, true, false, not, ◌&&◌, ◌||◌, Option, none, some, String, List, [], ◌∷◌, ltb, ◌==◌, map,
  if◌then◌else◌,
}
use Prim.Native.Char.{code}
use spiderw.Errors.{Error, Object, sentinel, bus_uninitialized, wrap_connection, wrap_introspection}
use spiderw.Daemon.{Ref}
use spiderw.Wire.{Props, lookup, Result, ok, failed, ◌>>=◌}
use spiderw.Wire.Parse.{bad}
use spiderw.Wire.Tree.{Interfaces, Objects, iface_of, fetch_object_tree}
use spiderw.Wire.Daemon.{bad_path, object_name, station_name_from_device}

-- `s < t` for strings: by their bytes, and so by their code points.
unfoldable pub str_lt : String → String → Bool
str_lt String.[] String.[] = false
str_lt String.[] (String.◌∷◌ d t) = true
str_lt (String.◌∷◌ c s) String.[] = false
str_lt (String.◌∷◌ c s) (String.◌∷◌ d t) = ltb (code c) (code d) || (code c == code d && str_lt s t)

-- `entry` of `getRefs`: the path, and the reference made of the object.
abbrev pub Entry : Type 0
Entry = String × Ref

-- `sort.Slice` by the paths, which are all different.
unfoldable pub insert_entry : Entry → List Entry → List Entry
unfolding str_lt
insert_entry e [] = e ∷ []
insert_entry e (f ∷ fs) =
    let rest = insert_entry e fs in if str_lt f.0 e.0 then f ∷ rest else e ∷ f ∷ fs

unfoldable pub sort_entries : List Entry → List Entry
unfolding insert_entry
sort_entries [] = []
sort_entries (e ∷ es) = insert_entry e (sort_entries es)

-- `makeRef`: an object's path and interfaces to its reference.
abbrev pub MakeRef : Type 0
MakeRef = String → Interfaces → Result Ref

abbrev pub add_entry : String → Result Ref → Result (List Entry) → Result (List Entry)
add_entry path made rest = do ref ← made; entries ← rest; ok ((path, ref) ∷ entries)

-- The loop of `getRefs`; `continue` where the object does not have the interface.
unfoldable pub collect_entries : String → MakeRef → Objects → Result (List Entry)
unfolding lookup
collect_entries iface make [] = ok []
collect_entries iface make ((path, ifaces) ∷ objects) =
    let rest = collect_entries iface make objects in
    elim (lookup iface ifaces) [ none ↦ rest | some props ↦ add_entry path (make path ifaces) rest ]

abbrev pub ref_of : Entry → Ref
ref_of e = e.1

abbrev pub refs_of : Result (List Entry) → Result (List Ref)
refs_of entries = do es ← entries; ok (map ref_of (sort_entries es))

-- `getRefs`, for whether the connection is set and the answer of `getManagedObjects`.
unfoldable pub get_refs : Bool → String → String → MakeRef → Result Objects → Result (List Ref)
unfolding collect_entries sort_entries fetch_object_tree wrap_connection
get_refs conn op iface make answer =
    if not conn
    then failed (wrap_connection op (some (sentinel (bus_uninitialized Object.daemon))))
    else fetch_object_tree answer >>= λ objects. refs_of (collect_entries iface make objects)

-- The `makeRef` of an object that carries its name in the property `prop` of the interface.
abbrev pub props_of : Option Props → Props
props_of none = []
props_of (some props) = props

abbrev pub with_name : String → Result String → Result Ref
with_name path name = do n ← name; ok (record { path = path; name = n })

unfoldable pub make_named : (String → Bool) → String → String → MakeRef
unfolding object_name lookup
make_named valid iface prop path ifaces =
    with_name path (object_name valid prop path (props_of (lookup iface ifaces)))

-- The `makeRef` of a station and of an access point, with the name of the device beside it.
unfoldable pub make_station : (String → Bool) → MakeRef
unfolding station_name_from_device
make_station valid path ifaces =
    if bad_path valid path
    then bad "Path" "invalid path"
    else ok (record { path = path; name = station_name_from_device ifaces })

-- The enumerations of a `Daemon`, which is nil or has a connection or not.
unfoldable pub enumerate :
    String → String → MakeRef → Option Bool → Result Objects → Result (List Ref)
unfolding get_refs
enumerate op noun make none answer =
    failed (wrap_connection op (some (sentinel (bus_uninitialized Object.daemon))))
enumerate op noun make (some conn) answer = get_refs conn op (iface_of noun) make answer

module _ (valid : String → Bool) where
  -- `GetAdapters`, `GetDevices`, `GetNetworks` and `GetKnownNetworks`.
  unfoldable pub get_named : String → String → Option Bool → Result Objects → Result (List Ref)
  unfolding enumerate make_named
  get_named op noun = enumerate op noun (make_named valid (iface_of noun) "Name")

  unfoldable pub get_adapters : Option Bool → Result Objects → Result (List Ref)
  unfolding get_named
  get_adapters = get_named "Daemon.GetAdapters" "Adapter"

  unfoldable pub get_devices : Option Bool → Result Objects → Result (List Ref)
  unfolding get_named
  get_devices = get_named "Daemon.GetDevices" "Device"

  unfoldable pub get_networks : Option Bool → Result Objects → Result (List Ref)
  unfolding get_named
  get_networks = get_named "Daemon.GetNetworks" "Network"

  unfoldable pub get_known_networks : Option Bool → Result Objects → Result (List Ref)
  unfolding get_named
  get_known_networks = get_named "Daemon.GetKnownNetworks" "KnownNetwork"

  unfoldable pub get_basic_service_sets : Option Bool → Result Objects → Result (List Ref)
  unfolding enumerate make_named
  get_basic_service_sets =
      enumerate "Daemon.GetBasicServiceSets" "BasicServiceSet"
        (make_named valid (iface_of "BasicServiceSet") "Address")

  unfoldable pub get_stations : Option Bool → Result Objects → Result (List Ref)
  unfolding enumerate make_station
  get_stations = enumerate "Daemon.GetStations" "Station" (make_station valid)

  unfoldable pub get_access_points : Option Bool → Result Objects → Result (List Ref)
  unfolding enumerate make_station
  get_access_points = enumerate "Daemon.GetAccessPoints" "AccessPoint" (make_station valid)
