-- ===== src/Wire/Tree.antt =====
-- internal/iwdbus/objecttree.go: the managed objects of iwd, and the names that they carry.
use spiderw.Base.{Option, none, some, String, ◌<>◌, List}
use spiderw.Errors.{iwd_service, wrap_introspection}
use spiderw.Wire.{Value, text, Props, lookup, Result, ok, failed}

-- The interfaces of an object with their properties, and all objects by their paths: the reply of
-- `getManagedObjects`. A map is the list of its entries in the order in which it is ranged over.
abbrev pub Interfaces : Type 0
Interfaces = List (String × Props)

abbrev pub Objects : Type 0
Objects = List (String × Interfaces)

-- `FetchObjectTree`, for the answer of `getManagedObjects`; the tree is the objects.
unfoldable pub fetch_object_tree : Result Objects → Result Objects
unfolding wrap_introspection
fetch_object_tree (ok objects) = ok objects
fetch_object_tree (failed e) =
    failed (wrap_introspection "org.freedesktop.DBus.ObjectManager.GetManagedObjects" e)

abbrev pub string_value : Value → Option String
string_value (text s) = some s
string_value _ = none

abbrev pub string_in : String → Props → Option String
string_in prop props = elim (lookup prop props) [ none ↦ none | some v ↦ string_value v ]

abbrev pub string_of : String → String → Interfaces → Option String
string_of iface prop ifaces = elim (lookup iface ifaces) [
  | none ↦ none
  | some props ↦ string_in prop props
]

-- `stringProp`, of a tree or of nil.
unfoldable pub string_prop : Option Objects → String → String → String → Option String
unfolding lookup
string_prop none path iface prop = none
string_prop (some objects) path iface prop = elim (lookup path objects) [
  | none ↦ none
  | some ifaces ↦ string_of iface prop ifaces
]

abbrev pub iface_of : String → String
iface_of noun = iwd_service <> "." <> noun

-- `NetworkName`, `DeviceName`, `AdapterName`, `KnownNetworkName` and `BSSAddress`.
unfoldable pub network_name : Option Objects → String → Option String
unfolding string_prop
network_name t path = string_prop t path (iface_of "Network") "Name"

unfoldable pub device_name : Option Objects → String → Option String
unfolding string_prop
device_name t path = string_prop t path (iface_of "Device") "Name"

unfoldable pub adapter_name : Option Objects → String → Option String
unfolding string_prop
adapter_name t path = string_prop t path (iface_of "Adapter") "Name"

unfoldable pub known_network_name : Option Objects → String → Option String
unfolding string_prop
known_network_name t path = string_prop t path (iface_of "KnownNetwork") "Name"

unfoldable pub bss_address : Option Objects → String → Option String
unfolding string_prop
bss_address t path = string_prop t path (iface_of "BasicServiceSet") "Address"
