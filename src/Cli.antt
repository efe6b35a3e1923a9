-- ===== src/Cli.antt =====
-- cmd/spiderw/cli/refs.go: how the command line names the objects that a path refers to. Of a client
-- the monitor asks for a handle on the object at a path, and of that its name; both answers are given,
-- by the path. A reference to a basic service set carries its address for a name, so that `nameRef` and
-- `addrRef` are one record.
pub mod Monitored
pub mod ByRef
mod Tests
use spiderw.Base.{Bool, Option, none, some, String, ◌<>◌, List, [], ◌∷◌, if◌then◌else◌}
use spiderw.Base.Text.{is_blank}
use spiderw.Daemon.{Ref}
use spiderw.Wire.{Result, ok, failed}

-- `nameRef.readable` and `addrRef.readable`.
unfoldable pub readable : Ref → String
readable r = if is_blank r.name then r.path else r.name

-- `toNameRef` and `toAddrRef`.
abbrev pub to_ref : String → String → Ref
to_ref name path = record { path = path; name = name }

-- `toAddrRefs`.
unfoldable pub to_addr_refs : List Ref → List Ref
to_addr_refs [] = []
to_addr_refs (r ∷ rs) = to_ref r.name r.path ∷ to_addr_refs rs

-- `strings.Join` with ", ", `readableAddrRefs`, `optionalPathText` and `pathListText`.
unfoldable pub joined_texts : List String → String
joined_texts [] = ""
joined_texts (s ∷ []) = s
joined_texts (s ∷ t ∷ ts) = s <> ", " <> joined_texts (t ∷ ts)

unfoldable pub readable_parts : List Ref → List String
unfolding readable
readable_parts [] = []
readable_parts (r ∷ rs) = readable r ∷ readable_parts rs

unfoldable pub readable_addr_refs : List Ref → String
unfolding joined_texts readable_parts
readable_addr_refs [] = "-"
readable_addr_refs (r ∷ rs) = joined_texts (readable_parts (r ∷ rs))

unfoldable pub optional_path_text : Option String → String → String
optional_path_text none absent = absent
optional_path_text (some path) absent = if is_blank path then absent else path

unfoldable pub path_list_text : List String → String
unfolding joined_texts
path_list_text [] = "none"
path_list_text (p ∷ ps) = joined_texts (p ∷ ps)

-- `refPath`, `bssRefPath` and `bssRefPaths`.
unfoldable pub ref_path : Option Ref → Option String
ref_path none = none
ref_path (some r) = some r.path

unfoldable pub bss_ref_paths : List Ref → List String
bss_ref_paths [] = []
bss_ref_paths (r ∷ rs) = r.path ∷ bss_ref_paths rs

-- What a client answers for a path: a handle or nil, and what the handle answers for its name.
abbrev pub Lookup : Type 0
Lookup = String → Result (Option (Result String))

abbrev pub named_by : Result (Option (Result String)) → String
named_by (ok (some (ok name))) = name
named_by (ok (some (failed e))) = ""
named_by (ok none) = ""
named_by (failed e) = ""

abbrev pub monitored_at : Option Lookup → String → Ref
monitored_at none path = to_ref "" path
monitored_at (some find) path = to_ref (named_by (find path)) path

-- `monitorResolver.networkRef`, `bssRef` and `knownNetworkRef`, for the lookup of a client, if there is
-- one.
unfoldable pub network_ref : Option Lookup → Option String → Option Ref
network_ref client none = none
network_ref client (some path) = if is_blank path then none else some (monitored_at client path)

unfoldable pub bss_ref : Option Lookup → Option String → Option Ref
bss_ref client none = none
bss_ref client (some path) = if is_blank path then none else some (monitored_at client path)

unfoldable pub known_network_ref : Option Lookup → Option String → Option Ref
known_network_ref client none = none
known_network_ref client (some path) =
    if is_blank path then none else some (monitored_at client path)

-- `monitorResolver.bssRefs`; nil is the empty list.
abbrev pub add_ref : Option Ref → List Ref → List Ref
add_ref none rs = rs
add_ref (some r) rs = r ∷ rs

unfoldable pub bss_refs : Option Lookup → List String → List Ref
unfolding bss_ref
bss_refs client [] = []
bss_refs client (p ∷ ps) = add_ref (bss_ref client (some p)) (bss_refs client ps)

-- `readableNameRef` and `readableAddrRef`.
unfoldable pub readable_ref : Option Ref → String → String
unfolding readable
readable_ref none absent = absent
readable_ref (some r) absent = readable r

-- `netRefOf` and `bssAddrRefOf`.
unfoldable pub net_ref_of : Option Ref → Option Ref
net_ref_of none = none
net_ref_of (some r) = some (to_ref r.name r.path)
