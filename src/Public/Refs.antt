-- ===== src/Public/Refs.antt =====
-- resolve.go, and internal/connect/resolver.go: the names that go with the paths in a bundle.
use spiderw.Base.{Bool, true, false, Option, none, some, String}
use spiderw.Daemon.{Ref}
use spiderw.Wire.{Result, ok, ◌>>=◌}
use spiderw.Wire.Tree.{
  Objects, fetch_object_tree, network_name, device_name, adapter_name, bss_address,
}

-- A `Resolver` is what its `Resolve` answers, which may be a nil tree without an error.
abbrev pub Resolver : Type 0
Resolver = Result (Option Objects)

-- `wiringResolver.Resolve`, for the answer of `getManagedObjects`.
unfoldable pub resolve : Result Objects → Resolver
unfolding fetch_object_tree
resolve answer = do tree ← fetch_object_tree answer; ok (some tree)

-- `Wiring.Resolver`: whether there is a wiring, its override, and what its connection would answer.
unfoldable pub wiring_resolver : Bool → Option Resolver → Option (Result Objects) → Option Resolver
unfolding resolve
wiring_resolver false override conn = none
wiring_resolver true (some r) conn = some r
wiring_resolver true none none = none
wiring_resolver true none (some answer) = some (resolve answer)

-- `resolveTree`.
unfoldable pub resolve_tree : Option Resolver → Resolver
resolve_tree none = ok none
resolve_tree (some r) = r

-- The methods of `objectTree`, which give "" for a miss.
abbrev pub or_blank : Option String → String
or_blank none = ""
or_blank (some s) = s

abbrev pub name_in : (Option Objects → String → Option String) → Option Objects → String → String
name_in find none path = ""
name_in find (some t) path = or_blank (find (some t) path)

-- `networkRefOf`, `bssRefOf`, `deviceRefOf` and `adapterRefOf`; a reference to a basic service set
-- carries its address for a name.
unfoldable pub network_ref_of : Option Objects → String → Ref
unfolding network_name
network_ref_of tree path = record { path = path; name = name_in network_name tree path }

unfoldable pub bss_ref_of : Option Objects → String → Ref
unfolding bss_address
bss_ref_of tree path = record { path = path; name = name_in bss_address tree path }

unfoldable pub device_ref_of : Option Objects → String → Ref
unfolding device_name
device_ref_of tree path = record { path = path; name = name_in device_name tree path }

unfoldable pub adapter_ref_of : Option Objects → String → Ref
unfolding adapter_name
adapter_ref_of tree path = record { path = path; name = name_in adapter_name tree path }
