-- ===== src/Public/Kept/Lists.antt =====
-- The references that the daemon enumerates, in the public package.
use spiderw.Base.{◌≡◌, refl, Option, some, String, List, [], ◌∷◌}
use spiderw.Daemon.{Ref}
use spiderw.Wire.{Result, ok, failed}
use spiderw.Wire.Agreement.{value}
use spiderw.Public
use spiderw.Public.{delegate}
use spiderw.Public.Daemon.{copied_refs, copied}

-- What a caller gets from the public package is what the core layer returns.
abbrev pub SameValue : {A : Type 0} → (Option (Result A) → Result A) → Result A → Type 0
SameValue public r = value (public (some r)) ≡ value r

-- The enumerations of the daemon, for one and the same list of references.
copied_refs-id : (rs : List Ref) → copied_refs rs ≡ rs
unfolding copied_refs
copied_refs-id [] = refl
copied_refs-id (r ∷ rs) = rw (copied_refs-id rs) refl

copied-value : (op : String) (r : Result (List Ref)) → value (delegate op (some r) copied) ≡ value r
unfolding delegate
copied-value op (ok rs) = rw (copied_refs-id rs) refl
copied-value op (failed e) = refl

abbrev pub ListsKept : Result (List Ref) → Type 0
ListsKept refs =
    SameValue Public.Daemon.adapters refs
    × SameValue Public.Daemon.devices refs
    × SameValue Public.Daemon.stations refs
    × SameValue Public.Daemon.access_points refs
    × SameValue Public.Daemon.basic_service_sets refs
    × SameValue Public.Daemon.networks refs
    × SameValue Public.Daemon.known_networks refs

pub lists-ListsKept : (refs : Result (List Ref)) → ListsKept refs
unfolding Public.Daemon.adapters Public.Daemon.devices Public.Daemon.stations
    Public.Daemon.access_points Public.Daemon.basic_service_sets Public.Daemon.networks
    Public.Daemon.known_networks
lists-ListsKept refs = (
  copied-value "Daemon.Adapters" refs,
  copied-value "Daemon.Devices" refs,
  copied-value "Daemon.Stations" refs,
  copied-value "Daemon.AccessPoints" refs,
  copied-value "Daemon.BasicServiceSets" refs,
  copied-value "Daemon.Networks" refs,
  copied-value "Daemon.KnownNetworks" refs,
)
