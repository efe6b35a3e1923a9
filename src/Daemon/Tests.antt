-- ===== src/Daemon/Tests.antt =====
-- The theorems on the daemon's answers at concrete inputs.
use spiderw.Base.{◌≡◌, refl, none, some, List, [], ◌∷◌, map, if◌then◌else◌}
use spiderw.Errors.Laws.Some.{is_nil}
use spiderw.Daemon.{Ref, normalize, adapters_listing, stations_listing}
use spiderw.Daemon.Normal.{trimmed, all_usable, normalize_usable}

abbrev raw : List Ref
raw = record { path = " /phy0"; name = "phy0\n" } ∷ record { path = "/phy1 "; name = " phy 1" } ∷ []

abbrev normal : List Ref
normal = record { path = "/phy0"; name = "phy0" } ∷ record { path = "/phy1"; name = "phy 1" } ∷ []

normalize_usable_example :
    ((normalize adapters_listing raw).0
      ≡ (if all_usable adapters_listing raw then some (map trimmed raw) else none))
    × (is_nil (normalize adapters_listing raw).1 ≡ all_usable adapters_listing raw)
normalize_usable_example = normalize_usable adapters_listing raw

normalized : (normalize adapters_listing raw).0 ≡ some normal
unfolding normalize
normalized = refl

-- A station needs no name.
nameless_station :
    (normalize stations_listing (record { path = "/s"; name = " " } ∷ [])).0
    ≡ some (record { path = "/s"; name = "" } ∷ [])
unfolding normalize
nameless_station = refl
