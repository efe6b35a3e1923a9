-- ===== src/Station/Commands.antt =====
-- internal/core/station.go: the methods that ask a station to do something.
use spiderw.Base.{◌||◌, not, Option, none, some, String, List, [], ◌∷◌, if◌then◌else◌}
use spiderw.Base.Text.{is_blank, is_absolute, trim_space}
use spiderw.Failure.{Resource}
use spiderw.Errors.{Error, plain}
use spiderw.Errors.{wrap_invalid_argument, wrap_unavailable, station_unavailable_policy}
use spiderw.Station.{uninitialized}

-- The loop of `SetAffinities`: the first path that is refused.
unfoldable pub check_affinities : List String → Error
unfolding trim_space
check_affinities [] = none
check_affinities (p ∷ ps) =
    if is_blank (trim_space p) || not (is_absolute p)
    then wrap_invalid_argument Resource.station "Station.SetAffinities"
        "affinity path must be a non-empty absolute object path"
        (some (plain "invalid affinity path"))
    else check_affinities ps

abbrev pub set_checked : Error → (List String → Error) → List String → Error
set_checked (some e) b ps = some e
set_checked none b ps =
    wrap_unavailable station_unavailable_policy "Station.SetAffinities"
      "failed setting iwd Station affinities" (b ps)

-- `Station.SetAffinities`, for a backend that answers each list of paths.
unfoldable pub set_affinities : Option (List String → Error) → List String → Error
unfolding check_affinities
set_affinities none ps = uninitialized "Station.SetAffinities"
set_affinities (some b) ps = set_checked (check_affinities ps) b ps

-- `Station.ConnectHiddenNetwork`, for a backend that answers each name.
unfoldable pub connect_hidden_network : Option (String → Error) → String → Error
unfolding trim_space
connect_hidden_network none name = uninitialized "Station.ConnectHiddenNetwork"
connect_hidden_network (some b) name =
    if is_blank (trim_space name)
    then wrap_invalid_argument Resource.station "Station.ConnectHiddenNetwork"
        "network name cannot be empty" (some (plain "empty network name"))
    else wrap_unavailable station_unavailable_policy "Station.ConnectHiddenNetwork"
        "failed connecting iwd Station to hidden network" (b name)

-- `Station.Scan` and `Disconnect`.
abbrev pub delegated : String → String → Option Error → Error
delegated op details none = uninitialized op
delegated op details (some e) = wrap_unavailable station_unavailable_policy op details e

unfoldable pub scan : Option Error → Error
scan b = delegated "Station.Scan" "failed scheduling iwd Station scan" b

unfoldable pub disconnect : Option Error → Error
disconnect b = delegated "Station.Disconnect" "failed disconnecting iwd Station" b
