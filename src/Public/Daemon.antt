-- ===== src/Public/Daemon.antt =====
-- daemon.go. The text of `DaemonInfo.String` is left out.
use spiderw.Base.{Bool, Option, String, List, [], ◌∷◌}
use spiderw.Daemon.{Ref, Info}
use spiderw.Wire.{Result, ok, ◌>>=◌}
use spiderw.Public.{delegate}

-- `Info`, which copies the fields.
unfoldable pub info : Option (Result Info) → Result Info
unfolding delegate
info b = delegate "Daemon.Info" b (λ r. do
  ci ← r
  ok (record {
    version = ci.version;
    state_directory = ci.state_directory;
    network_configuration_enabled = ci.network_configuration_enabled;
  }))

unfoldable pub version : Option (Result String) → Result String
unfolding delegate
version b = delegate "Daemon.Version" b (λ r. r)

unfoldable pub state_directory : Option (Result String) → Result String
unfolding delegate
state_directory b = delegate "Daemon.StateDirectory" b (λ r. r)

unfoldable pub network_configuration_enabled : Option (Result Bool) → Result Bool
unfolding delegate
network_configuration_enabled b = delegate "Daemon.NetworkConfigurationEnabled" b (λ r. r)

-- The enumerations: the loop of each, which copies the references, and the methods.
unfoldable pub copied_refs : List Ref → List Ref
copied_refs [] = []
copied_refs (r ∷ rs) = record { path = r.path; name = r.name } ∷ copied_refs rs

abbrev pub copied : Result (List Ref) → Result (List Ref)
copied r = do refs ← r; ok (copied_refs refs)

unfoldable pub adapters : Option (Result (List Ref)) → Result (List Ref)
unfolding delegate copied_refs
adapters b = delegate "Daemon.Adapters" b copied

unfoldable pub devices : Option (Result (List Ref)) → Result (List Ref)
unfolding delegate copied_refs
devices b = delegate "Daemon.Devices" b copied

unfoldable pub stations : Option (Result (List Ref)) → Result (List Ref)
unfolding delegate copied_refs
stations b = delegate "Daemon.Stations" b copied

unfoldable pub access_points : Option (Result (List Ref)) → Result (List Ref)
unfolding delegate copied_refs
access_points b = delegate "Daemon.AccessPoints" b copied

unfoldable pub basic_service_sets : Option (Result (List Ref)) → Result (List Ref)
unfolding delegate copied_refs
basic_service_sets b = delegate "Daemon.BasicServiceSets" b copied

unfoldable pub networks : Option (Result (List Ref)) → Result (List Ref)
unfolding delegate copied_refs
networks b = delegate "Daemon.Networks" b copied

unfoldable pub known_networks : Option (Result (List Ref)) → Result (List Ref)
unfolding delegate copied_refs
known_networks b = delegate "Daemon.KnownNetworks" b copied
