-- ===== src/Daemon.antt =====
-- internal/core/daemon.go: what the core layer makes of the daemon's answers. The answer of a method
-- of internal/iwdbus/daemon.go is an argument; a text that an error quotes is left out.
pub mod Normal
mod Tests
use spiderw.Base.{
  Bool, true, false, ◌&&◌, ◌||◌, not, Option, none, some, String, ◌<>◌, List, [], ◌∷◌,
  if◌then◌else◌,
}
use spiderw.Base.Text.{is_blank, is_absolute, trim_space}
use spiderw.Failure.{Resource}
use spiderw.Errors.{Error, Object, sentinel, core_uninitialized, plain}
use spiderw.Errors.{wrap_invalid_state, wrap_unavailable, daemon_unavailable_policy}
use spiderw.Outside.{Returned}

-- `AdapterRef`, …, with a BSS's address as its name.
pub record Ref : Type 0 where
  pub path : String
  pub name : String

-- `DaemonInfo`.
pub record Info : Type 0 where
  pub version : String
  pub state_directory : String
  pub network_configuration_enabled : Bool

-- `rawDaemon`: the error of a wrapper that has no backend.
abbrev uninitialized : String → Error
uninitialized op =
    wrap_invalid_state Resource.daemon op "daemon wrapper was nil"
      (some (sentinel (core_uninitialized Object.daemon)))

abbrev bad_info : String → String → Returned Info
bad_info details reason =
    (none, wrap_invalid_state Resource.daemon "Daemon.Info" details (some (plain reason)))

-- The part of `Info` after the trimming.
unfoldable pub checked_info : String → String → Bool → Returned Info
checked_info v s enabled =
    if is_blank v
    then bad_info "daemon returned empty Version" "missing or invalid Version field"
    else if is_blank s
    then bad_info "daemon returned empty StateDirectory" "missing or invalid StateDirectory field"
    else if not (is_absolute s)
    then bad_info "daemon returned StateDirectory as relative path" "invalid StateDirectory field"
    else (
      some (record { version = v; state_directory = s; network_configuration_enabled = enabled }),
      none,
    )

-- `Daemon.Info`; the outer `Option` is the backend, or nil.
unfoldable pub info : Option (Returned Info) → Returned Info
unfolding checked_info trim_space
info none = (none, uninitialized "Daemon.Info")
info (some (_, some e)) = (
  none,
  wrap_unavailable daemon_unavailable_policy "Daemon.Info" "failed querying iwd Daemon info"
      (some e),
)
info (some (none, none)) = (none, none)
info (some (some raw, none)) =
    checked_info (trim_space raw.version) (trim_space raw.state_directory)
      raw.network_configuration_enabled

-- What tells one enumeration from another.
pub record Listing : Type 0 where
  pub op : String
  pub noun : String
  pub plural : String
  pub resource : Resource
  pub label : String
  pub needs_name : Bool

abbrev bad_ref : Listing → String → String → Returned (List Ref)
bad_ref l details reason =
    (none, wrap_invalid_state l.resource l.op (l.noun <> details) (some (plain reason)))

abbrev pub prepend : Ref → Returned (List Ref) → Returned (List Ref)
prepend r (none, e) = (none, e)
prepend r (some rs, e) = (some (r ∷ rs), e)

-- The loop of an enumeration.
unfoldable pub normalize : Listing → List Ref → Returned (List Ref)
unfolding trim_space
normalize l [] = (some [], none)
normalize l (r ∷ rs) =
    let p = trim_space r.path in
    let n = trim_space r.name in
    let rest = normalize l rs in
    if is_blank p || not (is_absolute p)
    then bad_ref l " returned invalid path" "invalid path"
    else if l.needs_name && is_blank n
    then bad_ref l (" returned empty " <> l.label) "missing or invalid field"
    else prepend (record { path = p; name = n }) rest

-- The enumeration that `l` describes, given the answer of the backend or that there is none.
unfoldable pub enumerate : Listing → Option (Returned (List Ref)) → Returned (List Ref)
unfolding normalize
enumerate l none = (none, uninitialized l.op)
enumerate l (some (_, some e)) =
    (none, wrap_unavailable daemon_unavailable_policy l.op ("failed getting " <> l.plural) (some e))
enumerate l (some (none, none)) = (some [], none)
enumerate l (some (some rs, none)) = normalize l rs

-- The seven enumerations.

abbrev pub adapters_listing : Listing
adapters_listing = record {
  op = "Daemon.Adapters";
  noun = "adapter";
  plural = "adapters";
  resource = Resource.adapter;
  label = "Name";
  needs_name = true;
}

unfoldable pub adapters : Option (Returned (List Ref)) → Returned (List Ref)
unfolding enumerate
adapters = enumerate adapters_listing

abbrev pub devices_listing : Listing
devices_listing = record {
  op = "Daemon.Devices";
  noun = "device";
  plural = "devices";
  resource = Resource.device;
  label = "Name";
  needs_name = true;
}

unfoldable pub devices : Option (Returned (List Ref)) → Returned (List Ref)
unfolding enumerate
devices = enumerate devices_listing

abbrev pub stations_listing : Listing
stations_listing = record {
  op = "Daemon.Stations";
  noun = "station";
  plural = "stations";
  resource = Resource.station;
  label = "Name";
  needs_name = false;
}

unfoldable pub stations : Option (Returned (List Ref)) → Returned (List Ref)
unfolding enumerate
stations = enumerate stations_listing

abbrev pub access_points_listing : Listing
access_points_listing = record {
  op = "Daemon.AccessPoints";
  noun = "access point";
  plural = "access points";
  resource = Resource.access_point;
  label = "Name";
  needs_name = false;
}

unfoldable pub access_points : Option (Returned (List Ref)) → Returned (List Ref)
unfolding enumerate
access_points = enumerate access_points_listing

abbrev pub basic_service_sets_listing : Listing
basic_service_sets_listing = record {
  op = "Daemon.BasicServiceSets";
  noun = "basic service set";
  plural = "basic service sets";
  resource = Resource.basic_service_set;
  label = "Address";
  needs_name = true;
}

unfoldable pub basic_service_sets : Option (Returned (List Ref)) → Returned (List Ref)
unfolding enumerate
basic_service_sets = enumerate basic_service_sets_listing

abbrev pub networks_listing : Listing
networks_listing = record {
  op = "Daemon.Networks";
  noun = "network";
  plural = "networks";
  resource = Resource.network;
  label = "Name";
  needs_name = true;
}

unfoldable pub networks : Option (Returned (List Ref)) → Returned (List Ref)
unfolding enumerate
networks = enumerate networks_listing

abbrev pub known_networks_listing : Listing
known_networks_listing = record {
  op = "Daemon.KnownNetworks";
  noun = "known network";
  plural = "known networks";
  resource = Resource.known_network;
  label = "Name";
  needs_name = true;
}

unfoldable pub known_networks : Option (Returned (List Ref)) → Returned (List Ref)
unfolding enumerate
known_networks = enumerate known_networks_listing
