-- ===== src/Client/Handles.antt =====
-- clientgeneric.go and the methods of client.go that make handles: one for a path, or all that the
-- daemon enumerates.
pub mod Enumerated
use spiderw.Base.{
  Bool, true, false, ◌||◌, not, Option, none, some, String, List, [], ◌∷◌, if◌then◌else◌,
}
use spiderw.Base.{str_eq, ◌<>◌}
use spiderw.Failure.{Resource}
use spiderw.Errors.{Error, wrap_public_error}
use spiderw.Outside.{Peer, Io, Trace, Returned}
use spiderw.Connect.{Spec, Wiring, CoreObject, new_object}
use spiderw.Connect.Constructors.{
  adapter_spec, device_spec, station_spec, access_point_spec, basic_service_set_spec, network_spec,
  known_network_spec,
}
use spiderw.Daemon.{Ref}
use spiderw.Client.{Client, internal, invalid_state, is_some}

-- A public handle: `Adapter`, `Device`, `Station`, `AccessPoint`, `BasicServiceSet`, `Network` or
-- `KnownNetwork`. The name is set for a station and for an access point only; the resolver and the
-- hooks that the client attaches are left out.
pub record Handle : Type 0 where
  pub core : CoreObject
  pub path : String
  pub name : String

-- `newAdapter`, …: nil for nil.
unfoldable pub new_handle : Option CoreObject → String → String → Option Handle
new_handle none path name = none
new_handle (some o) path name = some (record { core = o; path = path; name = name })

-- What follows the call of the wiring's constructor.
abbrev pub wrap_object : String → String → String → Returned CoreObject → Returned Handle
wrap_object op path name (o, some e) = (none, wrap_public_error op (some e))
wrap_object op path name (none, none) = (none, internal op)
wrap_object op path name (some o, none) = (new_handle (some o) path name, none)

abbrev pub on_object :
    String → String → String → Returned CoreObject × Trace → Returned Handle × Trace
on_object op path name r = (wrap_object op path name r.0, r.1)

-- `clientObject` with the constructor of `s`.
unfoldable pub client_object : String → Spec → Peer → Client → String → Io (Returned Handle)
unfolding new_handle new_object
client_object op s p c path t =
    if c.closed
    then ((none, invalid_state Resource.client op), t)
    else if not (is_some c.wire)
    then ((none, internal op), t)
    else on_object op path "" (new_object s p c.wire path t)

-- The loops of `AllAdapters`, …: one handle for each reference, in order, or the first error.
abbrev pub prepend : Handle → Returned (List Handle) × Trace → Returned (List Handle) × Trace
prepend h ((none, e), t) = ((none, e), t)
prepend h ((some hs, e), t) = ((some (h ∷ hs), e), t)

unfoldable pub make_handles :
    String → Spec → Bool → Peer → Option Wiring → List Ref → Io (Returned (List Handle))
unfolding new_handle new_object
make_handles op s named p w [] t = ((some [], none), t)
make_handles op s named p w (ref ∷ refs) t =
    let r = on_object op ref.path (if named then ref.name else "") (new_object s p w ref.path t) in
    elim r.0.0 [
      | none ↦ ((none, r.0.1), r.1)
      | some h ↦ prepend h (make_handles op s named p w refs r.1)
    ]

abbrev pub enumerated :
    String
    → Spec
    → Bool
    → Peer
    → Option Wiring
    → Returned (List Ref) × Trace
    → Returned (List Handle) × Trace
enumerated op s named p w ((_, some e), t) = ((none, wrap_public_error op (some e)), t)
enumerated op s named p w ((none, none), t) = ((some [], none), t)
enumerated op s named p w ((some refs, none), t) = make_handles op s named p w refs t

-- `AllAdapters`, …: `enumerate` stands for the daemon's method that enumerates the references.
unfoldable pub all_handles :
    String
    → Spec
    → Bool
    → Peer
    → (Trace → Returned (List Ref) × Trace)
    → Client
    → Io (Returned (List Handle))
unfolding make_handles
all_handles op s named p enumerate c t =
    if c.closed
    then ((none, invalid_state Resource.client op), t)
    else if not (is_some c.wire) || not c.daemon
    then ((none, internal op), t)
    else enumerated op s named p c.wire (enumerate t)

-- The public methods, one for a path and one for all.

unfoldable pub adapter : Peer → Client → String → Io (Returned Handle)
unfolding client_object
adapter = client_object "Client.Adapter" adapter_spec

unfoldable pub all_adapters :
    Peer → (Trace → Returned (List Ref) × Trace) → Client → Io (Returned (List Handle))
unfolding all_handles
all_adapters = all_handles "Client.AllAdapters" adapter_spec false

unfoldable pub device : Peer → Client → String → Io (Returned Handle)
unfolding client_object
device = client_object "Client.Device" device_spec

unfoldable pub all_devices :
    Peer → (Trace → Returned (List Ref) × Trace) → Client → Io (Returned (List Handle))
unfolding all_handles
all_devices = all_handles "Client.AllDevices" device_spec false

unfoldable pub all_stations :
    Peer → (Trace → Returned (List Ref) × Trace) → Client → Io (Returned (List Handle))
unfolding all_handles
all_stations = all_handles "Client.AllStations" station_spec true

unfoldable pub all_access_points :
    Peer → (Trace → Returned (List Ref) × Trace) → Client → Io (Returned (List Handle))
unfolding all_handles
all_access_points = all_handles "Client.AllAccessPoints" access_point_spec true

unfoldable pub basic_service_set : Peer → Client → String → Io (Returned Handle)
unfolding client_object
basic_service_set = client_object "Client.BasicServiceSet" basic_service_set_spec

unfoldable pub all_basic_service_sets :
    Peer → (Trace → Returned (List Ref) × Trace) → Client → Io (Returned (List Handle))
unfolding all_handles
all_basic_service_sets = all_handles "Client.AllBasicServiceSets" basic_service_set_spec false

unfoldable pub network : Peer → Client → String → Io (Returned Handle)
unfolding client_object
network = client_object "Client.Network" network_spec

unfoldable pub all_networks :
    Peer → (Trace → Returned (List Ref) × Trace) → Client → Io (Returned (List Handle))
unfolding all_handles
all_networks = all_handles "Client.AllNetworks" network_spec false

unfoldable pub known_network : Peer → Client → String → Io (Returned Handle)
unfolding client_object
known_network = client_object "Client.KnownNetwork" known_network_spec

unfoldable pub all_known_networks :
    Peer → (Trace → Returned (List Ref) × Trace) → Client → Io (Returned (List Handle))
unfolding all_handles
all_known_networks = all_handles "Client.AllKnownNetworks" known_network_spec false

-- `resolveStationName` and `resolveAccessPointName`: the name under which the daemon enumerates
-- the path, and the empty string where it does not or fails.
abbrev pub name_among : String → List Ref → String
name_among path [] = ""
name_among path (ref ∷ refs) = if str_eq ref.path path then ref.name else name_among path refs

unfoldable pub resolve_name : (Trace → Returned (List Ref) × Trace) → Client → String → Io String
resolve_name enumerate c path t = if not c.daemon then ("", t) else found (enumerate t)
  where
    found : Returned (List Ref) × Trace → String × Trace
    found ((_, some e), t') = ("", t')
    found ((none, none), t') = ("", t')
    found ((some refs, none), t') = (name_among path refs, t')

-- `Client.Station` and `Client.AccessPoint`.
unfoldable pub named_object :
    String
    → Spec
    → Peer
    → (Trace → Returned (List Ref) × Trace)
    → Client
    → String
    → Io (Returned Handle)
unfolding client_object resolve_name
named_object op s p enumerate c path t =
    let r = client_object op s p c path t in
    elim r.0.0 [
      | none ↦ ((none, r.0.1), r.1)
      | some h ↦
          let n = resolve_name enumerate c path r.1 in ((some (record h { name = n.0 }), none), n.1)
    ]

unfoldable pub station :
    Peer → (Trace → Returned (List Ref) × Trace) → Client → String → Io (Returned Handle)
unfolding named_object
station = named_object "Client.Station" station_spec

unfoldable pub access_point :
    Peer → (Trace → Returned (List Ref) × Trace) → Client → String → Io (Returned Handle)
unfolding named_object
access_point = named_object "Client.AccessPoint" access_point_spec
