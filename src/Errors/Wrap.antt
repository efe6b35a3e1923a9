-- ===== src/Errors/Wrap.antt =====
-- The wrapping of internal/core/errors.go, and that of errors.go for the public package.
use spiderw.Base.{Bool, true, false, ◌&&◌, ◌||◌, none, some, String, if◌then◌else◌}
use spiderw.Failure.{Kind, Resource, public}
use spiderw.Errors.Tree.{BusFailure, bus, Err, Error, core_error, public_error, is}
use spiderw.Errors.Tree.{as_core, as_public}

-- `newError`.
unfoldable pub new_error : Kind → Resource → String → String → Error → Error
new_error kind resource op details none = none
new_error kind resource op details (some e) = some (core_error kind resource op details e)

-- `unavailablePolicy` and its values.
pub record UnavailablePolicy : Type 0 where
  pub resource : Resource
  pub include_dbus_property : Bool

abbrev pub daemon_unavailable_policy : UnavailablePolicy
daemon_unavailable_policy = record { resource = Resource.daemon; include_dbus_property = false }

abbrev pub adapter_unavailable_policy : UnavailablePolicy
adapter_unavailable_policy = record { resource = Resource.adapter; include_dbus_property = true }

abbrev pub device_unavailable_policy : UnavailablePolicy
device_unavailable_policy = record { resource = Resource.device; include_dbus_property = true }

abbrev pub station_unavailable_policy : UnavailablePolicy
station_unavailable_policy = record { resource = Resource.station; include_dbus_property = true }

abbrev pub bss_unavailable_policy : UnavailablePolicy
bss_unavailable_policy = record {
  resource = Resource.basic_service_set;
  include_dbus_property = true;
}

abbrev pub network_unavailable_policy : UnavailablePolicy
network_unavailable_policy = record { resource = Resource.network; include_dbus_property = true }

abbrev pub known_network_unavailable_policy : UnavailablePolicy
known_network_unavailable_policy = record {
  resource = Resource.known_network;
  include_dbus_property = true;
}

abbrev pub agent_unavailable_policy : UnavailablePolicy
agent_unavailable_policy = record { resource = Resource.agent; include_dbus_property = false }

abbrev pub simple_configuration_unavailable_policy : UnavailablePolicy
simple_configuration_unavailable_policy = record {
  resource = Resource.simple_configuration;
  include_dbus_property = false;
}

abbrev pub access_point_unavailable_policy : UnavailablePolicy
access_point_unavailable_policy = record {
  resource = Resource.access_point;
  include_dbus_property = true;
}

-- `isUnavailableDBusError`.
unfoldable pub is_unavailable_dbus_error : Err → Bool → Bool
is_unavailable_dbus_error e include_property =
    if is (bus BusFailure.connection) e
      || is (bus BusFailure.method) e
      || is (bus BusFailure.introspection) e
      || is (bus BusFailure.variant) e
    then true
    else include_property && is (bus BusFailure.property) e

-- `wrapUnavailable`; the functions `Wrap…Unavailable` are its calls with the policies above.
unfoldable pub wrap_unavailable : UnavailablePolicy → String → String → Error → Error
unfolding new_error is_unavailable_dbus_error
wrap_unavailable policy op details none = none
wrap_unavailable policy op details (some e) =
    if is_unavailable_dbus_error e policy.include_dbus_property
    then new_error Kind.unavailable policy.resource op details (some e)
    else new_error Kind.operation_failed policy.resource op details (some e)

-- `WrapInvalidState`, `WrapInvalidArgument` and `WrapOperationFailed`.
unfoldable pub wrap_invalid_state : Resource → String → String → Error → Error
unfolding new_error
wrap_invalid_state resource op details err = new_error Kind.invalid_state resource op details err

unfoldable pub wrap_invalid_argument : Resource → String → String → Error → Error
unfolding new_error
wrap_invalid_argument resource op details err =
    new_error Kind.invalid_argument resource op details err

unfoldable pub wrap_operation_failed : Resource → String → String → Error → Error
unfolding new_error
wrap_operation_failed resource op details err =
    new_error Kind.operation_failed resource op details err

-- The branch of `wrapPublicError` for an error that is no public one.
abbrev pub public_of_core : String → Err → Err
public_of_core op e = elim (as_core e) [
  | some c ↦ public_error (public c.kind) c.resource op c.details e
  | none ↦ public_error Kind.internal Resource.unknown op "" e
]

-- `wrapPublicError`.
unfoldable pub wrap_public_error : String → Error → Error
unfolding as_core as_public public
wrap_public_error op none = none
wrap_public_error op (some e) = elim (as_public e) [
  | some _ ↦ some e
  | none ↦ some (public_of_core op e)
]
