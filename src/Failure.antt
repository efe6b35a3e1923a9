-- ===== src/Failure.antt =====
-- internal/failure/kind.go: the kinds and the resources by which failures are classified.

-- The constants of `Kind`. The public package's kinds are the same strings.
pub data Kind : Type 0 where
  unavailable invalid_state invalid_argument operation_failed internal : Kind

-- The constants of `Resource`; `unknown` is the empty label.
pub data Resource : Type 0 where
  unknown client daemon adapter device basic_service_set station network : Resource
  known_network agent simple_configuration access_point : Resource

-- `Public`: the kind under which the public package shows a failure.
unfoldable pub public : Kind → Kind
public unavailable = unavailable
public invalid_state = invalid_state
public invalid_argument = invalid_argument
public internal = internal
public operation_failed = internal
