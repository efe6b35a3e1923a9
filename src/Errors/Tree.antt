-- ===== src/Errors/Tree.antt =====
-- Error values and the standard library's `errors.Is` and `errors.AsType` on them. The sentinels
-- are the `errors.New` variables of internal/iwdbus/errors.go, internal/iwdbus/iwderrors.go,
-- internal/core/errors.go and errors.go, grouped by the place that declares them.
use spiderw.Base.{Bool, false, ◌||◌, Option, none, some, String}
use spiderw.Failure.{Kind, Resource}
use mathlib.Core.Bool.{decide}
use mathlib.Core.Option.{or_else}

-- The five D-Bus categories, the values of the field `Kind` of `iwdbus.Error`.
pub data BusFailure : Type 0 where
  connection method property introspection variant : BusFailure

-- The outcomes that iwd names, in the order of the table `iwdErrorSentinels`.
pub data IwdOutcome : Type 0 where
  no_agent aborted busy failed not_supported timeout in_progress not_configured : IwdOutcome
  not_found already_exists invalid_arguments invalid_format not_connected : IwdOutcome
  not_implemented service_set_overlap already_provisioned not_hidden not_available : IwdOutcome
  permission_denied wsc_session_overlap wsc_no_credentials wsc_not_reachable : IwdOutcome
  wsc_walk_time_expired wsc_time_expired : IwdOutcome

-- The objects that can be used before they are initialised.
pub data Object : Type 0 where
  daemon adapter device station basic_service_set network known_network agent_manager : Object
  agent signal_level_agent simple_configuration access_point : Object

-- The sentinels of the public package.
pub data PublicMark : Type 0 where
  unavailable invalid_state internal invalid_argument spiderw_api : PublicMark

pub data Sentinel : Type 0 where
  bus : BusFailure → Sentinel
  bus_uninitialized : Object → Sentinel
  agent_canceled : Sentinel
  iwd : IwdOutcome → Sentinel
  core_mark : Sentinel
  core_uninitialized : Object → Sentinel
  public_mark : PublicMark → Sentinel

pub Sentinel-discrete : Discrete Sentinel
Sentinel-discrete = hlevel

-- Pointer equality of two sentinels.
unfoldable pub same : Sentinel → Sentinel → Bool
unfolding Sentinel-discrete
same a b = decide (Sentinel-discrete a b)

-- `plain` is an error that wraps nothing, such as `fmt.Errorf` of a constant; `dbus_error` is a
-- `dbus.Error` with its name; `annotated` is `fmt.Errorf("%w: %w", a, b)`; `bus_error`,
-- `core_error` and `public_error` are the structs `Error` of the three layers; `joined` and
-- `joined_one` are what `errors.Join` makes of two errors and of one.
pub data Err : Type 0 where
  sentinel : Sentinel → Err
  plain : String → Err
  dbus_error : String → Err
  annotated : Err → Err → Err
  bus_error : BusFailure → String → Err → Err
  core_error : Kind → Resource → String → String → Err → Err
  public_error : Kind → Resource → String → String → Err → Err
  joined : Err → Err → Err
  joined_one : Err → Err

-- A Go `error`; `none` is nil.
abbrev pub Error : Type 0
Error = Option Err

-- `sentinelForKind` of errors.go.
unfoldable pub sentinel_for_kind : Kind → PublicMark
sentinel_for_kind Kind.unavailable = unavailable
sentinel_for_kind Kind.invalid_state = invalid_state
sentinel_for_kind Kind.invalid_argument = invalid_argument
sentinel_for_kind Kind.operation_failed = internal
sentinel_for_kind Kind.internal = internal

-- `errors.Is(e, s)`: the value itself, then what its `Unwrap` gives.
unfoldable pub is : Sentinel → Err → Bool
is s (sentinel t) = same s t
is s (plain _) = false
is s (dbus_error _) = false
is s (annotated a b) = is s a || is s b
is s (bus_error k _ e) = same s (bus k) || is s e
is s (core_error _ _ _ _ e) = same s core_mark || is s e
is s (public_error k _ _ _ e) =
    same s (public_mark spiderw_api) || same s (public_mark (sentinel_for_kind k)) || is s e
is s (joined a b) = is s a || is s b
is s (joined_one a) = is s a

-- The fields of a structured error that classify it.
pub record Class : Type 0 where
  pub kind : Kind
  pub resource : Resource
  pub details : String

-- `errors.AsType[*core.Error]`.
unfoldable pub as_core : Err → Option Class
unfolding or_else
as_core (sentinel _) = none
as_core (plain _) = none
as_core (dbus_error _) = none
as_core (annotated a b) = or_else (as_core a) (as_core b)
as_core (bus_error _ _ e) = as_core e
as_core (core_error k r _ d _) = some (record { kind = k; resource = r; details = d })
as_core (public_error _ _ _ _ e) = as_core e
as_core (joined a b) = or_else (as_core a) (as_core b)
as_core (joined_one a) = as_core a

-- `errors.AsType[*Error]` of the public package.
unfoldable pub as_public : Err → Option Class
unfolding or_else
as_public (sentinel _) = none
as_public (plain _) = none
as_public (dbus_error _) = none
as_public (annotated a b) = or_else (as_public a) (as_public b)
as_public (bus_error _ _ e) = as_public e
as_public (core_error _ _ _ _ e) = as_public e
as_public (public_error k r _ d _) = some (record { kind = k; resource = r; details = d })
as_public (joined a b) = or_else (as_public a) (as_public b)
as_public (joined_one a) = as_public a

-- `errors.As` into a `dbus.Error`: its name.
unfoldable pub as_dbus : Err → Option String
unfolding or_else
as_dbus (sentinel _) = none
as_dbus (plain _) = none
as_dbus (dbus_error n) = some n
as_dbus (annotated a b) = or_else (as_dbus a) (as_dbus b)
as_dbus (bus_error _ _ e) = as_dbus e
as_dbus (core_error _ _ _ _ e) = as_dbus e
as_dbus (public_error _ _ _ _ e) = as_dbus e
as_dbus (joined a b) = or_else (as_dbus a) (as_dbus b)
as_dbus (joined_one a) = as_dbus a

-- `errors.Join` of two errors: nil where both are.
unfoldable pub join : Error → Error → Error
join none none = none
join (some a) none = some (joined_one a)
join none (some b) = some (joined_one b)
join (some a) (some b) = some (joined a b)
