-- ===== src/Connect/Opening.antt =====
-- `newConn` of internal/connect/wiring.go, with `NewDaemon` of internal/iwdbus/daemon.go.
use spiderw.Base.{Bool, true, false, not, Option, none, some, String, ◌<>◌, if◌then◌else◌}
use spiderw.Errors.{Error, plain, iwd_service, join, wrap_introspection, wrap_unavailable}
use spiderw.Errors.{daemon_unavailable_policy, Object}
use spiderw.Outside.{Peer, Io, Trace, Returned, ask, connect, introspect, close_object, close_conn}
use spiderw.Agents.{iwd_daemon_path}
use spiderw.Connect.{CoreObject, Wiring, new_core}

-- What `newConn` leaves: its results, and the state of the closure `cleanup` when it was made.
pub record Opened : Type 0 where
  pub wire : Option Wiring
  pub err : Error
  pub cleanup_done : Bool
  pub cleanup_err : Error
  pub trace : Trace

abbrev iwd_daemon_iface : String
iwd_daemon_iface = iwd_service <> ".Daemon"

-- `NewDaemon` of internal/iwdbus: nil without an error where the interface is absent.
abbrev pub check_daemon : Peer → Error × Trace → Returned CoreObject × Trace
check_daemon p (some e, t) = ((none, wrap_introspection iwd_daemon_path (some e)), t)
check_daemon p (none, t) =
    if not (p.has_interface iwd_daemon_path iwd_daemon_iface)
    then ((none, none), (ask p (close_object iwd_daemon_path) t).1)
    else ((some (record { kind = Object.daemon; path = iwd_daemon_path }), none), t)

unfoldable pub new_daemon : Peer → Io (Returned CoreObject)
unfolding ask
new_daemon p t = check_daemon p (ask p (introspect iwd_daemon_path) t)

abbrev pub unavailable : String → Error → Error
unavailable details e = wrap_unavailable daemon_unavailable_policy "Wiring.newConn" details e

-- An error after the connection is made: `failure` where the cleanup succeeds, and otherwise
-- `cleanup_failure` of the cleanup's error.
abbrev pub give_up : Error → (Error → Error) → Error × Trace → Opened
give_up failure cleanup_failure (none, t) = record {
  wire = none;
  err = failure;
  cleanup_done = true;
  cleanup_err = none;
  trace = t;
}
give_up failure cleanup_failure (some e, t) = record {
  wire = none;
  err = cleanup_failure (some e);
  cleanup_done = true;
  cleanup_err = some e;
  trace = t;
}

-- The wiring of a daemon that is there.
abbrev pub wired : Peer → Option CoreObject → Trace → Opened
wired p none t =
    give_up (unavailable "daemon unavailable" (some (plain "core daemon interface not available")))
      (λ e. join e (
        wrap_unavailable daemon_unavailable_policy "NewDaemon" "daemon unavailable"
          (some (plain "failed core daemon cleanup"))))
      (ask p close_conn t)
wired p (some d) t = record {
  wire = some (record {
    conn = true;
    daemon = true;
    cleanup = true;
    object_factory = λ k. none;
    agent_factory = none;
    signal_agent_factory = none;
  });
  err = none;
  cleanup_done = false;
  cleanup_err = none;
  trace = t;
}

abbrev pub on_daemon : Peer → Returned CoreObject × Trace → Opened
on_daemon p ((_, some e), t) =
    give_up (unavailable "failed to get iwd daemon" (some e))
      (λ e'. join (some e) (unavailable "failed iwd daemon cleanup" e')) (ask p close_conn t)
on_daemon p ((none, none), t) =
    give_up
      (unavailable "failed to get iwd daemon" (some (plain "iwd daemon interface not available")))
      (λ e. join e (unavailable "failed iwd daemon cleanup" e)) (ask p close_conn t)
on_daemon p ((some raw, none), t) = wired p (new_core (some raw)) t

abbrev pub on_connected : Peer → Error × Trace → Opened
on_connected p (some e, t) = record {
  wire = none;
  err = unavailable "failed to connect to bus" (some e);
  cleanup_done = false;
  cleanup_err = none;
  trace = t;
}
on_connected p (none, t) = on_daemon p (new_daemon p t)

-- `newConn`.
unfoldable pub new_conn : Peer → Bool → Trace → Opened
unfolding ask new_daemon new_core
new_conn p system t = on_connected p (ask p (connect system) t)
