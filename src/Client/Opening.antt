-- ===== src/Client/Opening.antt =====
-- `NewClient` of client.go.
pub mod Owned
use spiderw.Base.{Bool, true, false, not, Option, none, some, String, if◌then◌else◌}
use spiderw.Errors.{Error, plain, wrap_public_error}
use spiderw.Outside.{Peer, Trace}
use spiderw.Agents.{CredentialCallbacks, new_core_agent}
use spiderw.Connect.{Wiring}
use spiderw.Connect.Opening.{Opened, new_conn}
use spiderw.Client.{World, Client, Agent}

abbrev nil_in_wiring : String → String → Error
nil_in_wiring op details = wrap_public_error op (some (plain details))

-- `validateClientWiring`.
unfoldable pub validate_client_wiring : String → Option Wiring → Error
validate_client_wiring op none = nil_in_wiring op "nil wiring"
validate_client_wiring op (some w) =
    if not w.conn
    then nil_in_wiring op "nil connection in wiring"
    else if not w.daemon
    then nil_in_wiring op "nil daemon in wiring"
    else if not w.cleanup
    then nil_in_wiring op "nil cleanup in wiring"
    else none

abbrev pub new_world_client : Option Wiring → Client
new_world_client none = record {
  daemon = false;
  wire = none;
  cleanup = false;
  agent = none;
  closed = false;
  close_done = false;
  close_err = none;
}
new_world_client (some w) = record {
  daemon = w.daemon;
  wire = some w;
  cleanup = w.cleanup;
  agent = none;
  closed = false;
  close_done = false;
  close_err = none;
}

abbrev pub no_agent : Agent
no_agent = record {
  core = new_core_agent (record {
    passphrase = none;
    private_key_passphrase = none;
    user_name_and_password = none;
    user_password = none;
  });
  cleared = false;
}

-- The world of the client that `NewClient` makes of a wiring.
abbrev pub new_world : Opened → World
new_world o = record {
  client = new_world_client o.wire;
  agents = λ i. no_agent;
  next = 0;
  cleanup_done = o.cleanup_done;
  cleanup_err = o.cleanup_err;
  trace = o.trace;
}

abbrev pub on_validated : Error → Opened → (Option World × Error) × Trace
on_validated (some e) o = ((none, some e), o.trace)
on_validated none o = ((some (new_world o), none), o.trace)

-- `NewClient` with what `connect.System` or `connect.Session` returned, the error first.
abbrev pub on_wiring : Error → Opened → (Option World × Error) × Trace
on_wiring (some e) o = ((none, wrap_public_error "NewClient" (some e)), o.trace)
on_wiring none o = on_validated (validate_client_wiring "NewClient" o.wire) o

-- `NewClient`; `session` says whether the bus is the session bus.
unfoldable pub new_client : Peer → Bool → Trace → (Option World × Error) × Trace
unfolding new_conn validate_client_wiring new_core_agent
new_client p session t = let o = new_conn p (not session) t in on_wiring o.err o
