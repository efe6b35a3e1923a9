-- ===== src/Client/Tests.antt =====
-- The theorems on the client, its agents and its handles at concrete inputs.
use spiderw.Base.{ℕ, ◌+◌, true, false, arith, ◌≡◌, String, ◌⊎◌, refl, none, some, List, [], ◌∷◌}
use spiderw.Failure.{Kind, Resource}
use spiderw.Errors.{wrap_public_error, wrap_iwd_method}
use spiderw.Errors.Laws.Some.{is_nil}
use spiderw.Errors.Laws.Publish.{class_of}
use spiderw.Outside.{Peer, Trace, Returned, exports, unexports, conn_closes, connects}
use spiderw.Agents.{
  CredentialCallbacks, CoreAgent, AgentManager, iwd_agent_iface, validate, has_request_callback,
}
use spiderw.Agents as Agents
use spiderw.Connect.{Wiring, new_object}
use spiderw.Connect.Constructors.{station_spec}
use spiderw.Connect.Objects.{Gives, opens, new_object-opens, new_object_failure}
use spiderw.Connect.Credentials.{new_agent, agent_object_path}
use spiderw.Connect.Credentials.Unexported.{Outcome, new_agent-Outcome}
use spiderw.Client.{World, close, register_agent, unregister}
use spiderw.Client.Runs.{Operation, register, unregister_, run}
use spiderw.Client.Invariant.{Inv, nobody_Inv, slot_size, once_size}
use spiderw.Client.Promises.{run_one_agent, exports-run, close_for_good}
use spiderw.Client.Opening.{new_client, new_world}
use spiderw.Client.Opening.Owned.{new_client_owns}
use spiderw.Daemon.{Ref}
use spiderw.Client.Handles.Enumerated.{all_open}

-- A peer that accepts every call.
abbrev willing : Peer
willing = record {
  answer = λ t c. none;
  has_interface = λ path iface. true;
  is_valid_path = λ path. true;
}

-- A peer whose objects have no interface.
abbrev bare : Peer
bare = record {
  answer = λ t c. none;
  has_interface = λ path iface. false;
  is_valid_path = λ path. true;
}

abbrev callbacks : CredentialCallbacks
callbacks = record {
  passphrase = some (λ network. (some "secret", none));
  private_key_passphrase = none;
  user_name_and_password = none;
  user_password = none;
}

abbrev wiring : Wiring
wiring = record {
  conn = true;
  daemon = true;
  cleanup = true;
  object_factory = λ k. none;
  agent_factory = none;
  signal_agent_factory = none;
}

-- The client that `NewClient` makes with the willing peer, after its calls.
abbrev world : World
world = new_world (record {
  wire = some wiring;
  err = none;
  cleanup_done = false;
  cleanup_err = none;
  trace = [];
})

some-wiring : (v : Wiring) → some wiring ≡ some v → v.agent_factory ≡ none
some-wiring v q = let same_wiring : wiring ≡ v = ground arith in rw (← same_wiring) refl

world-Inv : Inv world
unfolding exports unexports conn_closes Agents.new_core_agent
world-Inv = nobody_Inv world some-wiring refl (λ j. refl) (λ path iface. refl) refl refl refl

-- Two agents one after the other.
abbrev session : List Operation
session = register callbacks ∷ unregister_ 0 ∷ register callbacks ∷ []

abbrev current : ℕ
current = 1

current_registered : ((run willing session world).agents current).core.registered ≡ true
unfolding run register_agent validate Agents.export_agent Agents.new_agent_manager
    Agents.register_agent wrap_iwd_method unregister Agents.unregister
current_registered = refl

run_one_agent_example : current ≡ current
run_one_agent_example =
    run_one_agent willing session world current current world-Inv current_registered
      current_registered

exports-run_example :
    exports agent_object_path iwd_agent_iface (run willing session world).trace
    ≡ unexports agent_object_path iwd_agent_iface (run willing session world).trace
      + slot_size agent_object_path iwd_agent_iface (run willing session world).client.agent
exports-run_example = exports-run agent_object_path iwd_agent_iface willing session world world-Inv

close_for_good_example :
    ((i : ℕ) → ((close willing world).1.agents i).core.registered ≡ false)
    × ((path iface : String)
        → exports path iface (close willing world).1.trace
          ≡ unexports path iface (close willing world).1.trace)
    × (conn_closes (close willing world).1.trace ≡ once_size (close willing world).1.client.cleanup)
    × ((run willing session (close willing world).1).trace ≡ (close willing world).1.trace)
    × ((close willing (run willing session (close willing world).1)).0 ≡ (close willing world).0)
close_for_good_example = close_for_good willing session world world-Inv

new_client_owns_example :
    ((w : World) × ((new_client bare false []).0 ≡ (some w, none))
      × Inv w
      × (w.client.closed ≡ false)
      × (connects w.trace ≡ 1)
      × (conn_closes w.trace ≡ 0))
    ⊎ (((new_client bare false []).0.0 ≡ none)
        × (is_nil (new_client bare false []).0.1 ≡ false)
        × (connects (new_client bare false []).1 ≡ conn_closes (new_client bare false []).1))
new_client_owns_example = new_client_owns bare false

new_agent-Outcome_example :
    Outcome agent_object_path iwd_agent_iface [] (new_agent willing (some wiring) callbacks [])
new_agent-Outcome_example =
    new_agent-Outcome agent_object_path iwd_agent_iface willing wiring callbacks [] refl

abbrev bound_agent : CoreAgent
bound_agent = record {
  callbacks = callbacks;
  current_cancel = some 7;
  registered = true;
  manager = some (record { intro = true });
  path = agent_object_path;
  unexport = some agent_object_path;
}

new_object-opens_example :
    Gives
      (opens station_spec willing wiring "/net/connman/iwd/0/3" [])
      station_spec
      "/net/connman/iwd/0/3"
      (new_object station_spec willing (some wiring) "/net/connman/iwd/0/3" []).0
new_object-opens_example =
    new_object-opens station_spec willing wiring "/net/connman/iwd/0/3" [] refl

new_object_failure_example :
    class_of (
      wrap_public_error "Client.Station"
        (new_object station_spec bare (some wiring) "/net/connman/iwd/0/3" []).0.1)
    ≡ some (record {
      kind = Kind.internal;
      resource = Resource.station;
      details = "station unavailable";
    })
new_object_failure_example =
    new_object_failure station_spec bare wiring "/net/connman/iwd/0/3" "Client.Station" [] refl refl
      refl refl (λ e q. absurd (ground arith))

abbrev refs : List Ref
refs = record { path = "/a"; name = "wlan0" } ∷ record { path = "/b"; name = "wlan1" } ∷ []

abbrev enumerate : Trace → Returned (List Ref) × Trace
enumerate t = ((some refs, none), t)

both_open : all_open station_spec willing wiring refs [] ≡ true
unfolding all_open
both_open = refl
