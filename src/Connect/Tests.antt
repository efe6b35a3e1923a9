-- ===== src/Connect/Tests.antt =====
-- The theorems on signal-level agents and on requests for credentials at concrete inputs.
use spiderw.Base.{true, ◌≡◌, refl, none, some, String, [], ◌∷◌, negsuc}
use spiderw.Errors.{plain}
use spiderw.Outside.{Call, Peer, ask, abort}
use spiderw.Agents.{new_core_agent}
use spiderw.Agents.Requests.{
  State, Callback, dispatch_credential, begin_request, done_request, handle_cancel,
}
use spiderw.Agents.Requests.Canceling.{
  given, returned_ok, error_name, canceled_unless, request_reply, canceled, unregistered, interrupt,
}
use spiderw.SignalAgent.{SignalLevelConfig}
use spiderw.SignalAgent.Handle.{SignalLevelAgent, iwd_signal_level_agent_iface}
use spiderw.Connect.{Wiring}
use spiderw.Connect.SignalMonitor.{monitor_signal_level, signal_level_agent_object_path}
use spiderw.Connect.SignalMonitor.Registered.{Outcome}
use spiderw.Connect.SignalMonitor.Unexported.{monitor_signal_level-Outcome}

-- A peer that refuses every method call and accepts all else.
abbrev refusing : Peer
refusing = record {
  answer = λ t c. elim c [
    | Call.method i m x ↦ some (plain "refused")
    | Call.method_at o i m x ls ↦ some (plain "refused")
    | _ ↦ none
  ];
  has_interface = λ path iface. true;
  is_valid_path = λ path. true;
}

abbrev wiring : Wiring
wiring = record {
  conn = true;
  daemon = true;
  cleanup = true;
  object_factory = λ k. none;
  agent_factory = none;
  signal_agent_factory = none;
}

abbrev station : String
station = "/net/connman/iwd/0/3"

abbrev config : SignalLevelConfig
config = record { thresholds = negsuc 59 ∷ negsuc 69 ∷ []; changed = true }

monitor_signal_level-Outcome_example :
    Outcome
      (signal_level_agent_object_path station)
      iwd_signal_level_agent_iface
      station
      config.thresholds
      (signal_level_agent_object_path station)
      []
      (monitor_signal_level refusing wiring station config [])
monitor_signal_level-Outcome_example =
    monitor_signal_level-Outcome (signal_level_agent_object_path station)
      iwd_signal_level_agent_iface refusing wiring station config [] refl

abbrev agent : SignalLevelAgent
agent = record {
  levels = config.thresholds;
  registered = true;
  registrar = some (record { path = station; call = true });
  path = "/spiderw/signalagent/net/connman/iwd/0/3";
  unexport = some "/spiderw/signalagent/net/connman/iwd/0/3";
}

-- A callback during which iwd cancels the request, and which declines then.
abbrev canceled_prompt : Callback String
canceled_prompt s = ((none, some (plain "context canceled")), handle_cancel refusing s)

abbrev idle : State
idle = (
  new_core_agent (record {
    passphrase = none;
    private_key_passphrase = none;
    user_name_and_password = none;
    user_password = none;
  }),
  [],
)

request_reply_example :
    let r = dispatch_credential refusing 4 (some canceled_prompt) idle in
    let during = interrupt refusing (canceled ∷ unregistered ∷ []) (begin_request 4 idle) in
    let overlapped = done_request refusing 5 (begin_request 5 during) in
    (given r.0 ≡ returned_ok (canceled_prompt (begin_request 4 idle)).0)
    × (error_name r.0 ≡ canceled_unless (returned_ok (canceled_prompt (begin_request 4 idle)).0))
    × (handle_cancel refusing r.1 ≡ r.1)
    × (handle_cancel refusing during ≡ (during.0, (ask refusing (abort 4) during.1).1))
    × (handle_cancel refusing overlapped ≡ overlapped)
request_reply_example =
    request_reply refusing 4 5 canceled_prompt (canceled ∷ unregistered ∷ []) idle
