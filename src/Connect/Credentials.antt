-- ===== src/Connect/Credentials.antt =====
-- `NewAgent` of internal/connect/wiring.go.
pub mod Unexported
use spiderw.Base.{not, none, some, Option, String, Bool, true, if◌then◌else◌}
use spiderw.Errors.{Error, plain, wrap_unavailable, agent_unavailable_policy}
use spiderw.Outside.{Peer, Io, Trace, Returned}
use spiderw.Connect.{Wiring, nil_wiring, nil_conn}
use spiderw.Agents
use spiderw.Agents.{AgentManager, CoreAgent, CredentialCallbacks}

abbrev pub agent_object_path : String
agent_object_path = "/spiderw/agent"

abbrev unavailable : String → Error → Returned CoreAgent
unavailable details e = (none, wrap_unavailable agent_unavailable_policy "NewAgent" details e)

-- The branches that unexport the object before they return an error.
abbrev give_up : Peer → String → String → Error → Io (Returned CoreAgent)
give_up p path details e t = (unavailable details e, (Agents.unexport_agent p path t).1)

abbrev on_registered :
    Peer → AgentManager → String → CredentialCallbacks → Error × Trace → Returned CoreAgent × Trace
on_registered p m path callbacks (some e, t) = give_up p path "failed registering agent" (some e) t
on_registered p m path callbacks (none, t) =
    ((some (Agents.bind m agent_object_path path (Agents.new_core_agent callbacks)), none), t)

abbrev on_manager :
    Peer → String → CredentialCallbacks → Returned AgentManager × Trace → Returned CoreAgent × Trace
on_manager p path callbacks ((_, some e), t) = give_up p path "agent manager unavailable" (some e) t
on_manager p path callbacks ((none, none), t) =
    give_up p path "agent manager unavailable" (some (plain "no agent manager")) t  -- never returned
on_manager p path callbacks ((some m, none), t) =
    on_registered p m path callbacks (Agents.register_agent p m agent_object_path t)

abbrev on_exported :
    Peer → CredentialCallbacks → Returned String × Trace → Returned CoreAgent × Trace
on_exported p callbacks ((_, some e), t) = (unavailable "failed exporting agent object" (some e), t)
on_exported p callbacks ((none, none), t) = (unavailable "failed exporting agent object" none, t)  -- never returned
on_exported p callbacks ((some path, none), t) =
    on_manager p path callbacks (Agents.new_agent_manager p t)

unfoldable pub new_agent : Peer → Option Wiring → CredentialCallbacks → Io (Returned CoreAgent)
unfolding Agents.unexport_agent Agents.bind Agents.new_core_agent
new_agent p none callbacks t = ((none, nil_wiring "NewAgent"), t)
new_agent p (some w) callbacks t = elim w.agent_factory [
  | some factory ↦ (factory callbacks, t)
  | none ↦
      if not w.conn
      then ((none, nil_conn "NewAgent"), t)
      else on_exported p callbacks (Agents.export_agent p w.conn agent_object_path t)
]
