-- ===== src/Agents/Teardown.antt =====
-- `Unregister` of internal/core/agent.go, and the tearing down that it does once.
use spiderw.Base.{
  ℕ, ◌+◌, true, false, ◌≡◌, refl, arith, Option, none, some, String, Bool-cases, inl, inr,
}
use spiderw.Outside.{Peer, Trace, exports, unexports, conn_closes, one_if_same}
use spiderw.Outside.Balance.{Rose, ask-method, ask-abort, ask-unexport}
use spiderw.Agents.{
  AgentManager, CoreAgent, unregister, tear_down, unregister_agent, call_manager, unexport_agent,
  abort_request, unregister_manager, iwd_agent_manager_iface, iwd_agent_iface,
}

module _ (p : Peer) (path iface : String) where
  abort_request-Rose : (o : Option ℕ) (t : Trace) → Rose path iface 0 t (abort_request p o t)
  abort_request-Rose none t = ground arith
  abort_request-Rose (some n) t = ask-abort path iface p n t

  unregister_agent-Rose :
      (m : AgentManager) (agent_path : String) (t : Trace)
      → Rose path iface 0 t (unregister_agent p m agent_path t).1
  unfolding unregister_agent call_manager
  unregister_agent-Rose m agent_path t = elim (Bool-cases m.intro) [
    | inl i ↦
        rw (i, unregister_agent, call_manager)
          (ask-method path iface p iwd_agent_manager_iface "UnregisterAgent" agent_path t)
    | inr i ↦ rw (i, unregister_agent, call_manager) (ground arith)
  ]

  unregister_manager-Rose :
      (m : Option AgentManager) (agent_path : String) (t : Trace)
      → Rose path iface 0 t (unregister_manager p m agent_path t).1
  unregister_manager-Rose none agent_path t = ground arith
  unregister_manager-Rose (some m) agent_path t = unregister_agent-Rose m agent_path t

  tear_down-unexports :
      (a : CoreAgent) (u : String) (t : Trace)
      → a.unexport ≡ some u
      → (exports path iface (tear_down p a t).1
            + unexports path iface t
            + one_if_same path iface u iwd_agent_iface
          ≡ exports path iface t + unexports path iface (tear_down p a t).1)
        × (conn_closes (tear_down p a t).1 ≡ conn_closes t)
  unfolding tear_down unexport_agent
  tear_down-unexports a u t h =
      let t1 = abort_request p a.current_cancel t in
      let t2 = (unregister_manager p a.manager a.path t1).1 in
      let q1 = abort_request-Rose a.current_cancel t in
      let q2 = unregister_manager-Rose a.manager a.path t1 in
      let q3 = ask-unexport path iface p u iwd_agent_iface t2 in rw (h, tear_down) (ground arith)

  pub unregister-registered :
      (a : CoreAgent) (u : String) (t : Trace)
      → a.registered ≡ true
      → a.unexport ≡ some u
      → ((unregister p a t).0.1.registered ≡ false)
        × (exports path iface (unregister p a t).1
              + unexports path iface t
              + one_if_same path iface u iwd_agent_iface
            ≡ exports path iface t + unexports path iface (unregister p a t).1)
        × (conn_closes (unregister p a t).1 ≡ conn_closes t)
  unfolding unregister
  unregister-registered a u t r h =
      let q = tear_down-unexports a u t h in
      (rw (r, unregister) refl, rw (r, unregister) q.0, rw (r, unregister) q.1)

-- An agent that is not registered: nothing is called and nothing changes.
pub unregister-unregistered :
    (p : Peer) (a : CoreAgent) (t : Trace)
    → a.registered ≡ false
    → unregister p a t ≡ ((none, a), t)
unfolding unregister
unregister-unregistered p a t r = rw (r, unregister) refl
