-- ===== src/Connect/Credentials/Unexported.antt =====
-- What NewAgent leaves exported.
use spiderw.Base.{
  true, false, ◌≡◌, ◌⊎◌, inl, inr, refl, arith, none, some, String, Bool-cases, Option-cases, ◌∷◌,
}
use spiderw.Errors.{
  Err, Error, wrap_connection, wrap_invalid_state, new_error, agent_unavailable_policy,
  wrap_iwd_method,
}
use spiderw.Errors.Laws.Some.{is_nil, wrap_unavailable-some}
use spiderw.Outside.{Peer, Trace, Returned, ask}
use spiderw.Outside.{introspect, export, method, one_if_same}
use spiderw.Outside.Balance.{
  Rose, rise, ask-introspect, ask-close_object, ask-method, ask-export, ask-unexport,
}
use spiderw.Agents.{
  AgentManager, CoreAgent, CredentialCallbacks, new_agent_manager, check_manager, register_agent,
  call_manager, export_agent, unexport_agent, bind, new_core_agent, iwd_daemon_path,
  iwd_agent_iface, iwd_agent_manager_iface, exported,
}
use spiderw.Connect.{Wiring, nil_conn}
use spiderw.Connect.Credentials.{
  new_agent, give_up, on_registered, on_manager, on_exported, agent_object_path,
}

-- The last call was `RegisterAgent` of the agent manager for the agent's path, answered with no error.
abbrev pub IsRegistering : Trace → Type 0
IsRegistering t =
    (u : Trace) × (t ≡ (method iwd_agent_manager_iface "RegisterAgent" agent_object_path, none) ∷ u)

-- A result of `NewAgent` from the trace `t`, for the object at `path` with `iface`: an agent that the
-- manager has registered and that is bound to its exported object, the only one whose exports rose; or
-- an error, and no object left exported.
abbrev pub Outcome : String → String → Trace → Returned CoreAgent × Trace → Type 0
Outcome path iface t r =
    ((a : CoreAgent) × (r.0 ≡ (some a, none))
      × (a.registered ≡ true)
      × (a.path ≡ agent_object_path)
      × (a.unexport ≡ some agent_object_path)
      × IsRegistering r.1
      × Rose path iface (one_if_same path iface agent_object_path iwd_agent_iface) t r.1)
    ⊎ ((r.0.0 ≡ none) × (is_nil r.0.1 ≡ false) × Rose path iface 0 t r.1)

module _ (p : Peer) (path iface : String) (t : Trace) where
  give_up-Outcome :
      (d : String) (e : Err) (t' : Trace)
      → Rose path iface (one_if_same path iface agent_object_path iwd_agent_iface) t t'
      → Outcome path iface t (give_up p agent_object_path d (some e) t')
  unfolding unexport_agent
  give_up-Outcome d e t' h =
      let u = ask-unexport path iface p agent_object_path iwd_agent_iface t' in
      inr (refl, wrap_unavailable-some agent_unavailable_policy "NewAgent" d e, ground arith)

  on_registered-Outcome :
      (m : AgentManager) (callbacks : CredentialCallbacks) (r : Error × Trace)
      → Rose path iface (one_if_same path iface agent_object_path iwd_agent_iface) t r.1
      → (r.0 ≡ none → IsRegistering r.1)
      → Outcome path iface t (on_registered p m agent_object_path callbacks r)
  unfolding bind new_core_agent
  on_registered-Outcome m callbacks (some e, t') h k = give_up-Outcome _ e t' h
  on_registered-Outcome m callbacks (none, t') h k = inl (_, refl, refl, refl, refl, k refl, h)

  register_agent-IsRegistering :
      (m : AgentManager) (t' : Trace)
      → (register_agent p m agent_object_path t').0 ≡ none
      → IsRegistering (register_agent p m agent_object_path t').1
  unfolding register_agent call_manager ask wrap_iwd_method wrap_connection
  register_agent-IsRegistering m t' h = elim (Bool-cases m.intro) [
    | inr i ↦ absurd (let q = rw (i, register_agent, call_manager) at h in ground (arith, q))
    | inl i ↦
        let answer =
          p.answer t' (method iwd_agent_manager_iface "RegisterAgent" agent_object_path) in
        elim (Option-cases answer) [
          | inl e ↦ rw (i, register_agent, call_manager, ask) (t', rw (e) refl)
          | inr (x, e) ↦
              absurd
                (let q = rw (i, register_agent, call_manager, ask, e) at h in ground (arith, q))
        ]
  ]

  register_agent-Rose :
      (m : AgentManager) (agent_path : String) (t' : Trace)
      → Rose path iface (one_if_same path iface agent_object_path iwd_agent_iface) t t'
      → Rose path iface
          (one_if_same path iface agent_object_path iwd_agent_iface)
          t
          (register_agent p m agent_path t').1
  unfolding register_agent call_manager
  register_agent-Rose m agent_path t' h =
      let q = ask-method path iface p iwd_agent_manager_iface "RegisterAgent" agent_path t' in
      elim (Bool-cases m.intro) [
        | inl i ↦ rw (i, register_agent, call_manager) (ground arith)
        | inr i ↦ rw (i, register_agent, call_manager) h
      ]

  on_manager-Outcome :
      (callbacks : CredentialCallbacks) (r : Returned AgentManager × Trace)
      → Rose path iface (one_if_same path iface agent_object_path iwd_agent_iface) t r.1
      → Outcome path iface t (on_manager p agent_object_path callbacks r)
  on_manager-Outcome callbacks ((o, some e), t') h = give_up-Outcome _ e t' h
  on_manager-Outcome callbacks ((none, none), t') h = give_up-Outcome _ _ t' h
  on_manager-Outcome callbacks ((some m, none), t') h =
      on_registered-Outcome m callbacks _ (register_agent-Rose m agent_object_path t' h)
        (register_agent-IsRegistering m t')

  check_manager-Rose :
      (r : Error × Trace)
      → Rose path iface (one_if_same path iface agent_object_path iwd_agent_iface) t r.1
      → Rose path iface
          (one_if_same path iface agent_object_path iwd_agent_iface)
          t
          (check_manager p r).1
  unfolding check_manager
  check_manager-Rose (some e, t') h = h
  check_manager-Rose (none, t') h =
      let q = ask-close_object path iface p iwd_daemon_path t' in
      elim (Bool-cases (p.has_interface iwd_daemon_path iwd_agent_manager_iface)) [
        | inl i ↦ rw (i, check_manager) h
        | inr i ↦ rw (i, check_manager) (ground arith)
      ]

  new_agent_manager-Rose :
      (t' : Trace)
      → Rose path iface (one_if_same path iface agent_object_path iwd_agent_iface) t t'
      → Rose path iface
          (one_if_same path iface agent_object_path iwd_agent_iface)
          t
          (new_agent_manager p t').1
  unfolding new_agent_manager
  new_agent_manager-Rose t' h =
      let q = ask-introspect path iface p iwd_daemon_path t' in
      check_manager-Rose (ask p (introspect iwd_daemon_path) t') (ground arith)

  on_exported-Outcome :
      (callbacks : CredentialCallbacks) (r : Error × Trace)
      → Rose path iface (rise (one_if_same path iface agent_object_path iwd_agent_iface) r.0) t r.1
      → Outcome path iface t (on_exported p callbacks (exported agent_object_path r))
  unfolding wrap_connection
  on_exported-Outcome callbacks (some e, t') h =
      inr (refl, wrap_unavailable-some agent_unavailable_policy "NewAgent" _ _, h)
  on_exported-Outcome callbacks (none, t') h =
      on_manager-Outcome callbacks _ (new_agent_manager-Rose t' h)

  export_agent-Outcome :
      (callbacks : CredentialCallbacks)
      → Outcome path iface t (on_exported p callbacks (export_agent p true agent_object_path t))
  unfolding export_agent wrap_connection
  export_agent-Outcome callbacks = elim (Bool-cases (p.is_valid_path agent_object_path)) [
    | inl v ↦
        rw (v, export_agent)
          (on_exported-Outcome callbacks (ask p (export agent_object_path iwd_agent_iface) t)
            (ask-export path iface p agent_object_path iwd_agent_iface t))
    | inr v ↦
        rw (v, export_agent)
          (inr (refl, wrap_unavailable-some agent_unavailable_policy "NewAgent" _ _, ground arith))
  ]

-- Without a factory `NewAgent` either returns an agent that is bound to the agent's object, after a call
-- of `RegisterAgent` of the agent manager for that object's path that was answered with no error, and the
-- exports less the unexports of that object, by path and interface, rose by one and those of every other
-- object did not change; or it returns nil with an error, and they changed for no object. It never closes
-- the connection.
pub new_agent-Outcome :
    (path iface : String) (p : Peer) (w : Wiring) (callbacks : CredentialCallbacks) (t : Trace)
    → w.agent_factory ≡ none
    → Outcome path iface t (new_agent p (some w) callbacks t)
unfolding new_agent wrap_invalid_state new_error
new_agent-Outcome path iface p w callbacks t h = elim (Bool-cases w.conn) [
  | inl c ↦ rw (h, c, new_agent) (export_agent-Outcome p path iface t callbacks)
  | inr c ↦ rw (h, c, new_agent) (inr (refl, nil_conn_some, ground arith))
]
  where
    nil_conn_some : is_nil (nil_conn "NewAgent") ≡ false
    nil_conn_some = refl
