-- ===== src/Connect/SignalMonitor/Registered.antt =====
-- What follows the test of the station in `NewSignalLevelAgent`: exporting, then registering.
use spiderw.Base.{
  true, false, ◌≡◌, ◌⊎◌, inl, inr, refl, arith, none, some, String, List, ℤ, ◌∷◌, Bool-cases,
  Option-cases,
}
use spiderw.Errors.{Error, wrap_connection, wrap_iwd_method, station_unavailable_policy}
use spiderw.Errors.Laws.Some.{is_nil, wrap_unavailable-some}
use spiderw.Outside.{Peer, Trace, Returned, ask, export, method_at, one_if_same}
use spiderw.Outside.Balance.{Rose, rise, ask-export, ask-unexport, ask-method_at, Rose-after}
use spiderw.SignalAgent.{SignalLevelConfig, levels}
use spiderw.SignalAgent.Handle.{
  IwdStation, SignalLevelAgent, new_signal_level_agent, export_signal_level_agent,
  unexport_signal_level_agent, register_signal_level_agent, bind, iwd_station_iface,
  iwd_signal_level_agent_iface, exported,
}
use spiderw.Connect.SignalMonitor.{on_registered, on_exported}

-- The last call was `RegisterSignalLevelAgent` of a station for the agent's path and its levels, answered
-- with no error.
abbrev pub IsRegistering : String → List ℤ → String → Trace → Type 0
IsRegistering station_path ls agent_path t =
    (u : Trace) × (t
      ≡ (method_at station_path iwd_station_iface "RegisterSignalLevelAgent" agent_path ls, none)
        ∷ u)

-- A result of `MonitorSignalLevel` from the trace `t`, for the object at `path` with `iface`: an agent
-- with the levels `ls` that the station has registered and that is bound to its exported object, the
-- only one whose exports rose; or an error, and no object left exported.
abbrev pub Outcome :
    String → String → String → List ℤ → String → Trace → Returned SignalLevelAgent × Trace → Type 0
Outcome path iface station_path ls agent_path t r =
    ((a : SignalLevelAgent) × (r.0 ≡ (some a, none))
      × (a.levels ≡ ls)
      × (a.registered ≡ true)
      × (a.path ≡ agent_path)
      × (a.unexport ≡ some agent_path)
      × IsRegistering station_path ls agent_path r.1
      × Rose path iface (one_if_same path iface agent_path iwd_signal_level_agent_iface) t r.1)
    ⊎ ((r.0.0 ≡ none) × (is_nil r.0.1 ≡ false) × Rose path iface 0 t r.1)

module _ (path iface : String) (p : Peer) (t : Trace) (c : SignalLevelConfig)
    (agent_path : String) where
  abbrev agent : SignalLevelAgent
  agent = new_signal_level_agent c

  on_registered-Outcome :
      (s : IwdStation) (r : Error × Trace)
      → Rose path iface (one_if_same path iface agent_path iwd_signal_level_agent_iface) t r.1
      → (r.0 ≡ none → IsRegistering s.path (levels c) agent_path r.1)
      → Outcome path iface s.path
          (levels c)
          agent_path
          t
          (on_registered p s agent_path agent_path agent r)
  unfolding bind new_signal_level_agent unexport_signal_level_agent
  on_registered-Outcome s (some e, t') h k =
      let u = ask-unexport path iface p agent_path iwd_signal_level_agent_iface t' in
      inr (refl, wrap_unavailable-some station_unavailable_policy _ _ e, ground arith)
  on_registered-Outcome s (none, t') h k = inl (_, refl, refl, refl, refl, refl, k refl, h)

  register-IsRegistering :
      (s : IwdStation) (t' : Trace)
      → (register_signal_level_agent p s agent_path (levels c) t').0 ≡ none
      → IsRegistering s.path
          (levels c)
          agent_path
          (register_signal_level_agent p s agent_path (levels c) t').1
  unfolding register_signal_level_agent ask wrap_iwd_method wrap_connection
  register-IsRegistering s t' h = elim (Bool-cases s.call) [
    | inr i ↦ absurd (let q = rw (i, register_signal_level_agent) at h in ground (arith, q))
    | inl i ↦
        let answer =
          p.answer t'
            (method_at s.path iwd_station_iface "RegisterSignalLevelAgent" agent_path (levels c)) in
        elim (Option-cases answer) [
          | inl e ↦ rw (i, register_signal_level_agent, ask) (t', rw (e) refl)
          | inr (x, e) ↦
              absurd (let q = rw (i, register_signal_level_agent, ask, e) at h in ground (arith, q))
        ]
  ]

  register-Rose :
      (s : IwdStation) (ls : List ℤ) (t' : Trace)
      → Rose path iface (one_if_same path iface agent_path iwd_signal_level_agent_iface) t t'
      → Rose path iface
          (one_if_same path iface agent_path iwd_signal_level_agent_iface)
          t
          (register_signal_level_agent p s agent_path ls t').1
  unfolding register_signal_level_agent
  register-Rose s ls t' h =
      let q =
        ask-method_at path iface p s.path iwd_station_iface "RegisterSignalLevelAgent" agent_path ls
          t' in
      elim (Bool-cases s.call) [
        | inl i ↦ rw (i, register_signal_level_agent) (ground arith)
        | inr i ↦ rw (i, register_signal_level_agent) h
      ]

  on_exported-Outcome :
      (s : IwdStation) (r : Error × Trace)
      → Rose path iface
          (rise (one_if_same path iface agent_path iwd_signal_level_agent_iface) r.0)
          t
          r.1
      → Outcome path iface s.path
          (levels c)
          agent_path
          t
          (on_exported p s agent_path agent (exported agent_path r))
  unfolding wrap_connection new_signal_level_agent
  on_exported-Outcome s (some e, t') h =
      inr (refl, wrap_unavailable-some station_unavailable_policy _ _ _, h)
  on_exported-Outcome s (none, t') h =
      on_registered-Outcome s _ (register-Rose s agent.levels t' h) (register-IsRegistering s t')

  pub export-Outcome :
      (s : IwdStation) (t' : Trace)
      → Rose path iface 0 t t'
      → Outcome path iface s.path
          (levels c)
          agent_path
          t
          (on_exported p s agent_path agent (export_signal_level_agent p true agent_path t'))
  unfolding export_signal_level_agent wrap_connection
  export-Outcome s t' h =
      let q = ask-export path iface p agent_path iwd_signal_level_agent_iface t' in
      elim (Bool-cases (p.is_valid_path agent_path)) [
        | inl v ↦
            rw (v, export_signal_level_agent)
              (on_exported-Outcome s (ask p (export agent_path iwd_signal_level_agent_iface) t')
                (Rose-after path iface _ t t' _ h q))
        | inr v ↦
            rw (v, export_signal_level_agent)
              (inr (refl, wrap_unavailable-some station_unavailable_policy _ _ _, h))
      ]
