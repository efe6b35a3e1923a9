-- ===== src/Connect/SignalMonitor/Unexported.antt =====
-- What MonitorSignalLevel registers, and what it leaves exported.
use spiderw.Base.{
  true, not, ◌||◌, ◌≡◌, inl, inr, refl, ap, arith, none, some, String, List, ℤ, Bool-cases,
  Option-cases,
}
use text.Mathlib.TextLemmas.{append_cancel_left}
use spiderw.Base.Text.{is_blank, is_absolute}
use spiderw.Errors.{
  Error, wrap_invalid_state, wrap_invalid_argument, new_error, station_unavailable_policy,
  wrap_introspection,
}
use spiderw.Errors.Laws.Some.{wrap_unavailable-some, wrap_public_error-some}
use spiderw.Outside.{Peer, Trace, Returned, ask, introspect}
use spiderw.Outside.Balance.{Rose, ask-introspect, ask-close_object, Rose-after}
use spiderw.SignalAgent.{SignalLevelConfig, validate, levels}
use spiderw.SignalAgent.Thresholds.{levels-validate}
use spiderw.SignalAgent.Handle.{SignalLevelAgent}
use spiderw.Connect.{CoreObject, Wiring, new_raw, check_interface}
use spiderw.Connect.Constructors.{station_spec}
use spiderw.Connect.SignalMonitor.Registered.{Outcome, export-Outcome}
use spiderw.Connect.SignalMonitor.{
  signal_level_agent_object_path, on_station, new_agent, monitored, monitor_signal_level,
}

module _ (path iface : String) (p : Peer) (t : Trace) (c : SignalLevelConfig)
    (station_path : String) where
  new_raw-Rose : Rose path iface 0 t (new_raw p station_spec station_path t).1
  unfolding new_raw
  new_raw-Rose =
      checked_Rose (ask p (introspect station_path) t) (ask-introspect path iface p station_path t)
    where
      checked_Rose :
          (r : Error × Trace)
          → Rose path iface 0 t r.1
          → Rose path iface 0 t (check_interface p station_spec station_path r).1
      checked_Rose (some e, t') h = h
      checked_Rose (none, t') h =
          elim (Bool-cases (p.has_interface station_path station_spec.iface)) [
            | inl i ↦ rw (i) h
            | inr i ↦
                rw (i)
                  (Rose-after path iface 0 t t' _ h (ask-close_object path iface p station_path t'))
          ]

  checked_path :
      (r : Error × Trace) (raw : CoreObject)
      → (check_interface p station_spec station_path r).0.0 ≡ some raw
      → station_path ≡ raw.path
  checked_path (some e, t') raw h = absurd (ground (arith, h))
  checked_path (none, t') raw h =
      elim (Bool-cases (p.has_interface station_path station_spec.iface)) [
        | inl i ↦ let q = rw (i) at h in ground (arith, q)
        | inr i ↦ absurd (let q = rw (i) at h in ground (arith, q))
      ]

  new_raw-path :
      (raw : CoreObject)
      → (new_raw p station_spec station_path t).0.0 ≡ some raw
      → station_path ≡ raw.path
  unfolding new_raw
  new_raw-path raw h = checked_path (ask p (introspect station_path) t) raw h

  on_station-Outcome :
      (r : Returned CoreObject × Trace)
      → Rose path iface 0 t r.1
      → ((raw : CoreObject) → r.0.0 ≡ some raw → station_path ≡ raw.path)
      → Outcome path iface station_path
          (levels c)
          (signal_level_agent_object_path station_path)
          t
          (on_station p true station_path c r)
  unfolding wrap_introspection
  on_station-Outcome ((o, some e), t') h k =
      inr (refl, wrap_unavailable-some station_unavailable_policy _ _ e, h)
  on_station-Outcome ((none, none), t') h k =
      inr (refl, wrap_unavailable-some station_unavailable_policy _ _ _, h)
  on_station-Outcome ((some raw, none), t') h k = rw (k raw refl) (
      export-Outcome path iface p t c (signal_level_agent_object_path raw.path)
        (record { path = raw.path; call = true }) t' h)

  new_agent-Outcome_lem :
      (w : Wiring)
      → w.signal_agent_factory ≡ none
      → Outcome path iface station_path
          (levels c)
          (signal_level_agent_object_path station_path)
          t
          (new_agent p (some w) station_path c t)
  unfolding new_agent wrap_invalid_state wrap_invalid_argument new_error
  new_agent-Outcome_lem w f = elim (Bool-cases w.conn) [
    | inr k ↦ rw (f, k, new_agent) (inr (refl, refl, ground arith))
    | inl k ↦ elim (Bool-cases (is_blank station_path || not (is_absolute station_path))) [
      | inl b ↦ rw (f, k, b, new_agent) (inr (refl, refl, ground arith))
      | inr b ↦ rw (f, k, b, new_agent) (on_station-Outcome _ new_raw-Rose new_raw-path)
    ]
  ]

monitored-Outcome :
    (path iface station_path : String) (ls : List ℤ) (agent_path : String) (t : Trace)
    (r : Returned SignalLevelAgent × Trace)
    → Outcome path iface station_path ls agent_path t r
    → Outcome path iface station_path ls agent_path t (monitored r)
monitored-Outcome path iface station_path ls agent_path t ((o, some e), t') (inl x) =
    absurd (ground (arith, ap (λ (y : Returned SignalLevelAgent). y.1) x.1))
monitored-Outcome path iface station_path ls agent_path t ((o, some e), t') (inr (q, n, h)) =
    inr (refl, wrap_public_error-some "Station.MonitorSignalLevel" e, h)
monitored-Outcome path iface station_path ls agent_path t ((none, none), t') (inl x) =
    absurd (ground (arith, ap (λ (y : Returned SignalLevelAgent). y.0) x.1))
monitored-Outcome path iface station_path ls agent_path t ((none, none), t') (inr (q, n, h)) =
    absurd (ground (arith, n))
monitored-Outcome path iface station_path ls agent_path t ((some a, none), t') h = h

-- Without a factory `MonitorSignalLevel` returns either an agent whose levels are the thresholds of
-- the configuration and that is bound to the object at the path of its station below the prefix, after a
-- call of `RegisterSignalLevelAgent` of that station for that path and those levels that was answered
-- with no error, and the exports less the unexports of that object, by path and interface, rose by one
-- and those of every other object did not change; or nil with an error, and they changed for no object.
-- It never closes the connection.
pub monitor_signal_level-Outcome :
    (path iface : String) (p : Peer) (w : Wiring) (station_path : String) (c : SignalLevelConfig)
    (t : Trace)
    → w.signal_agent_factory ≡ none
    → Outcome path iface station_path c.thresholds
        (signal_level_agent_object_path station_path)
        t
        (monitor_signal_level p w station_path c t)
unfolding monitor_signal_level
monitor_signal_level-Outcome path iface p w station_path c t f =
    elim (Option-cases (validate "Station.MonitorSignalLevel" c)) [
      | inr (e, v) ↦
          rw (v, monitor_signal_level)
            (inr (refl, wrap_public_error-some "Station.MonitorSignalLevel" e, ground arith))
      | inl v ↦
          let same = levels-validate "Station.MonitorSignalLevel" c v in
          let made = new_agent-Outcome_lem path iface p t c station_path w f in
          rw (v, monitor_signal_level)
            (monitored-Outcome path iface station_path c.thresholds _ t _ (rw (same) at made))
    ]

-- Signal-level agents of different stations are exported at different paths.
pub signal_level_agent_object_path-injective :
    (s t : String) → signal_level_agent_object_path s ≡ signal_level_agent_object_path t → s ≡ t
unfolding signal_level_agent_object_path
signal_level_agent_object_path-injective s t h = append_cancel_left "/spiderw/signalagent" s t h
