-- ===== src/Client/Opening/Owned.antt =====
-- Who owns the connection that NewClient makes.
use spiderw.Base.{
  Bool, true, false, not, ◌≡◌, ◌⊎◌, inl, inr, refl, ap, sym, ◌∙◌, arith, Option, none, some, String,
  Option-cases, ◌∷◌, [],
}
use spiderw.Errors.{Err, Error, daemon_unavailable_policy, join}
use spiderw.Errors.Laws.Some.{is_nil, wrap_unavailable-some, wrap_public_error-some}
use spiderw.Outside.{Peer, Trace, Returned, ask, exports, unexports, conn_closes, connects}
use spiderw.Outside.{connect, introspect, close_conn}
use spiderw.Connect.{CoreObject, Wiring, new_core}
use spiderw.Connect.Opening.{
  Opened, new_conn, new_daemon, check_daemon, give_up, on_daemon, on_connected, unavailable,
}
use spiderw.Agents.{iwd_daemon_path, new_core_agent}
use spiderw.Client.{World}
use spiderw.Client.Invariant.{Inv, nobody_Inv}
use spiderw.Client.Opening.{
  new_client, new_world, new_world_client, validate_client_wiring, on_wiring, on_validated,
}

-- A trace of a connection that is open.
record IsOpen (t : Trace) : Type 0 where
  pub connected : connects t ≡ 1
  pub unclosed : conn_closes t ≡ 0
  pub unexported : (path iface : String) → exports path iface t ≡ unexports path iface t

-- What `newConn` may leave: a wiring with everything set on an open connection, or an error and no
-- connection open.
abbrev Left : Opened → Type 0
Left o =
    ((w : Wiring) × (o.wire ≡ some w)
      × (o.err ≡ none)
      × (o.cleanup_done ≡ false)
      × IsOpen o.trace
      × (w.agent_factory ≡ none)
      × (w.conn ≡ true)
      × (w.daemon ≡ true)
      × (w.cleanup ≡ true))
    ⊎ ((is_nil o.err ≡ false) × (connects o.trace ≡ conn_closes o.trace))

give_up-Left :
    (p : Peer) (failure : Error) (f : Error → Error) (t : Trace)
    → IsOpen t
    → is_nil failure ≡ false
    → ((e : Err) → is_nil (f (some e)) ≡ false)
    → Left (give_up failure f (ask p close_conn t))
unfolding ask connects conn_closes
give_up-Left p failure f t h n k = answered (p.answer t close_conn)
  where
    answered : (e : Error) → Left (give_up failure f (e, (close_conn, e) ∷ t))
    answered none = inr (n, ground arith)
    answered (some e) = inr (k e, ground arith)

join_nonnil : (e : Err) (d : Error) → is_nil (join (some e) d) ≡ false
unfolding join
join_nonnil e none = refl
join_nonnil e (some d) = refl

module _ (p : Peer) where
  on_daemon-Left : (r : Returned CoreObject × Trace) → IsOpen r.1 → Left (on_daemon p r)
  unfolding new_core
  on_daemon-Left ((o, some e), t) h =
      give_up-Left p _ (λ d. join (some e) (unavailable "failed iwd daemon cleanup" d)) t h
        (wrap_unavailable-some daemon_unavailable_policy _ _ e)
        (λ e'. join_nonnil e (unavailable "failed iwd daemon cleanup" (some e')))
  on_daemon-Left ((none, none), t) h =
      give_up-Left p _ (λ d. join d (unavailable "failed iwd daemon cleanup" d)) t h
        (wrap_unavailable-some daemon_unavailable_policy _ _ _)
        (λ e. join_nonnil e (unavailable "failed iwd daemon cleanup" (some e)))
  on_daemon-Left ((some raw, none), t) h = inl (_, refl, refl, refl, h, refl, refl, refl, refl)

  check_daemon-IsOpen : (r : Error × Trace) → IsOpen r.1 → IsOpen (check_daemon p r).1
  unfolding ask connects conn_closes exports unexports
  check_daemon-IsOpen (some e, t) h = h
  check_daemon-IsOpen (none, t) h = ground arith

  new_daemon-IsOpen : (t : Trace) → IsOpen t → IsOpen (new_daemon p t).1
  unfolding new_daemon ask connects conn_closes exports unexports
  new_daemon-IsOpen t h = check_daemon-IsOpen (ask p (introspect iwd_daemon_path) t) (ground arith)

  new_conn-Left : (system : Bool) → Left (new_conn p system [])
  unfolding new_conn ask connects conn_closes exports unexports
  new_conn-Left system = answered (p.answer [] (connect system))
    where
      answered : (e : Error) → Left (on_connected p (e, (connect system, e) ∷ []))
      answered (some e) = inr (wrap_unavailable-some daemon_unavailable_policy _ _ e, refl)
      answered none = on_daemon-Left _ (new_daemon-IsOpen _ (ground arith))

validate_set :
    (op : String) (w : Wiring)
    → w.conn ≡ true
    → w.daemon ≡ true
    → w.cleanup ≡ true
    → validate_client_wiring op (some w) ≡ none
unfolding validate_client_wiring
validate_set op w c d k = ground arith

new_client_fields :
    (x : Option Wiring)
    → ((new_world_client x).wire ≡ x)
      × ((new_world_client x).agent ≡ none)
      × ((new_world_client x).closed ≡ false)
      × ((new_world_client x).close_done ≡ false)
new_client_fields none = (refl, refl, refl, refl)
new_client_fields (some w) = (refl, refl, refl, refl)

new_world-Inv :
    (o : Opened) (w : Wiring)
    → o.wire ≡ some w
    → o.cleanup_done ≡ false
    → IsOpen o.trace
    → w.agent_factory ≡ none
    → Inv (new_world o)
unfolding new_core_agent
new_world-Inv o w e d' h f =
    let (v, a, c, d) = new_client_fields o.wire in
    nobody_Inv (new_world o) (λ x q. some_factory x ((sym q ∙ v) ∙ e)) a (λ j. refl) h.unexported
      (d ∙ sym c) (d' ∙ sym (rw (c) refl)) (rw (d') h.unclosed)
  where
    some_factory : (x : Wiring) → some x ≡ some w → x.agent_factory ≡ none
    some_factory x q = let same_wiring : x ≡ w = ground arith in rw (same_wiring) f

-- `NewClient` returns either a client in a state that satisfies the invariant, on the one connection
-- that it made and that is open, or an error, and then every connection that it made is closed.
pub new_client_owns :
    (p : Peer) (session : Bool)
    → ((w : World) × ((new_client p session []).0 ≡ (some w, none))
        × Inv w
        × (w.client.closed ≡ false)
        × (connects w.trace ≡ 1)
        × (conn_closes w.trace ≡ 0))
      ⊎ (((new_client p session []).0.0 ≡ none)
          × (is_nil (new_client p session []).0.1 ≡ false)
          × (connects (new_client p session []).1 ≡ conn_closes (new_client p session []).1))
unfolding new_client
new_client_owns p session =
    wired_client (new_conn p (not session) []) (new_conn-Left p (not session))
  where
    wired_client :
        (o : Opened)
        → Left o
        → ((w : World) × ((on_wiring o.err o).0 ≡ (some w, none))
            × Inv w
            × (w.client.closed ≡ false)
            × (connects w.trace ≡ 1)
            × (conn_closes w.trace ≡ 0))
          ⊎ (((on_wiring o.err o).0.0 ≡ none)
              × (is_nil (on_wiring o.err o).0.1 ≡ false)
              × (connects (on_wiring o.err o).1 ≡ conn_closes (on_wiring o.err o).1))
    wired_client o (inl (w, ow, oe, od, h, f, wc, wd, wk)) =
        let v = validate_set "NewClient" w wc wd wk in
        let ok : validate_client_wiring "NewClient" o.wire ≡ none = rw (ow) v in
        inl (
          new_world o,
          ap (λ e. (on_wiring e o).0) oe ∙ ap (λ e. (on_validated e o).0) ok,
          new_world-Inv o w ow od h f,
          (new_client_fields o.wire).2,
          h.connected,
          h.unclosed,
        )
    wired_client o (inr (n, k)) = elim (Option-cases o.err) [
      | inl e ↦ absurd (ground (arith, ap is_nil e))
      | inr (e, q) ↦
          let w = ap (λ x. on_wiring x o) q in
          inr (rw (w) refl, rw (w) (wrap_public_error-some "NewClient" e), rw (w) k)
    ]
