-- ===== src/Client/Closing.antt =====
-- `Close` keeps the invariant, unregisters the live agent and closes the connection once.
use spiderw.Base.{
  ℕ, ◌+◌, Bool, true, false, not, ◌≡◌, refl, arith, Option, String, none, some, if◌then◌else◌,
}
use spiderw.Outside.{Peer, ask, exports, unexports, conn_closes, one_if_same}
use spiderw.Agents.{iwd_agent_iface}
use spiderw.Connect.Credentials.{agent_object_path}
use spiderw.Connect.{Wiring}
use spiderw.Client.{
  World, unregister, close, close_once, cleanup, points_to, mark_closed, with_error, keep_error,
}
use spiderw.Client as Client
use spiderw.Client.Invariant.{Inv, nobody_Inv, unregister_live, only_registered, slot_size}

-- A state in `Close` before the cleanup.
record Emptied (u : World) : Type 0 where
  pub no_factory : (v : Wiring) → u.client.wire ≡ some v → v.agent_factory ≡ none
  pub slot : u.client.agent ≡ none
  pub nobody : (j : ℕ) → (u.agents j).core.registered ≡ false
  pub balanced : (path iface : String) → exports path iface u.trace ≡ unexports path iface u.trace
  pub done : u.client.close_done ≡ true
  pub closed : u.client.closed ≡ true
  pub uncleaned : u.cleanup_done ≡ false
  pub unclosed : conn_closes u.trace ≡ 0

-- The cleanup, when the client has one.
cleanup_Inv :
    (p : Peer) (u : World) (b : Bool)
    → u.client.cleanup ≡ b
    → Emptied u
    → Inv (if not b then u else keep_error (cleanup p u))
unfolding cleanup ask exports unexports conn_closes
cleanup_Inv p u false c h =
    nobody_Inv u h.no_factory h.slot h.nobody h.balanced (ground arith) (ground arith)
      (ground arith)
cleanup_Inv p u true c h =
    let n = h.uncleaned in
    rw (n, cleanup)
      (nobody_Inv _ h.no_factory h.slot h.nobody h.balanced (ground arith) (ground arith)
        (ground arith))

pub balance_none :
    (path iface : String) {n m : ℕ} {o : Option ℕ}
    → n ≡ m + slot_size path iface o
    → o ≡ none
    → n ≡ m
balance_none path iface {o} h e = let z : slot_size path iface o ≡ 0 = rw (e) refl in omega arith

mark_closed-Emptied :
    (w : World)
    → Inv w
    → w.client.close_done ≡ false
    → w.client.agent ≡ none
    → Emptied (mark_closed w)
mark_closed-Emptied w h d n = record {
  no_factory = h.no_factory;
  slot = refl;
  nobody = λ j. ground (arith, h.registered_slot j);
  balanced = λ path iface. balance_none path iface (h.counted path iface) n;
  done = refl;
  closed = refl;
  uncleaned = ground arith;
  unclosed = ground arith;
}

unregister-Emptied :
    (p : Peer) (w : World) (i : ℕ)
    → Inv w
    → w.client.close_done ≡ false
    → w.client.agent ≡ some i
    → Emptied (unregister p i (mark_closed w)).1
unfolding unregister
unregister-Emptied p w i h d a =
    let slot : points_to w.client.agent i ≡ true = rw (a) (ground arith) in
    let r = h.slot_registered i slot in
    let (r', e, c) =
      unregister_live p i (mark_closed w) r (h.bound i r).0 (λ j. only_registered w i j h r) in
    let kept = (h.bound i r).1 in
    let size : (path iface : String)
        → slot_size path iface w.client.agent
          ≡ one_if_same path iface agent_object_path iwd_agent_iface =
      λ path iface. rw (a) refl in
    rw (unregister, kept)
      (record {
        no_factory = h.no_factory;
        slot = refl;
        nobody = r';
        balanced = λ path iface. omega (arith, e path iface, size path iface, h.counted path iface);
        done = refl;
        closed = refl;
        uncleaned = ground arith;
        unclosed = ground arith;
      })

unregister_live-Emptied :
    (p : Peer) (w : World) (o : Option ℕ)
    → Inv w
    → w.client.close_done ≡ false
    → w.client.agent ≡ o
    → Emptied (Client.unregister_live p o (mark_closed w))
unregister_live-Emptied p w none h d a = mark_closed-Emptied w h d a
unregister_live-Emptied p w (some i) h d a = unregister-Emptied p w i h d a

unregister_live-cleanup :
    (p : Peer) (w : World) (o : Option ℕ)
    → (Client.unregister_live p o w).client.cleanup ≡ w.client.cleanup
unfolding unregister
unregister_live-cleanup p w none = refl
unregister_live-cleanup p w (some i) = ground arith

close_once-Inv : (p : Peer) (w : World) → Inv w → w.client.close_done ≡ false → Inv (close_once p w)
unfolding close_once
close_once-Inv p w h d =
    let u = Client.unregister_live p w.client.agent (mark_closed w) in
    let e = unregister_live-Emptied p w w.client.agent h d refl in
    cleanup_Inv p u w.client.cleanup (unregister_live-cleanup p (mark_closed w) w.client.agent) e

cleanup_closed :
    (p : Peer) (u : World) (b : Bool)
    → Emptied u
    → (if not b then u else keep_error (cleanup p u)).client.closed ≡ true
unfolding cleanup
cleanup_closed p u false h = h.closed
cleanup_closed p u true h = rw (h.uncleaned, cleanup) h.closed

close_once_closed :
    (p : Peer) (w : World)
    → Inv w
    → w.client.close_done ≡ false
    → (close_once p w).client.closed ≡ true
unfolding close_once
close_once_closed p w h d =
    let u = Client.unregister_live p w.client.agent (mark_closed w) in
    cleanup_closed p u w.client.cleanup (unregister_live-Emptied p w w.client.agent h d refl)

pub close_closed : (p : Peer) (w : World) → Inv w → (close p w).1.client.closed ≡ true
unfolding close
close_closed p w h = close_cases w.client.close_done refl
  where
    close_cases :
        (b : Bool)
        → w.client.close_done ≡ b
        → (if b then with_error w else with_error (close_once p w)).1.client.closed ≡ true
    close_cases true d = ground (arith, h.once)
    close_cases false d = close_once_closed p w h d

pub close-Inv : (p : Peer) (w : World) → Inv w → Inv (close p w).1
unfolding close
close-Inv p w h = close_cases w.client.close_done refl
  where
    close_cases :
        (b : Bool)
        → w.client.close_done ≡ b
        → Inv (if b then with_error w else with_error (close_once p w)).1
    close_cases true d = h
    close_cases false d = close_once-Inv p w h d
