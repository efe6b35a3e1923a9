-- ===== src/Client/Invariant.antt =====
-- What holds between the operations of a client: its agent field points to the one agent that is
-- registered, and the objects that are exported are the ones of registered agents.
use spiderw.Base.{
  ℕ, ◌+◌, Bool, true, false, ◌&&◌, ◌≡◌, refl, sym, arith, Option, String, none, some, Bool-cases,
  inl, inr, ◌==◌, ==_iff, if◌then◌else◌,
}
use spiderw.Outside.{Peer, exports, unexports, conn_closes, one_if_same}
use spiderw.Agents.Teardown.{unregister-registered, unregister-unregistered}
use spiderw.Agents.{iwd_agent_iface}
use spiderw.Connect.{Wiring}
use spiderw.Connect.Credentials.{agent_object_path}
use spiderw.Client.{World, Client, Agent, unregister, points_to, put, clear}

-- How often the object at a path with an interface is exported for the agent that the client holds.
abbrev pub slot_size : String → String → Option ℕ → ℕ
slot_size path iface none = 0
slot_size path iface (some i) = one_if_same path iface agent_object_path iwd_agent_iface

abbrev pub once_size : Bool → ℕ
once_size false = 0
once_size true = 1

pub record Inv (w : World) : Type 0 where
  pub no_factory : (v : Wiring) → w.client.wire ≡ some v → v.agent_factory ≡ none
  pub slot_registered :
      (i : ℕ) → points_to w.client.agent i ≡ true → (w.agents i).core.registered ≡ true
  pub registered_slot :
      (i : ℕ) → (w.agents i).core.registered ≡ true → points_to w.client.agent i ≡ true
  pub bound :
      (i : ℕ)
      → (w.agents i).core.registered ≡ true
      → ((w.agents i).core.unexport ≡ some agent_object_path) × ((w.agents i).cleared ≡ false)
  pub counted :
      (path iface : String)
      → exports path iface w.trace
        ≡ unexports path iface w.trace + slot_size path iface w.client.agent
  pub once : w.client.close_done ≡ w.client.closed
  pub emptied : w.client.closed ≡ true → w.client.agent ≡ none
  pub cleaned : w.cleanup_done ≡ (w.client.closed && w.client.cleanup)
  pub closings : conn_closes w.trace ≡ once_size w.cleanup_done

pub points_to-some : (o : Option ℕ) (i : ℕ) → points_to o i ≡ true → o ≡ some i
points_to-some none i h = ground arith
points_to-some (some j) i h = ground arith

-- Replacing agent `i` by one that has the same core.
registered-put :
    (a : Agent) (f : ℕ → Agent) (i j : ℕ) → a.core ≡ (f i).core → (put i a f j).core ≡ (f j).core
registered-put a f i j h = elim (Bool-cases (j == i)) [
  | inl e ↦ let q = (==_iff j i).0 e in rw (e) (rw (q) h)
  | inr e ↦ rw (e) refl
]

pub clear_idle :
    (i : ℕ) (c : Client) (b : Bool) → points_to c.agent i ≡ false → (if b then c else clear i c) ≡ c
clear_idle i c true h = refl
clear_idle i c false h = rw (h) refl

pub unregister_idle :
    (p : Peer) (i : ℕ) (w : World)
    → Inv w
    → (w.agents i).core.registered ≡ false
    → Inv (unregister p i w).1
unfolding unregister
unregister_idle p i w h r =
    let q = unregister-unregistered p (w.agents i).core w.trace r in
    let idle : points_to w.client.agent i ≡ false = ground (arith, h.slot_registered i) in
    let same = clear_idle i w.client (w.agents i).cleared idle in
    let core : (j : ℕ)
        → (put i (record { core = (w.agents i).core; cleared = true }) w.agents j).core
          ≡ (w.agents j).core =
      λ j. registered-put (record { core = (w.agents i).core; cleared = true }) w.agents i j refl in
    rw (unregister, q, same)
      (record {
        no_factory = h.no_factory;
        slot_registered = λ j e. rw (core j) (h.slot_registered j e);
        registered_slot = λ j e. h.registered_slot j (rw (core j) at e);
        bound = λ j e. elim (Bool-cases (j == i)) [
          | inl x ↦
              let o = (==_iff j i).0 x in
              let live : (w.agents i).core.registered ≡ true = rw (sym o) (rw (core j) at e) in
              ground arith
          | inr x ↦ rw (x) (h.bound j (rw (core j) at e))
        ];
        counted = h.counted;
        once = h.once;
        emptied = h.emptied;
        cleaned = h.cleaned;
        closings = h.closings;
      })

-- The invariant of a state in which no agent is registered.
pub nobody_Inv :
    (w : World)
    → ((v : Wiring) → w.client.wire ≡ some v → v.agent_factory ≡ none)
    → w.client.agent ≡ none
    → ((j : ℕ) → (w.agents j).core.registered ≡ false)
    → ((path iface : String) → exports path iface w.trace ≡ unexports path iface w.trace)
    → w.client.close_done ≡ w.client.closed
    → w.cleanup_done ≡ (w.client.closed && w.client.cleanup)
    → conn_closes w.trace ≡ once_size w.cleanup_done
    → Inv w
nobody_Inv w f n r r' o d k = record {
  no_factory = f;
  slot_registered = λ j e. absurd (ground (arith, rw (n) at e));
  registered_slot = λ j e. absurd (ground (arith, r j));
  bound = λ j e. absurd (ground (arith, r j));
  counted = λ path iface. rw (n) (omega (arith, r' path iface));
  once = o;
  emptied = λ e. n;
  cleaned = d;
  closings = k;
}

-- What `Unregister` does to a registered agent, whatever the client's field `agent` is.
pub unregister_live :
    (p : Peer) (i : ℕ) (w : World)
    → (w.agents i).core.registered ≡ true
    → (w.agents i).core.unexport ≡ some agent_object_path
    → ((j : ℕ) → (w.agents j).core.registered ≡ true → j ≡ i)
    → ((j : ℕ) → ((unregister p i w).1.agents j).core.registered ≡ false)
      × ((path iface : String)
          → exports path iface (unregister p i w).1.trace
              + unexports path iface w.trace
              + one_if_same path iface agent_object_path iwd_agent_iface
            ≡ exports path iface w.trace + unexports path iface (unregister p i w).1.trace)
      × (conn_closes (unregister p i w).1.trace ≡ conn_closes w.trace)
unfolding unregister
unregister_live p i w r u only = (
  λ j. elim (Bool-cases (j == i)) [
    | inl x ↦
        rw (x) ((unregister-registered p "" "" (w.agents i).core agent_object_path w.trace r u).0)
    | inr x ↦ rw (x) (ground (arith, only j, ==_iff j i))
  ],
  λ path iface.
      (unregister-registered p path iface (w.agents i).core agent_object_path w.trace r u).1,
  (unregister-registered p "" "" (w.agents i).core agent_object_path w.trace r u).2,
)

pub only_registered :
    (w : World) (i j : ℕ)
    → Inv w
    → (w.agents i).core.registered ≡ true
    → (w.agents j).core.registered ≡ true
    → j ≡ i
only_registered w i j h ri rj =
    let a = points_to-some w.client.agent i (h.registered_slot i ri) in
    let b = points_to-some w.client.agent j (h.registered_slot j rj) in cc

pub unregister_registered :
    (p : Peer) (i : ℕ) (w : World)
    → Inv w
    → (w.agents i).core.registered ≡ true
    → Inv (unregister p i w).1
unfolding unregister
unregister_registered p i w h r =
    let (r', e, c) = unregister_live p i w r (h.bound i r).0 (λ j. only_registered w i j h r) in
    let slot = h.registered_slot i r in
    let at_i = points_to-some w.client.agent i slot in
    let kept = (h.bound i r).1 in
    let size : (path iface : String)
        → slot_size path iface w.client.agent
          ≡ one_if_same path iface agent_object_path iwd_agent_iface =
      λ path iface. rw (at_i) refl in
    rw (kept, slot, unregister)
      (nobody_Inv _ h.no_factory refl r'
        (λ path iface. omega (arith, e path iface, size path iface, h.counted path iface)) h.once
        h.cleaned (ground arith))
