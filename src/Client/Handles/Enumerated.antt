-- ===== src/Client/Handles/Enumerated.antt =====
-- Making handles for all that the daemon enumerates: each opens its object, and one that cannot be
-- opened fails them all.
use spiderw.Base.{Bool, true, ◌&&◌, ◌≡◌, none, some, String, List, [], ◌∷◌, map, if◌then◌else◌}
use spiderw.Errors.Laws.Some.{is_nil}
use spiderw.Outside.{Peer, Trace, Returned, introspect}
use spiderw.Connect.{Spec, Wiring, CoreObject}
use spiderw.Connect.Objects.{opens}
use spiderw.Client.{Client}
use spiderw.Daemon.{Ref}
use spiderw.Client.Handles.{Handle, on_object, prepend, make_handles}

-- The handle for a reference: on the object of the kind at its path, with its name if the kind has one.
abbrev pub handle_at : Spec → Bool → Ref → Handle
handle_at s named ref = record {
  core = record { kind = s.kind; path = ref.path };
  path = ref.path;
  name = if named then ref.name else "";
}

-- Whether all the objects can be opened, one after the other from the trace `t`.
unfoldable pub all_open : Spec → Peer → Wiring → List Ref → Trace → Bool
all_open s p w [] t = true
all_open s p w (ref ∷ refs) t =
    opens s p w ref.path t && all_open s p w refs ((introspect ref.path, none) ∷ t)

-- The handles for the references, in their order, and no error; or nil and an error.
abbrev pub GivesAll : Bool → Spec → Bool → List Ref → Returned (List Handle) → Type 0
GivesAll b s named refs r =
    (r.0 ≡ (if b then some (map (handle_at s named) refs) else none)) × (is_nil r.1 ≡ b)

module _ (op : String) (s : Spec) (named : Bool) (p : Peer) (w : Wiring) where
  -- The body of the loop for a reference, on the answer of the constructor.
  abbrev made : Ref → List Ref → Returned CoreObject × Trace → Returned (List Handle) × Trace
  made ref refs x =
      let r = on_object op ref.path (if named then ref.name else "") x in
      elim r.0.0 [
        | none ↦ ((none, r.0.1), r.1)
        | some h ↦ prepend h (make_handles op s named p (some w) refs r.1)
      ]
