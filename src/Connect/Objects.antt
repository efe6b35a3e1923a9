-- ===== src/Connect/Objects.antt =====
-- When the eight constructors of internal/connect/wiring.go give an object, and how they fail.
use spiderw.Base.{
  Bool, true, false, ◌&&◌, ◌≡◌, inl, inr, refl, ap, ◌∙◌, arith, none, some, String, ◌<>◌, ◌∷◌,
  if◌then◌else◌, Bool-cases, Option-cases,
}
use spiderw.Base.Text.{is_blank, is_absolute}
use spiderw.Errors.{
  Err, Error, wrap_invalid_argument, wrap_invalid_state, new_error, wrap_introspection,
}
use spiderw.Errors.Laws.Some.{is_nil, wrap_unavailable-some}
use spiderw.Failure.{Kind, public}
use spiderw.Errors.{
  as_public, wrap_public_error, plain, bus_error, BusFailure, UnavailablePolicy,
  is_unavailable_dbus_error, is, bus,
}
use spiderw.Errors.Laws.Sentinels.{same_refl}
use spiderw.Errors.Laws.Publish.{class_of, class_of-publish, bus_kind}
use spiderw.Outside.{Peer, Trace, Returned, ask, introspect}
use spiderw.Connect.{
  Spec, Wiring, CoreObject, new_object, construct, new_raw, new_core, check_interface, wrap_raw,
  on_raw,
}

-- Whether `path` can be opened: an absolute path, a connection, an object that can be introspected
-- and that has the interface.
abbrev pub opens : Spec → Peer → Wiring → String → Trace → Bool
opens s p w path t =
    is_absolute path
    && w.conn
    && is_nil (p.answer t (introspect path))
    && p.has_interface path s.iface

-- The object for `path` and no error, or nil and an error.
abbrev pub Gives : Bool → Spec → String → Returned CoreObject → Type 0
Gives b s path r =
    (r.0 ≡ (if b then some (record { kind = s.kind; path = path }) else none)) × (is_nil r.1 ≡ b)

absolute_not_blank : (path : String) → is_absolute path ≡ true → is_blank path ≡ false
absolute_not_blank String.[] h = ground arith
absolute_not_blank (String.◌∷◌ c s) h = refl

module _ (s : Spec) (p : Peer) (path : String) where
  checked :
      (e : Error) (b : Bool) (t : Trace)
      → p.has_interface path s.iface ≡ b
      → Gives (is_nil e && b) s path (wrap_raw s path (check_interface p s path (e, t)).0)
  unfolding new_core wrap_introspection
  checked (some e) b t h = (refl, wrap_unavailable-some s.policy s.op _ _)
  checked none true t h = rw (h) (refl, refl)
  checked none false t h = rw (h) (refl, wrap_unavailable-some s.policy s.op _ _)

  constructed :
      (w : Wiring) (t : Trace) (b : Bool)
      → w.object_factory s.kind ≡ none
      → w.conn ≡ b
      → Gives
          (b && is_nil (p.answer t (introspect path)) && p.has_interface path s.iface)
          s
          path
          (construct p s w path t).0
  unfolding construct new_raw ask wrap_invalid_state new_error
  constructed w t true f c = rw (f, c, construct) (checked (p.answer t (introspect path)) _ _ refl)
  constructed w t false f c = rw (f, c, construct) (refl, refl)

-- Without a factory, a constructor returns the object of its kind at `path` with no error exactly
-- when the path is absolute, there is a connection, and the peer introspects an object there with
-- the interface; otherwise it returns nil with an error.
pub new_object-opens :
    (s : Spec) (p : Peer) (w : Wiring) (path : String) (t : Trace)
    → w.object_factory s.kind ≡ none
    → Gives (opens s p w path t) s path (new_object s p (some w) path t).0
unfolding new_object wrap_invalid_argument new_error
new_object-opens s p w path t f = elim (Bool-cases (is_absolute path)) [
  | inl a ↦
      let n = absolute_not_blank path a in
      rw (a, n, new_object) (constructed s p path w t w.conn f refl)
  | inr a ↦ elim (Bool-cases (is_blank path)) [
    | inl n ↦ rw (a, n, new_object) (refl, refl)
    | inr n ↦ rw (a, n, new_object) (refl, refl)
  ]
]

-- The kinds that `wrapUnavailable` chooses for a missing interface and for a failed introspection.
absent_kind :
    (policy : UnavailablePolicy) (d : String) → bus_kind policy (plain d) ≡ Kind.operation_failed
unfolding is_unavailable_dbus_error is
absent_kind policy d = elim (Bool-cases policy.include_dbus_property) [
  | inl b ↦ rw (b) refl
  | inr b ↦ rw (b) refl
]

introspection_kind :
    (policy : UnavailablePolicy) (d : String) (e : Err)
    → bus_kind policy (bus_error BusFailure.introspection d e) ≡ Kind.unavailable
unfolding is_unavailable_dbus_error is
introspection_kind policy d e = rw (same_refl (bus BusFailure.introspection)) (ground arith)

-- Without a factory, with a connection and an absolute path, and if no error that the peer answers
-- holds a public one: the public error for an object that cannot be opened has the policy's resource
-- and the constructor's details, and its kind is unavailable where the introspection fails and
-- internal where the object lacks the interface.
pub new_object_failure :
    (s : Spec) (p : Peer) (w : Wiring) (path op : String) (t : Trace)
    → w.object_factory s.kind ≡ none
    → w.conn ≡ true
    → is_absolute path ≡ true
    → opens s p w path t ≡ false
    → ((e : Err) → p.answer t (introspect path) ≡ some e → as_public e ≡ none)
    → class_of (wrap_public_error op (new_object s p (some w) path t).0.1)
      ≡ some (record {
        kind = if is_nil (p.answer t (introspect path)) then Kind.internal else Kind.unavailable;
        resource = s.policy.resource;
        details = s.noun <> " unavailable";
      })
unfolding new_object construct as_public public wrap_introspection
new_object_failure s p w path op t f c a o h =
    let n = absolute_not_blank path a in
    elim (Option-cases (p.answer t (introspect path))) [
      | inl q ↦
          let i : p.has_interface path s.iface ≡ false = rw (c, a, q) at o in
          rw (n, a, f, c, new_object, construct, new_raw, ask, q, i)
            (class_of-publish s.policy op s.op (s.noun <> " unavailable") _ refl
              ∙ rw (absent_kind s.policy _) refl)
      | inr (e, q) ↦
          rw (n, a, f, c, new_object, construct, new_raw, ask, q)
            (class_of-publish s.policy op s.op (s.noun <> " unavailable") _ (h e q)
              ∙ rw (introspection_kind s.policy ("path=" <> path) e) refl)
    ]

new_raw-opened :
    (s : Spec) (p : Peer) (path : String) (t : Trace)
    → is_nil (p.answer t (introspect path)) ≡ true
    → p.has_interface path s.iface ≡ true
    → new_raw p s path t
      ≡ ((some (record { kind = s.kind; path = path }), none), (introspect path, none) ∷ t)
unfolding new_raw ask
new_raw-opened s p path t e i = elim (Option-cases (p.answer t (introspect path))) [
  | inl q ↦ rw (q, new_raw) (rw (i) refl)
  | inr (x, q) ↦ absurd (let z = rw (q) at e in ground (arith, z))
]

-- Where the constructor opens the object, the introspection is all that it calls.
pub new_object-opened :
    (s : Spec) (p : Peer) (w : Wiring) (path : String) (t : Trace)
    → w.object_factory s.kind ≡ none
    → opens s p w path t ≡ true
    → new_object s p (some w) path t
      ≡ ((some (record { kind = s.kind; path = path }), none), (introspect path, none) ∷ t)
unfolding new_object construct new_core
new_object-opened s p w path t f o =
    let a : is_absolute path ≡ true = ground (arith, o) in
    let c : w.conn ≡ true = ground (arith, o) in
    let i : p.has_interface path s.iface ≡ true = ground (arith, o) in
    let e : is_nil (p.answer t (introspect path)) ≡ true = ground (arith, o) in
    let n = absolute_not_blank path a in
    let raw = new_raw-opened s p path t e i in
    let raised : new_object s p (some w) path t ≡ on_raw s path (new_raw p s path t) =
      rw (new_object, n, a, construct, f, c) refl in
    raised ∙ ap (on_raw s path) raw
