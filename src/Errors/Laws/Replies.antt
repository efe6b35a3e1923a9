-- ===== src/Errors/Laws/Replies.antt =====
-- An iwd reply on its way up: `IntrospectedObject.Call`, `wrapIwdMethod` or `wrapIwdProperty`, the
-- core layer's `wrapUnavailable`, and `wrapPublicError`.
use mathlib.Core.Option.{or_else}
use mathlib.Core.Bool.{decide}
use spiderw.Base.{true, false, Option, none, some, String, ◌≡◌, ◌↔◌, refl, arith}
use spiderw.Base.{if◌then◌else◌, Option-cases, inl, inr}
use spiderw.Failure.{Kind, public}
use spiderw.Errors.Tree.{same, IwdOutcome, BusFailure, Err, Error, is}
use spiderw.Errors.Tree.{iwd, bus, dbus_error, as_public}
use spiderw.Errors.Tree.{as_dbus, annotated, bus_error, sentinel}
use spiderw.Errors.Bus.{iwd_error_name, iwd_error_sentinels, table_lookup, iwd_error_sentinel}
use spiderw.Errors.Bus.{wrap_method, wrap_property, wrap_iwd_method, wrap_iwd_property}
use spiderw.Errors.Bus.{method_context, property_context}
use spiderw.Errors.Wrap.{UnavailablePolicy, is_unavailable_dbus_error}
use spiderw.Errors.Laws.Sentinels.{same_refl, table_lookup_iff}
use spiderw.Errors.Laws.Publish.{
  matches, class_of, iwd_ne_bus, same_iwd, bus_kind, publish, is-publish, class_of-publish,
}

-- A reply with the error name `n`, as a failed method call or property access of the D-Bus layer
-- returns it.
abbrev pub failed_method : String → String → String → Error
failed_method iface name n =
    wrap_iwd_method iface name (wrap_method iface name (some (dbus_error n)))

abbrev pub failed_property : String → String → String → Error
failed_property iface name n = wrap_iwd_property iface name (some (dbus_error n))

-- The error that `wrapIwdMethod` and `wrapIwdProperty` make of a reply, by what the table holds.
abbrev with_outcome : BusFailure → String → Err → Option IwdOutcome → Err
with_outcome k context e none = bus_error k context e
with_outcome k context e (some o) = bus_error k context (annotated (sentinel (iwd o)) e)

abbrev outcome : String → Option IwdOutcome
outcome n = table_lookup n iwd_error_sentinels

failed_method_lem :
    (iface name n : String)
    → failed_method iface name n
      ≡ some (
          with_outcome BusFailure.method
            (method_context iface name)
            (bus_error BusFailure.method (method_context iface name) (dbus_error n))
            (outcome n))
unfolding wrap_iwd_method iwd_error_sentinel wrap_method as_dbus
failed_method_lem iface name n = elim (Option-cases (outcome n)) [
  | inl h ↦ ground arith
  | inr (o, h) ↦ ground arith
]

failed_property_lem :
    (iface name n : String)
    → failed_property iface name n
      ≡ some (
          with_outcome BusFailure.property (property_context iface name) (dbus_error n) (outcome n))
unfolding wrap_iwd_property iwd_error_sentinel wrap_property as_dbus
failed_property_lem iface name n = elim (Option-cases (outcome n)) [
  | inl h ↦ ground arith
  | inr (o, h) ↦ ground arith
]

-- An error that the D-Bus library returned, with at most the context of a failed call around it.
abbrev IsReply : Err → Type 0
IsReply e = ((p : IwdOutcome) → is (iwd p) e ≡ false) × (as_public e ≡ none)

is-with_outcome :
    (k : BusFailure) (context : String) (e : Err) (n : String) (p : IwdOutcome)
    → IsReply e
    → (is (iwd p) (with_outcome k context e (outcome n)) ≡ true) ↔ (n ≡ iwd_error_name p)
unfolding is
is-with_outcome k context e n p h = elim (Option-cases (outcome n)) [
  | inl q ↦ ground (arith, iwd_ne_bus p k, h.0 p, table_lookup_iff n p)
  | inr (o, q) ↦
      ground
        (arith, iwd_ne_bus p k, h.0 p, same_iwd p o, table_lookup_iff n p, table_lookup_iff n o)
]

as_public-with_outcome :
    (k : BusFailure) (context : String) (e : Err) (o : Option IwdOutcome)
    → as_public e ≡ none
    → as_public (with_outcome k context e o) ≡ none
unfolding as_public or_else
as_public-with_outcome k context e none h = h
as_public-with_outcome k context e (some o) h = h

dbus_error-IsReply : (n : String) → IsReply (dbus_error n)
unfolding is as_public
dbus_error-IsReply n = (λ p. refl, refl)

bus_error-IsReply :
    (k : BusFailure) (context : String) (e : Err) → IsReply e → IsReply (bus_error k context e)
unfolding is as_public
bus_error-IsReply k context e h = (λ p. rw (iwd_ne_bus p k) (h.0 p), h.1)

-- The kind of a failed call is `unavailable` under every policy.
bus_kind-method :
    (policy : UnavailablePolicy) (context : String) (e : Err) (o : Option IwdOutcome)
    → bus_kind policy (with_outcome BusFailure.method context e o) ≡ Kind.unavailable
unfolding is_unavailable_dbus_error is
bus_kind-method policy context e none = rw (same_refl (bus BusFailure.method)) (ground arith)
bus_kind-method policy context e (some o) = rw (same_refl (bus BusFailure.method)) (ground arith)

-- The kind of a failed property access depends on the policy.
abbrev property_kind : UnavailablePolicy → Kind
property_kind policy =
    if policy.include_dbus_property then Kind.unavailable else Kind.operation_failed

bus_kind-property :
    (policy : UnavailablePolicy) (context n : String) (o : Option IwdOutcome)
    → bus_kind policy (with_outcome BusFailure.property context (dbus_error n) o)
      ≡ property_kind policy
unfolding is_unavailable_dbus_error is same decide
bus_kind-property policy context n none = ground arith
bus_kind-property policy context n (some o) = ground arith

module _ (policy : UnavailablePolicy) (op core_op details iface name n : String) where
  abbrev pub method_error : Error
  method_error = publish policy op core_op details (failed_method iface name n)

  abbrev pub property_error : Error
  property_error = publish policy op core_op details (failed_property iface name n)

  -- What a caller finds in `method_error` and in `property_error`.
  abbrev pub MethodPublished : Type 0
  MethodPublished =
      ((p : IwdOutcome) → (matches (iwd p) method_error ≡ true) ↔ (n ≡ iwd_error_name p))
      × (class_of method_error
          ≡ some
              (record { kind = Kind.unavailable; resource = policy.resource; details = details }))

  abbrev pub PropertyPublished : Type 0
  PropertyPublished =
      ((p : IwdOutcome) → (matches (iwd p) property_error ≡ true) ↔ (n ≡ iwd_error_name p))
      × (class_of property_error
          ≡ some (record {
            kind = if policy.include_dbus_property then Kind.unavailable else Kind.internal;
            resource = policy.resource;
            details = details;
          }))

  publish-failed_method : MethodPublished
  unfolding public
  publish-failed_method = rw failed_method_lem (
    λ p. rw is-publish (is-with_outcome _ _ _ n p called),
    rw (
      class_of-publish _ _ _ _ _ (as_public-with_outcome _ _ _ (outcome n) called.1),
      bus_kind-method,
    ),
  )
    where
      called : IsReply (bus_error BusFailure.method (method_context iface name) (dbus_error n))
      called = bus_error-IsReply _ _ _ (dbus_error-IsReply n)

  publish-failed_property : PropertyPublished
  unfolding public
  publish-failed_property = rw failed_property_lem (
    λ p. rw is-publish (is-with_outcome _ _ _ n p reply),
    rw
        (
          class_of-publish _ _ _ _ _ (as_public-with_outcome _ _ _ (outcome n) reply.1),
          bus_kind-property,
        )
        (ground arith),
  )
    where
      reply : IsReply (dbus_error n)
      reply = dbus_error-IsReply n

  -- A failed iwd method call and a failed access of an iwd property, published with any operation
  -- names, policy and details: for each outcome that iwd names, `errors.Is` finds its sentinel exactly
  -- if the reply had its error name, and the public error has the policy's resource and the core
  -- layer's details. Its kind is unavailable for a call; for a property it is so if the policy counts
  -- property failures as such, and internal if not.
  pub publish-failed : MethodPublished × PropertyPublished
  publish-failed = (publish-failed_method, publish-failed_property)
