-- ===== src/Errors/Laws/Publish.antt =====
-- What the core layer's `wrapUnavailable` and `wrapPublicError` keep of an error on its way up.
use spiderw.Base.{Bool, true, false, Option, none, some, String, ◌≡◌, ◌↔◌, arith}
use spiderw.Base.{if◌then◌else◌, Bool-cases, Option-cases, inl, inr, ◌∙◌}
use spiderw.Failure.{Kind, Resource, public}
use spiderw.Errors.Tree.{Sentinel, same, IwdOutcome, BusFailure, PublicMark, Err, Error, Class, is}
use spiderw.Errors.Tree.{iwd, bus, core_mark, public_mark, as_core, as_public}
use spiderw.Errors.Tree.{sentinel_for_kind, core_error, public_error}
use spiderw.Errors.Wrap.{
  UnavailablePolicy, is_unavailable_dbus_error, wrap_unavailable, wrap_public_error, public_of_core,
}
use spiderw.Errors.Laws.Sentinels.{same_iff, same-eq-false}

-- Whether `errors.Is(err, s)`; a nil error is none of them.
abbrev pub matches : Sentinel → Error → Bool
matches s none = false
matches s (some e) = is s e

abbrev pub class_of : Error → Option Class
class_of none = none
class_of (some e) = as_public e

-- A sentinel that no layer adds when it wraps.
abbrev IsOutcome : Sentinel → Type 0
IsOutcome s = (p : IwdOutcome) × (s ≡ iwd p)

iwd_ne_core : (p : IwdOutcome) → same (iwd p) core_mark ≡ false
iwd_ne_core p = same-eq-false (iwd p) core_mark (λ e. cc)

pub iwd_ne_bus : (p : IwdOutcome) (k : BusFailure) → same (iwd p) (bus k) ≡ false
iwd_ne_bus p k = same-eq-false (iwd p) (bus k) (λ e. cc)

iwd_ne_public : (p : IwdOutcome) (m : PublicMark) → same (iwd p) (public_mark m) ≡ false
iwd_ne_public p m = same-eq-false (iwd p) (public_mark m) (λ e. cc)

pub same_iwd : (p q : IwdOutcome) → (same (iwd p) (iwd q) ≡ true) ↔ (p ≡ q)
same_iwd p q = grind (arith, same_iff (iwd p) (iwd q))

-- The kind that `wrapUnavailable` chooses.
abbrev pub bus_kind : UnavailablePolicy → Err → Kind
bus_kind policy e =
    if is_unavailable_dbus_error e policy.include_dbus_property
    then Kind.unavailable
    else Kind.operation_failed

wrap_unavailable_lem :
    (policy : UnavailablePolicy) (op details : String) (e : Err)
    → wrap_unavailable policy op details (some e)
      ≡ some (core_error (bus_kind policy e) policy.resource op details e)
unfolding wrap_unavailable
wrap_unavailable_lem policy op details e =
    elim (Bool-cases (is_unavailable_dbus_error e policy.include_dbus_property)) [
      | inl h ↦ rw h
      | inr h ↦ rw h
    ]

is-core_error :
    (p : IwdOutcome) (kind : Kind) (resource : Resource) (op details : String) (e : Err)
    → is (iwd p) (core_error kind resource op details e) ≡ is (iwd p) e
unfolding is
is-core_error p kind resource op details e = rw (iwd_ne_core p)

is-public_error :
    (p : IwdOutcome) (kind : Kind) (resource : Resource) (op details : String) (e : Err)
    → is (iwd p) (public_error kind resource op details e) ≡ is (iwd p) e
unfolding is
is-public_error p kind resource op details e =
    rw (iwd_ne_public p PublicMark.spiderw_api, iwd_ne_public p (sentinel_for_kind kind))

is-public_of_core :
    (op : String) (p : IwdOutcome) (e : Err) → is (iwd p) (public_of_core op e) ≡ is (iwd p) e
is-public_of_core op p e = elim (Option-cases (as_core e)) [
  | inl n ↦ rw (n, public_of_core) (is-public_error p _ _ op _ e)
  | inr (c, q) ↦ rw (q, public_of_core) (is-public_error p _ _ op _ e)
]

is-wrap_public_error :
    (op : String) (p : IwdOutcome) (e : Err)
    → matches (iwd p) (wrap_public_error op (some e)) ≡ is (iwd p) e
unfolding wrap_public_error
is-wrap_public_error op p e = elim (Option-cases (as_public e)) [
  | inl n ↦ rw (n, wrap_public_error) (is-public_of_core op p e)
  | inr (c, q) ↦ rw (q, wrap_public_error)
]

-- The way up through the core layer and the public one.
module _ (policy : UnavailablePolicy) (op core_op details : String) where
  abbrev pub publish : Error → Error
  publish err = wrap_public_error op (wrap_unavailable policy core_op details err)

  -- Neither the core layer nor the public one adds or loses an outcome.
  pub is-publish : (p : IwdOutcome) (e : Err) → matches (iwd p) (publish (some e)) ≡ is (iwd p) e
  is-publish p e =
      rw wrap_unavailable_lem (is-wrap_public_error op p _ ∙ is-core_error p _ _ core_op details e)

  -- The public error carries the resource and the details of the core layer's.
  pub class_of-publish :
      (e : Err)
      → as_public e ≡ none
      → class_of (publish (some e))
        ≡ some (record {
          kind = public (bus_kind policy e);
          resource = policy.resource;
          details = details;
        })
  unfolding wrap_public_error
  class_of-publish e h = rw (wrap_unavailable_lem, h, wrap_public_error)
