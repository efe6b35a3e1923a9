-- ===== src/Errors/Laws/Public.antt =====
-- What every error of the public package satisfies.
use mathlib.Core.Option.{or_else}
use spiderw.Base.{true, none, some, String, ◌≡◌, refl, arith, Option-cases, inl, inr}
use spiderw.Failure.{Kind, Resource, public}
use spiderw.Errors.Tree.{Sentinel, PublicMark, Err, Error, Class, is, public_mark, as_core}
use spiderw.Errors.Tree.{as_public, sentinel_for_kind}
use spiderw.Errors.Tree.{
  sentinel, plain, dbus_error, annotated, bus_error, core_error, public_error, joined, joined_one,
}
use spiderw.Errors.Wrap.{wrap_public_error, public_of_core}
use spiderw.Errors.Laws.Sentinels.{same_refl}
use spiderw.Errors.Laws.Publish.{matches, class_of}

-- The sentinels that an error of class `c` matches: the package's, and the one of its kind.
abbrev HasMarks : Class → Err → Type 0
HasMarks c e =
    (is (public_mark PublicMark.spiderw_api) e ≡ true)
    × (is (public_mark (sentinel_for_kind c.kind)) e ≡ true)

public_error-HasMarks :
    (kind : Kind) (resource : Resource) (op details : String) (e : Err)
    → HasMarks
        (record { kind = kind; resource = resource; details = details })
        (public_error kind resource op details e)
unfolding is
public_error-HasMarks kind resource op details e = ground (
  arith,
  same_refl (public_mark PublicMark.spiderw_api),
  same_refl (public_mark (sentinel_for_kind kind)),
)

as_public-HasMarks : (e : Err) (c : Class) → as_public e ≡ some c → HasMarks c e
unfolding is as_public or_else
as_public-HasMarks (sentinel s) c h = cc
as_public-HasMarks (plain t) c h = cc
as_public-HasMarks (dbus_error n) c h = cc
as_public-HasMarks (annotated a b) c h =
    ground (arith, as_public-HasMarks a c, as_public-HasMarks b c)
as_public-HasMarks (bus_error k t e) c h = ground (arith, as_public-HasMarks e c)
as_public-HasMarks (core_error k r o d e) c h = ground (arith, as_public-HasMarks e c)
as_public-HasMarks (public_error k r o d e) c h = ground (
  arith,
  same_refl (public_mark PublicMark.spiderw_api),
  same_refl (public_mark (sentinel_for_kind k)),
)
as_public-HasMarks (joined a b) c h = ground (arith, as_public-HasMarks a c, as_public-HasMarks b c)
as_public-HasMarks (joined_one a) c h = as_public-HasMarks a c h

public-public : (k : Kind) → public (public k) ≡ public k
unfolding public
public-public Kind.unavailable = refl
public-public _ = refl

as_public-public_of_core :
    (op : String) (e : Err)
    → (c : Class) × (as_public (public_of_core op e) ≡ some c)
      × HasMarks c (public_of_core op e)
      × (public c.kind ≡ c.kind)
unfolding public as_public
as_public-public_of_core op e = elim (Option-cases (as_core e)) [
  | inl n ↦ (
    record { kind = Kind.internal; resource = Resource.unknown; details = "" },
    rw (n, public_of_core),
    rw (n, public_of_core) (public_error-HasMarks _ _ op _ e),
    refl,
  )
  | inr (c, q) ↦ (
    record c { kind = public c.kind },
    rw (q, public_of_core),
    rw (q, public_of_core) (public_error-HasMarks _ _ op _ e),
    public-public c.kind,
  )
]

is-public_of_core :
    (s : Sentinel) (op : String) (e : Err) → is s e ≡ true → is s (public_of_core op e) ≡ true
unfolding is
is-public_of_core s op e h = elim (Option-cases (as_core e)) [
  | inl n ↦ rw (n, public_of_core, h) (ground arith)
  | inr (c, q) ↦ rw (q, public_of_core, h) (ground arith)
]

-- Every error that `wrapPublicError` returns for an error is found by `errors.AsType` as a public
-- one, and matches `ErrSpiderw` and the sentinel of its kind.
pub wrap_public_error_marks :
    (op : String) (e : Err)
    → (c : Class) × (class_of (wrap_public_error op (some e)) ≡ some c)
      × (matches (public_mark PublicMark.spiderw_api) (wrap_public_error op (some e)) ≡ true)
      × (matches (public_mark (sentinel_for_kind c.kind)) (wrap_public_error op (some e)) ≡ true)
unfolding wrap_public_error
wrap_public_error_marks op e = elim (Option-cases (as_public e)) [
  | inl n ↦
      let (c, q, marks, _) = as_public-public_of_core op e in
      (
        c,
        rw (n, wrap_public_error) q,
        rw (n, wrap_public_error) marks.0,
        rw (n, wrap_public_error) marks.1,
      )
  | inr (c, q) ↦
      let marks = as_public-HasMarks e c q in
      (
        c,
        rw (q, wrap_public_error) q,
        rw (q, wrap_public_error) marks.0,
        rw (q, wrap_public_error) marks.1,
      )
]

-- `wrapPublicError` loses no sentinel: its result matches every sentinel that its argument matches.
pub is-wrap_public_error_mono :
    (op : String) (e : Err) (s : Sentinel)
    → is s e ≡ true
    → matches s (wrap_public_error op (some e)) ≡ true
unfolding wrap_public_error
is-wrap_public_error_mono op e s h = elim (Option-cases (as_public e)) [
  | inl n ↦ rw (n, wrap_public_error) (is-public_of_core s op e h)
  | inr (c, q) ↦ rw (q, wrap_public_error) h
]

-- An error that `wrapPublicError` has wrapped, or nil, is returned as it is by every further call.
pub wrap_public_error-twice :
    (op later : String) (err : Error)
    → wrap_public_error later (wrap_public_error op err) ≡ wrap_public_error op err
unfolding wrap_public_error
wrap_public_error-twice op later none = refl
wrap_public_error-twice op later (some e) = elim (Option-cases (as_public e)) [
  | inl n ↦
      let q = (as_public-public_of_core op e).1 in
      rw (n, wrap_public_error) (rw (q, wrap_public_error))
  | inr (c, q) ↦ rw (q, wrap_public_error) (rw (q, wrap_public_error))
]
