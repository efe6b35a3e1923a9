-- ===== src/Errors/Laws/Some.antt =====
-- Wrapping an error gives an error.
use spiderw.Base.{◌≡◌, refl, arith, none, Bool, true, false, some, String, Option-cases, inl, inr}
use spiderw.Errors.Tree.{Err, Error, as_public}
use spiderw.Errors.Wrap.{UnavailablePolicy, wrap_unavailable, new_error, wrap_public_error}

-- Whether a Go error is nil.
abbrev pub is_nil : Error → Bool
is_nil none = true
is_nil (some e) = false

pub wrap_unavailable-some :
    (p : UnavailablePolicy) (op d : String) (e : Err)
    → is_nil (wrap_unavailable p op d (some e)) ≡ false
unfolding wrap_unavailable new_error
wrap_unavailable-some p op d e = ground arith

pub wrap_unavailable-nil :
    (p : UnavailablePolicy) (op d : String) (e : Error)
    → is_nil (wrap_unavailable p op d e) ≡ is_nil e
unfolding wrap_unavailable
wrap_unavailable-nil p op d none = refl
wrap_unavailable-nil p op d (some e) = wrap_unavailable-some p op d e

pub wrap_public_error-some :
    (op : String) (e : Err) → is_nil (wrap_public_error op (some e)) ≡ false
unfolding wrap_public_error
wrap_public_error-some op e = elim (Option-cases (as_public e)) [
  | inl h ↦ rw (h, wrap_public_error) refl
  | inr h ↦ rw (h.1, wrap_public_error) refl
]
