-- ===== src/Public.antt =====
-- The public package at the root: what the methods of its objects have in common. A method asks the
-- object of internal/core that it wraps; the answer is an argument here, and none stands for a wrapper
-- without one. Logging is left out.
pub mod Refs
pub mod Adapter
pub mod Device
pub mod Network
pub mod Station
pub mod KnownNetwork
pub mod AccessPoint
pub mod Small
pub mod Daemon
pub mod Failures
pub mod Kept
pub mod Bundles
mod Tests
use spiderw.Base.{Bool, true, false, not, if◌then◌else◌, Option, none, some, String}
use spiderw.Failure.{Kind, Resource}
use spiderw.Errors.{
  Error, PublicMark, internal, invalid_argument, sentinel, public_mark, public_error,
  wrap_public_error,
}
use spiderw.Wire.{Result, ok, failed}
use spiderw.Core.{Heard}

-- `coreAdapter` and its likes, for a wrapper without an object.
abbrev pub uninitialized : String → Error
uninitialized op = wrap_public_error op (some (sentinel (public_mark PublicMark.internal)))

-- `delegate`: `fn` makes the result of what the object answers.
abbrev pub published : {A : Type 0} → String → Result A → Result A
published op (failed e) = failed (wrap_public_error op e)
published op (ok v) = ok v

unfoldable pub delegate : {A B : Type 0} → String → Option A → (A → Result B) → Result B
unfolding wrap_public_error
delegate op none fn = failed (uninitialized op)
delegate op (some c) fn = published op (fn c)

-- `do`.
unfoldable pub do_request : {A : Type 0} → String → Option A → (A → Error) → Error
unfolding wrap_public_error
do_request op none fn = uninitialized op
do_request op (some c) fn = wrap_public_error op (fn c)

-- An error that the public package makes itself.
abbrev pub bad_argument : Resource → String → String → Error
bad_argument resource op details = some (
    public_error Kind.invalid_argument resource op details
      (sentinel (public_mark PublicMark.invalid_argument)))

-- A conversion of a text that must be one of iwd's.
unfoldable pub converted : (String → Bool) → Resource → String → String → String → Result String
converted valid resource op details s =
    if not (valid s) then failed (bad_argument resource op details) else ok s

-- A subscription. `keep` is what is handed on of what the object hands on; in
-- `SubscribePropertiesChanged` it is a copy.
abbrev pub and_then : {A B : Type 0} → (A → Option B) → Option A → Option B
and_then keep none = none
and_then keep (some a) = keep a

unfoldable pub subscribe :
    {E A B : Type 0} → Resource → String → (A → Option B) → Bool → Option (Heard E A) → Heard E B
unfolding wrap_public_error
subscribe resource op keep has_fn none = failed (uninitialized op)
subscribe resource op keep false (some b) =
    failed (bad_argument resource op "callback cannot be nil")
subscribe resource op keep true (some (failed e)) = failed (wrap_public_error op e)
subscribe resource op keep true (some (ok h)) = ok (λ ev. and_then keep (h ev))
