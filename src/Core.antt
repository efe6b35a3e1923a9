-- ===== src/Core.antt =====
-- internal/core: what the facades of the core layer have in common. A facade asks the object of
-- internal/iwdbus that it wraps; the answer is an argument here, and none stands for a facade without
-- one. `Wire.Result` is what the functions return: a value, or an error.
pub mod Adapter
pub mod Device
pub mod KnownNetwork
pub mod AccessPoint
pub mod Small
pub mod Station
pub mod Network
pub mod Agreement
pub mod Requests
pub mod Follow
mod Tests
use spiderw.Base.{Bool, true, false, Option, none, some, String, ◌<>◌, if◌then◌else◌}
use spiderw.Base.Text.{is_blank, trim_space}
use spiderw.Failure.{Resource}
use spiderw.Errors.{
  Error, Object, sentinel, core_uninitialized, core_mark, plain, UnavailablePolicy,
  wrap_invalid_state, wrap_invalid_argument, wrap_unavailable,
}
use spiderw.Wire.{Result, ok, failed}

-- What tells the facades apart: the name in their operations, the words in the error for one that is
-- nil and the sentinel in it, and the policy of their `Wrap…Unavailable`.
pub record Facade : Type 0 where
  pub noun : String
  pub words : String
  pub object : Object
  pub policy : UnavailablePolicy

abbrev pub op_of : Facade → String → String
op_of f name = f.noun <> "." <> name

-- `rawAdapter` and its likes, for a facade without an object.
abbrev pub uninitialized : Facade → String → Error
uninitialized f name =
    wrap_invalid_state f.policy.resource (op_of f name) (f.words <> " wrapper was nil")
      (some (sentinel (core_uninitialized f.object)))

-- An answer that the facade asks for, and what it makes of it.
unfoldable pub query :
    {A B : Type 0} → Facade → String → String → Option (Result A) → (A → Result B) → Result B
unfolding wrap_invalid_state wrap_unavailable
query f name details none next = failed (uninitialized f name)
query f name details (some (failed e)) next =
    failed (wrap_unavailable f.policy (op_of f name) details e)
query f name details (some (ok x)) next = next x

-- A request that the facade passes on as it is.
unfoldable pub request : Facade → String → String → Option Error → Error
unfolding wrap_invalid_state wrap_unavailable
request f name details none = uninitialized f name
request f name details (some e) = wrap_unavailable f.policy (op_of f name) details e

-- A request with an argument that is checked first, for an object that answers each argument.
abbrev pub passed_on : {A : Type 0} → Facade → String → String → (A → Error) → Result A → Error
passed_on f name details b (failed e) = e
passed_on f name details b (ok x) = wrap_unavailable f.policy (op_of f name) details (b x)

unfoldable pub request_checked :
    {A : Type 0} → Facade → String → String → Option (A → Error) → Result A → Error
unfolding wrap_invalid_state wrap_unavailable
request_checked f name details none checked = uninitialized f name
request_checked f name details (some b) checked = passed_on f name details b checked

-- A field that is trimmed and must not be empty; `field` is its name.
unfoldable pub required_text : Facade → String → String → String → Result String
unfolding trim_space wrap_invalid_state
required_text f op field raw =
    let trimmed = trim_space raw in
    if is_blank trimmed
    then failed (
        wrap_invalid_state f.policy.resource op (f.words <> " returned empty " <> field)
          (some (plain ("missing or invalid " <> field <> " field"))))
    else ok trimmed

-- A subscription, for the answer of the object, which is asked only for a function that is not nil.
-- The answer is what the object then hands to the function, from a signal or an event of type `E`, and
-- the facade adds nothing; in `SubscribePropertiesChanged` it hands on a copy.
abbrev pub Heard : Type 0 → Type 0 → Type 0
Heard E A = Result (E → Option A)

unfoldable pub subscribe : {E A : Type 0} → Facade → String → Bool → Option (Heard E A) → Heard E A
unfolding wrap_invalid_state wrap_invalid_argument wrap_unavailable
subscribe f name has_fn none = failed (uninitialized f name)
subscribe f name false (some b) = failed (
    wrap_invalid_argument f.policy.resource (op_of f name) "callback cannot be nil"
      (some (sentinel core_mark)))
subscribe f name true (some (failed e)) = failed (
    wrap_unavailable f.policy (op_of f name)
      ("failed to call iwd " <> f.noun <> " subscribe method") e)
subscribe f name true (some (ok h)) = ok h
