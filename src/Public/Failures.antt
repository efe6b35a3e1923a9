-- ===== src/Public/Failures.antt =====
-- What a caller of the public package finds in an error of any method.
use spiderw.Base.{true, false, ◌≡◌, refl, arith, Option, none, some, String}
use spiderw.Failure.{Kind, Resource}
use spiderw.Errors.{
  Error, Sentinel, PublicMark, Class, is, as_public, public_mark, sentinel, sentinel_for_kind,
  wrap_public_error,
}
use spiderw.Errors.Laws.Some.{is_nil}
use spiderw.Errors.Laws.Publish.{matches, class_of}
use spiderw.Errors.Laws.Sentinels.{same_refl}
use spiderw.Errors.Laws.Public.{wrap_public_error_marks, is-wrap_public_error_mono}
use spiderw.Wire.{Result, ok, failed}
use spiderw.Core.{Heard}
use spiderw.Public.{delegate, do_request, subscribe, bad_argument, published, uninitialized}

-- `errors.AsType` finds a public error in it, and it matches `ErrSpiderw` and the sentinel of its kind.
abbrev pub IsPublic : Error → Type 0
IsPublic e =
    (c : Class) × (class_of e ≡ some c)
    × (matches (public_mark PublicMark.spiderw_api) e ≡ true)
    × (matches (public_mark (sentinel_for_kind c.kind)) e ≡ true)

-- An error `e` on its way out as `e'`: `e'` is a public one, and matches whatever `e` matches.
abbrev pub GoesOut : Error → Error → Type 0
GoesOut e e' = IsPublic e' × ((s : Sentinel) → matches s e ≡ true → matches s e' ≡ true)

wrapped-GoesOut : (op : String) (e : Error) → is_nil e ≡ false → GoesOut e (wrap_public_error op e)
wrapped-GoesOut op none h = absurd (ground (arith, h))
wrapped-GoesOut op (some e) h =
    (wrap_public_error_marks op e, λ s m. is-wrap_public_error_mono op e s m)

bad_argument-IsPublic :
    (resource : Resource) (op details : String) → IsPublic (bad_argument resource op details)
unfolding is as_public
bad_argument-IsPublic resource op details = (
  record { kind = Kind.invalid_argument; resource = resource; details = details },
  refl,
  ground (arith, same_refl (public_mark PublicMark.spiderw_api)),
  ground (arith, same_refl (public_mark (sentinel_for_kind Kind.invalid_argument))),
)

-- A result that carries no nil error.
abbrev pub Proper : {A : Type 0} → Result A → Type 0
Proper {A} (ok v) = Unit
Proper {A} (failed e) = is_nil e ≡ false

-- The result is a value, or an error that went out.
abbrev pub Fails : {A B : Type 0} → Result A → Result B → Type 0
Fails {A} {B} r (ok v) = (a : A) × (r ≡ ok a)
Fails {A} {B} r (failed e') = (e : Error) × (r ≡ failed e) × GoesOut e e'

published-Fails : {A : Type 0} (op : String) (r : Result A) → Proper r → Fails r (published op r)
published-Fails op (ok v) h = (v, refl)
published-Fails op (failed e) h = (e, refl, wrapped-GoesOut op e h)

abbrev pub IsFailure : {A : Type 0} → Result A → Type 0
IsFailure {A} r = (e : Error) × (r ≡ failed e) × IsPublic e

abbrev pub Sends : Error → Error → Type 0
Sends none e' = e' ≡ none
Sends (some e) e' = GoesOut (some e) e'

uninitialized-IsPublic : (op : String) → IsPublic (uninitialized op)
uninitialized-IsPublic op = wrap_public_error_marks op (sentinel (public_mark PublicMark.internal))

do_request-Sends :
    {A : Type 0} (op : String) (c : A) (g : A → Error) (e : Error)
    → g c ≡ e
    → Sends e (do_request op (some c) g)
unfolding do_request wrap_public_error
do_request-Sends op c g none q = rw (q, do_request) refl
do_request-Sends op c g (some e) q = rw (q, do_request) (wrapped-GoesOut op (some e) refl)

subscribe-Fails :
    {E A B : Type 0} (resource : Resource) (op : String) (keep : A → Option B) (h : Heard E A)
    → Proper h
    → Fails h (subscribe resource op keep true (some h))
unfolding subscribe
subscribe-Fails resource op keep (ok h) p = (h, refl)
subscribe-Fails resource op keep (failed e) p = (e, refl, wrapped-GoesOut op e p)

-- The three forms of a method: an accessor by `delegate`, a request by `do`, and a subscription.
abbrev pub Outcomes :
    {E A B C D : Type 0}
    → Resource
    → String
    → A
    → (A → Result B)
    → (A → Error)
    → (C → Option D)
    → Heard E C
    → Type 0
Outcomes {E} {A} {B} {C} {D} resource op c fn g keep h =
    Fails (fn c) (delegate op (some c) fn)
    × Sends (g c) (do_request op (some c) g)
    × Fails h (subscribe resource op keep true (some h))
    × IsFailure (delegate op none fn)
    × IsPublic (do_request op none g)
    × IsFailure (subscribe {E = E} resource op keep true none)
    × IsFailure (subscribe resource op keep false (some h))

-- An accessor, a request and a subscription of the public package fail exactly when what they ask of
-- the core layer does, where its error is not nil, when the wrapper has no object, or when the function
-- of the subscription is nil. In every error `errors.AsType` finds a public one, and the error matches
-- `ErrSpiderw`, the sentinel of its kind, and each sentinel that the error of the core layer matches.
pub failures-Outcomes :
    {E A B C D : Type 0} (resource : Resource) (op : String) (c : A) (fn : A → Result B)
    (g : A → Error) (keep : C → Option D) (h : Heard E C)
    → Proper (fn c)
    → Proper h
    → Outcomes resource op c fn g keep h
unfolding delegate do_request subscribe
failures-Outcomes resource op c fn g keep h p q = (
  published-Fails op (fn c) p,
  do_request-Sends op c g (g c) refl,
  subscribe-Fails resource op keep h q,
  (uninitialized op, refl, uninitialized-IsPublic op),
  uninitialized-IsPublic op,
  (uninitialized op, refl, uninitialized-IsPublic op),
  (bad_argument resource op "callback cannot be nil", refl, bad_argument-IsPublic resource op _),
)
