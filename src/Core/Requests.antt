-- ===== src/Core/Requests.antt =====
-- Which requests of a client the core layer passes on to an object, and with what arguments.
use spiderw.Base.{
  ℕ, Bool, true, false, ◌&&◌, ◌||◌, ◌≡◌, ◌⊎◌, refl, some, String, leb, ◌==◌, inl, inr,
}
use spiderw.Base.Text.{len}
use spiderw.Errors.{Error}
use spiderw.Errors.Laws.Some.{is_nil, wrap_unavailable-nil}
use spiderw.Values.{valid_mode}
use spiderw.Wire.{Result, ok, failed}
use spiderw.Core.{Facade, op_of, request_checked}
use spiderw.Core.AccessPoint.{start, start_profile}
use spiderw.Core.Device.{set_mode}
use spiderw.Core.Small.{without_separators, all_digits, start_pin}

-- `run` asks an object for `x` exactly if `good` holds: it succeeds if the object then does, and
-- otherwise fails in a way that does not depend on the object.
abbrev pub Asks : {A : Type 0} → Bool → A → ((A → Error) → Error) → Type 0
Asks {A} good x run =
    (b b' : A → Error)
    → (is_nil (run b) ≡ (good && is_nil (b x))) × ((good ≡ true) ⊎ (run b' ≡ run b))

-- A check that returns `x` if `good` holds, and otherwise an error that is not nil.
abbrev pub Checks : {A : Type 0} → Bool → A → Result A → Type 0
Checks {A} good x r =
    ((good ≡ true) × (r ≡ ok x))
    ⊎ ((e : Error) × (good ≡ false) × (r ≡ failed e) × (is_nil e ≡ false))

pub request_checked-Asks :
    {A : Type 0} (f : Facade) (name details : String) (good : Bool) (x : A) (r : Result A)
    → Checks good x r
    → Asks good x (λ b. request_checked f name details (some b) r)
unfolding request_checked
request_checked-Asks f name details good x r (inl (g, q)) b b' =
    rw (g, q) (wrap_unavailable-nil f.policy (op_of f name) details (b x), inl refl)
request_checked-Asks f name details good x r (inr (e, g, q, n)) b b' = rw (g, q) (n, inr refl)

-- The bounds that the program names: a text of `least` to `most` bytes, and a pin.
abbrev pub fits : ℕ → ℕ → String → Bool
fits least most s = leb least (len s) && leb (len s) most

abbrev pub is_pin : String → Bool
is_pin s = all_digits s && (len s == 4 || len s == 8)

-- Each request asks the object for the right arguments, and only for these.
abbrev pub RequestsAsk : String → String → String → String → Type 0
RequestsAsk ssid psk mode pin =
    Asks (fits 1 32 ssid && fits 8 63 psk) (ssid, psk) (λ b. start (some b) ssid psk)
    × Asks (fits 1 32 ssid) ssid (λ b. start_profile (some b) ssid)
    × Asks (valid_mode mode) mode (λ b. set_mode (some b) mode)
    × Asks (is_pin (without_separators pin)) (without_separators pin) (λ b. start_pin (some b) pin)
