-- ===== src/Signals/Subscriptions/Delivery.antt =====
-- Which handlers a signal reaches: splitSignalName and resolveHandlers against the patterns of the
-- live subscriptions.
use spiderw.Base.{ℕ, ◌+◌, Bool, true, false, List, [], ◌∷◌, ◌++◌}
use spiderw.Base.{◌≡◌, ◌≢◌, refl, arith, if◌then◌else◌, All, map}
use spiderw.Base.Text.{Text, text_eq_iff, IsDotless}
use spiderw.Signals.Registry.{
  Handler, Registry, Table, exact, wildcard, bucket_of, star, any_member, full_name, handlers_for,
}
use spiderw.Signals.Subscriptions.Maps.{same_place}
use spiderw.Signals.Subscriptions.Steps.{Represents}
use spiderw.Signals.Subscriptions.Live.{Live, place, standing, covers, covering}
use spiderw.Signals.Subscriptions.Names.{dotless-ne-full, full_name-injective, star-IsDotless}

abbrev pub to_number : Bool → ℕ
to_number true = 1
to_number false = 0

-- How many members of a list pass a test.
abbrev pub tally {ℓ} : {A : Type ℓ} → (A → Bool) → List A → ℕ
tally p [] = 0
tally p (h ∷ hs) = (if p h then 1 else 0) + tally p hs

tally-append {ℓ} :
    {A : Type ℓ} (p : A → Bool) (xs ys : List A) → tally p (xs ++ ys) ≡ tally p xs + tally p ys
tally-append p [] ys = omega arith
tally-append p (x ∷ xs) ys = omega (arith, tally-append p xs ys)

pub tally-map {ℓ κ} :
    {A : Type ℓ} {B : Type κ} (p : B → Bool) (f : A → B) (xs : List A)
    → tally p (map f xs) ≡ tally (λ x. p (f x)) xs
tally-map p f [] = refl
tally-map p f (x ∷ xs) = omega (arith, tally-map p f xs)

tally-standing :
    (p : Handler → Bool) (b : Table × Text) (s : Live) (live : List Live)
    → tally p (standing b (s ∷ live))
      ≡ (if p s.handler then to_number (same_place (place s) b) else 0) + tally p (standing b live)
unfolding standing
tally-standing p b s live = ground arith

module _ (iface member : Text) (dotless : IsDotless member) (no_star : member ≢ star) where
  -- Exactly one of the four slices that a signal reads holds the pattern, if it covers the signal.
  place-covers :
      (s : Live)
      → IsDotless s.member
      → to_number (same_place (place s) (exact, full_name iface member))
          + (to_number (same_place (place s) (wildcard, member))
              + (to_number (same_place (place s) (wildcard, any_member iface))
                  + to_number (same_place (place s) (wildcard, star))))
        ≡ to_number (covers s iface member)
  unfolding bucket_of
  place-covers s plain = ground (
    arith,
    no_star,
    text_eq_iff s.iface star,
    text_eq_iff s.member star,
    text_eq_iff s.iface iface,
    text_eq_iff s.member member,
    text_eq_iff star member,
    text_eq_iff star (any_member iface),
    text_eq_iff s.member (any_member iface),
    text_eq_iff (any_member s.iface) member,
    text_eq_iff (any_member s.iface) (any_member iface),
    text_eq_iff (any_member s.iface) star,
    text_eq_iff (full_name s.iface s.member) (full_name iface member),
    dotless-ne-full iface star star star-IsDotless,
    dotless-ne-full iface star s.member plain,
    dotless-ne-full s.iface star member dotless,
    dotless-ne-full s.iface star star star-IsDotless,
    full_name-injective s.iface iface star star star-IsDotless star-IsDotless,
    full_name-injective s.iface iface s.member member plain dotless,
  )

  tally-covering :
      (p : Handler → Bool) (s : Live) (live : List Live)
      → tally p (covering iface member (s ∷ live))
        ≡ (if p s.handler then to_number (covers s iface member) else 0)
          + tally p (covering iface member live)
  unfolding covering
  tally-covering p s live = ground arith

  -- The four slices together.
  pub read_standing : List Live → List Handler
  read_standing live =
      standing (exact, full_name iface member) live
      ++ (standing (wildcard, member) live
          ++ (standing (wildcard, any_member iface) live ++ standing (wildcard, star) live))

  pub tally_slices : (Handler → Bool) → List Live → ℕ
  tally_slices p live =
      tally p (standing (exact, full_name iface member) live)
      + (tally p (standing (wildcard, member) live)
          + (tally p (standing (wildcard, any_member iface) live)
              + tally p (standing (wildcard, star) live)))

  pub tally_slices-covering :
      (p : Handler → Bool) (live : List Live)
      → All (λ (s : Live). IsDotless s.member) live
      → tally_slices p live ≡ tally p (covering iface member live)
  unfolding tally_slices
  tally_slices-covering p [] h = unfold standing covering in refl
  tally_slices-covering p (s ∷ live) h = ground (
    arith,
    tally_slices-covering p live h.1,
    place-covers s h.0,
    tally-covering p s live,
    tally-standing p (exact, full_name iface member) s live,
    tally-standing p (wildcard, member) s live,
    tally-standing p (wildcard, any_member iface) s live,
    tally-standing p (wildcard, star) s live,
  )

  pub tally-read_standing :
      (p : Handler → Bool) (live : List Live) → tally p (read_standing live) ≡ tally_slices p live
  unfolding read_standing tally_slices
  tally-read_standing p live = rw (tally-append, tally-append, tally-append)

  pub handlers_for-read_standing :
      (r : Registry) (live : List Live)
      → Represents r live
      → handlers_for r iface member ≡ read_standing live
  unfolding handlers_for read_standing
  handlers_for-read_standing r live h = rw (
    h (exact, full_name iface member),
    h (wildcard, member),
    h (wildcard, any_member iface),
    h (wildcard, star),
  )
