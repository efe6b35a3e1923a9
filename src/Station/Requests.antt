-- ===== src/Station/Requests.antt =====
-- Which requests of a client the core layer passes on to a station.
use spiderw.Base.{
  Bool, true, false, ◌&&◌, ◌≡◌, ◌⊎◌, refl, arith, none, some, String, List, [], ◌∷◌, Bool-cases,
  inl, inr,
}
use spiderw.Base.Text.{is_blank, is_absolute, trim_space, trim_space-absolute}
use spiderw.Errors.{Error, wrap_invalid_argument, new_error, station_unavailable_policy}
use spiderw.Errors.Laws.Some.{is_nil, wrap_unavailable-nil}
use spiderw.Station.Commands.{check_affinities, set_checked, set_affinities}
use spiderw.Station.Normal.{all}

abbrev details : String
details = "failed setting iwd Station affinities"

check_affinities-all : (ps : List String) → is_nil (check_affinities ps) ≡ all is_absolute ps
unfolding check_affinities wrap_invalid_argument new_error
check_affinities-all [] = refl
check_affinities-all (p ∷ ps) =
    let q = check_affinities-all ps in
    elim (Bool-cases (is_absolute p)) [
      | inl a ↦ let b = trim_space-absolute p a in rw (a, b, check_affinities) q
      | inr a ↦ elim (Bool-cases (is_blank (trim_space p))) [
        | inl b ↦ rw (a, b, check_affinities) refl
        | inr b ↦ rw (a, b, check_affinities) refl
      ]
    ]

set_checked-Asks :
    (b b' : List String → Error) (ps : List String) (e : Error) (good : Bool)
    → is_nil e ≡ good
    → (is_nil (set_checked e b ps) ≡ (good && is_nil (b ps)))
      × ((good ≡ true) ⊎ (set_checked e b' ps ≡ set_checked e b ps))
set_checked-Asks b b' ps none true h = (
  wrap_unavailable-nil station_unavailable_policy "Station.SetAffinities" details (b ps),
  inl refl,
)
set_checked-Asks b b' ps none false h = absurd (ground (arith, h))
set_checked-Asks b b' ps (some e) true h = absurd (ground (arith, h))
set_checked-Asks b b' ps (some e) false h = (refl, inr refl)

-- `SetAffinities` succeeds exactly when every path starts with a slash and iwd accepts the paths, as
-- they were given; and when a path does not, its result is the same whatever iwd would answer.
pub set_affinities-Asks :
    (b b' : List String → Error) (ps : List String)
    → (is_nil (set_affinities (some b) ps) ≡ (all is_absolute ps && is_nil (b ps)))
      × ((all is_absolute ps ≡ true) ⊎ (set_affinities (some b') ps ≡ set_affinities (some b) ps))
unfolding set_affinities
set_affinities-Asks b b' ps =
    set_checked-Asks b b' ps (check_affinities ps) (all is_absolute ps) (check_affinities-all ps)
