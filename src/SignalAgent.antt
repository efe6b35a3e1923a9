-- ===== src/SignalAgent.antt =====
-- The configuration of a signal-level agent: `SignalLevelConfig` and `NewSignalLevelAgent` of
-- internal/core/signalagent.go.
pub mod Thresholds
pub mod Handle
mod Tests
use spiderw.Base.{
  ℕ, ◌-◌, ◌%◌, ◌^◌, Bool, true, false, not, ◌||◌, Option, none, some, String, List, [], ◌∷◌, map,
  if◌then◌else◌, ltb,
}
use spiderw.Base.{ℤ, pos, negsuc}
use spiderw.Failure.{Resource}
use spiderw.Errors.{Error, sentinel, core_mark, wrap_invalid_argument}

unfoldable pub lt : ℤ → ℤ → Bool
lt (pos a) (pos b) = ltb a b
lt (pos a) (negsuc b) = false
lt (negsuc a) (pos b) = true
lt (negsuc a) (negsuc b) = ltb b a

-- `math.MinInt16` and `math.MaxInt16`.
abbrev pub min_int16 : ℤ
min_int16 = negsuc 32767

abbrev pub max_int16 : ℤ
max_int16 = pos 32767

-- The conversion `int16(t)`: the low 16 bits, read as a signed number.
abbrev pub low_bits : ℤ → ℕ
low_bits (pos n) = n % 2 ^ 16
low_bits (negsuc n) = 2 ^ 16 - 1 - n % 2 ^ 16

unfoldable pub int16 : ℤ → ℤ
int16 t = if ltb (low_bits t) (2 ^ 15) then pos (low_bits t) else negsuc (2 ^ 16 - 1 - low_bits t)

-- `SignalLevelConfig`; `changed` says whether the callback is set.
pub record SignalLevelConfig : Type 0 where
  pub thresholds : List ℤ
  pub changed : Bool

abbrev invalid : String → String → Error
invalid op details = wrap_invalid_argument Resource.station op details (some (sentinel core_mark))

abbrev pub precedes : Option ℤ → ℤ → Bool
precedes none t = true
precedes (some previous) t = lt t previous

-- The loop of `Validate`, with the threshold before the ones that are left.
unfoldable pub validate_from : String → Option ℤ → List ℤ → Error
unfolding lt
validate_from op previous [] = none
validate_from op previous (t ∷ ts) =
    let rest = validate_from op (some t) ts in
    if lt t min_int16 || lt max_int16 t
    then invalid op "signal threshold is out of range"
    else if not (precedes previous t)
    then invalid op "signal thresholds must be in strictly descending order"
    else rest

abbrev is_nonempty : List ℤ → Bool
is_nonempty [] = false
is_nonempty (t ∷ ts) = true

-- `SignalLevelConfig.Validate`.
unfoldable pub validate : String → SignalLevelConfig → Error
unfolding validate_from
validate op c =
    if not c.changed
    then invalid op "Changed callback must be set"
    else if not (is_nonempty c.thresholds)
    then invalid op "at least one signal-strength threshold is required"
    else validate_from op none c.thresholds

-- The levels of `NewSignalLevelAgent`, which `Levels` copies.
unfoldable pub levels : SignalLevelConfig → List ℤ
unfolding int16
levels c = map int16 c.thresholds
