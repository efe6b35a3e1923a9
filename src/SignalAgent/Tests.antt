-- ===== src/SignalAgent/Tests.antt =====
-- The theorems on signal-level agents at concrete inputs.
use spiderw.Base.{true, ◌≡◌, ◌≢◌, ◌↔◌, refl, none, [], ◌∷◌, All}
use spiderw.SignalAgent.{pos, negsuc, SignalLevelConfig, validate, levels, int16}
use spiderw.SignalAgent.Thresholds.{Fits, Descends, validate_iff, levels-validate}

-- The thresholds -60, -70 and -80.
abbrev config : SignalLevelConfig
config = record { thresholds = negsuc 59 ∷ negsuc 69 ∷ negsuc 79 ∷ []; changed = true }

config_valid : validate "Station.MonitorSignalLevel" config ≡ none
unfolding validate
config_valid = refl

validate_iff_example : (validate "Station.MonitorSignalLevel" config ≡ none) ↔ (
    (config.changed ≡ true)
    × (config.thresholds ≢ [])
    × Descends config.thresholds
    × All Fits config.thresholds)
validate_iff_example = validate_iff "Station.MonitorSignalLevel" config

levels-validate_example : levels config ≡ config.thresholds
levels-validate_example = levels-validate "Station.MonitorSignalLevel" config config_valid

-- The conversion wraps around outside the range.
int16_wraps : int16 (pos 32768) ≡ negsuc 32767
unfolding int16
int16_wraps = refl
