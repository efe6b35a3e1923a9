-- ===== src/Public/Kept/Handed.antt =====
-- What a subscription to a mode or a state hands on, the public package keeps.
use spiderw.Base.{◌≡◌, refl, Bool-cases, Option-cases, inl, inr}
use spiderw.Values.{valid_mode, valid_station_state, parse_mode}
use spiderw.Values.{parse_station_state}
use spiderw.Wire.{
  Value, text, nil, object_path, boolean, uint32, int16, texts, object_paths, slice, variant,
  variants, dictionary, other, lookup,
}
use spiderw.Wire.Parse.{parse_device_mode, parse_state}
use spiderw.Wire.Events.{Event, delivered, right, mode_changed, state_changed}
use spiderw.Public
use spiderw.Public.{delegate, published, converted, and_then}
use spiderw.Public.Device.{kept_mode}
use spiderw.Public.Station.{kept_state, convert_state}

-- What the object's subscriptions to a mode and to a state hand on is one of iwd's.
kept_mode-right :
    (v : Value) → and_then kept_mode (right (parse_device_mode v)) ≡ right (parse_device_mode v)
unfolding parse_device_mode parse_mode Public.Device.convert_mode converted
kept_mode-right (text s) = elim (Bool-cases (valid_mode s)) [
  | inl m ↦ rw (m, parse_device_mode, parse_mode, m, Public.Device.convert_mode, converted) refl
  | inr m ↦ rw (m, parse_device_mode, parse_mode) refl
]
kept_mode-right nil = refl
kept_mode-right (object_path p) = refl
kept_mode-right (boolean b) = refl
kept_mode-right (uint32 n) = refl
kept_mode-right (int16 i) = refl
kept_mode-right (texts ps) = refl
kept_mode-right (object_paths ps) = refl
kept_mode-right (slice xs) = refl
kept_mode-right (variant v) = refl
kept_mode-right (variants fs) = refl
kept_mode-right (dictionary fs) = refl
kept_mode-right other = refl

kept_state-right : (v : Value) → and_then kept_state (right (parse_state v)) ≡ right (parse_state v)
unfolding parse_state parse_station_state convert_state converted
kept_state-right (text s) = elim (Bool-cases (valid_station_state s)) [
  | inl m ↦ rw (m, parse_state, parse_station_state, m, convert_state, converted) refl
  | inr m ↦ rw (m, parse_state, parse_station_state) refl
]
kept_state-right nil = refl
kept_state-right (object_path p) = refl
kept_state-right (boolean b) = refl
kept_state-right (uint32 n) = refl
kept_state-right (int16 i) = refl
kept_state-right (texts ps) = refl
kept_state-right (object_paths ps) = refl
kept_state-right (slice xs) = refl
kept_state-right (variant v) = refl
kept_state-right (variants fs) = refl
kept_state-right (dictionary fs) = refl
kept_state-right other = refl

pub kept_mode-mode_changed : (ev : Event) → and_then kept_mode (mode_changed ev) ≡ mode_changed ev
unfolding mode_changed delivered
kept_mode-mode_changed ev = elim (Option-cases (lookup "Mode" ev.changed)) [
  | inl n ↦ rw (n, mode_changed, delivered) refl
  | inr (v, q) ↦ rw (q, mode_changed, delivered) (kept_mode-right v)
]

pub kept_state-state_changed :
    (ev : Event) → and_then kept_state (state_changed ev) ≡ state_changed ev
unfolding state_changed delivered
kept_state-state_changed ev = elim (Option-cases (lookup "State" ev.changed)) [
  | inl n ↦ rw (n, state_changed, delivered) refl
  | inr (v, q) ↦ rw (q, state_changed, delivered) (kept_state-right v)
]
