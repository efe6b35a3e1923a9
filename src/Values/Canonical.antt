-- ===== src/Values/Canonical.antt =====
-- Parsing a canonical string and writing it again.
use spiderw.Base.{
  Bool, true, false, not, ◌≡◌, ◌↔◌, refl, sym, arith, ◌⊎◌, String, List, [], ◌∷◌, str_eq_iff,
  Bool-cases, inl, inr, if◌then◌else◌,
}
use spiderw.Values.{
  valid_mode, parse_mode, mode_string, valid_station_state, parse_station_state,
  station_state_string, valid_network_type, parse_network_type, network_type_string,
}

-- The words of iwd.
abbrev pub mode_words : List String
mode_words = "ad-hoc" ∷ "ap" ∷ "station" ∷ []

abbrev pub station_state_words : List String
station_state_words = "connected" ∷ "connecting" ∷ "disconnected" ∷ "disconnecting" ∷ "roaming" ∷ []

abbrev pub network_type_words : List String
network_type_words = "8021x" ∷ "hotspot" ∷ "open" ∷ "psk" ∷ "wep" ∷ []

-- The string is a word of the list.
abbrev pub OneOf : String → List String → Type 0
OneOf s [] = ⊥
OneOf s (w ∷ ws) = (s ≡ w) ⊎ OneOf s ws

-- What the three parsers and writers have in common, for the words that they know.
abbrev pub RoundTrips : List String → (String → String × Bool) → (String → String) → String → Type 0
RoundTrips words parse write s =
    (((parse s).1 ≡ true) ↔ OneOf s words)
    × ((write (parse s).0 ≡ s) ↔ (OneOf s words ⊎ (s ≡ "unknown")))
    × (parse (write (parse s).0) ≡ parse s)

module _ (valid : String → Bool) (words : List String) where
  abbrev parse : String → String × Bool
  parse s = if not (valid s) then ("", false) else (s, true)

  abbrev write : String → String
  write s = if valid s then s else "unknown"

  canonical :
      (s : String)
      → valid "" ≡ false
      → valid "unknown" ≡ false
      → ((valid s ≡ true) ↔ OneOf s words)
      → RoundTrips words parse write s
  canonical s e u q = elim (Bool-cases (valid s)) [
    | inl v ↦
        rw (v) ((λ h. q.0 v, λ h. refl), (λ h. inl (q.0 v), λ h. rw (v) refl), rw (v) (rw (v) refl))
    | inr v ↦
        let out : ¬ OneOf s words = λ m. ground (arith, v, q.1 m) in
        rw (v, e)
          (
            (λ h. absurd (ground (arith, h)), λ m. absurd (out m)),
            (λ h. inr (sym h), λ m. elim m [ inl k ↦ absurd (out k) | inr k ↦ sym k ]),
            rw (u) refl,
          )
  ]

valid_mode_iff : (s : String) → (valid_mode s ≡ true) ↔ OneOf s mode_words
unfolding valid_mode
valid_mode_iff s = ground (arith, str_eq_iff s "ad-hoc", str_eq_iff s "ap", str_eq_iff s "station")

valid_station_state_iff :
    (s : String) → (valid_station_state s ≡ true) ↔ OneOf s station_state_words
unfolding valid_station_state
valid_station_state_iff s = ground (
  arith,
  str_eq_iff s "connected",
  str_eq_iff s "connecting",
  str_eq_iff s "disconnected",
  str_eq_iff s "disconnecting",
  str_eq_iff s "roaming",
)

valid_network_type_iff : (s : String) → (valid_network_type s ≡ true) ↔ OneOf s network_type_words
unfolding valid_network_type
valid_network_type_iff s = ground (
  arith,
  str_eq_iff s "8021x",
  str_eq_iff s "hotspot",
  str_eq_iff s "open",
  str_eq_iff s "psk",
  str_eq_iff s "wep",
)

-- A string is parsed as a mode exactly when it is station, ap or ad-hoc, as a station state exactly
-- when it is connected, connecting, disconnected, disconnecting or roaming, and as a network type
-- exactly when it is open, wep, psk, 8021x or hotspot. For each of the three, writing what was parsed
-- gives the string back exactly when it is one of these words or unknown, and that parses to the same
-- result as the string.
pub round_trips :
    (m s t : String)
    → RoundTrips mode_words parse_mode mode_string m
      × RoundTrips station_state_words parse_station_state station_state_string s
      × RoundTrips network_type_words parse_network_type network_type_string t
unfolding parse_mode mode_string parse_station_state station_state_string parse_network_type
    network_type_string
round_trips m s t = (
  canonical valid_mode mode_words m refl refl (valid_mode_iff m),
  canonical valid_station_state station_state_words s refl refl (valid_station_state_iff s),
  canonical valid_network_type network_type_words t refl refl (valid_network_type_iff t),
)
