-- ===== src/Cli/Tests.antt =====
-- The theorems on the command line at concrete inputs.
use spiderw.Base.{◌≡◌, List, refl, none, some, [], ◌∷◌}
use spiderw.Base.Text.{trim_space}
use spiderw.Daemon.{Ref}
use spiderw.Wire.{text, lookup, ok}
use spiderw.Wire.Agreement.{value}
use spiderw.Wire.Served.{served}
use spiderw.Wire.Tree.{Objects, string_prop}
use spiderw.Public.Refs.{network_ref_of}
use spiderw.Cli.{readable_ref, net_ref_of, network_ref}
use spiderw.Cli.ByRef.{Words, by_ref, station_by_ref}
use spiderw.Cli.Monitored.{looked_up, seed_and_changes}

abbrev objects : Objects
objects = ("/home", ("net.connman.iwd.Network", ("Name", text "home ") ∷ []) ∷ []) ∷ []

-- The two lines differ.
seed_and_changes_example :
    (readable_ref (net_ref_of (some (network_ref_of (some objects) "/home"))) "none" ≡ "home ")
    × (readable_ref
          (network_ref
            (some (looked_up (λ path. served (("Name", text "home ") ∷ []))))
            (some "/home"))
          "none"
        ≡ "home")
unfolding string_prop lookup trim_space
seed_and_changes_example =
    seed_and_changes objects (λ path. served (("Name", text "home ") ∷ [])) "/home" "home " "none"
      refl refl refl

abbrev stations : List Ref
stations =
    record { path = "/0/4"; name = "wlan0" }
    ∷ record { path = "/0/5"; name = "wlan1" }
    ∷ record { path = "/1/6"; name = "wlan1" }
    ∷ []

abbrev station_words : Words
station_words = record {
  one = "station";
  many = "stations";
  reference = "station";
  hint = "a station path";
}

by_name : value (station_by_ref (λ text. text) (ok stations) " wlan0") ≡ some "/0/4"
unfolding by_ref
by_name = refl

two_of_the_name : value (station_by_ref (λ text. text) (ok stations) "wlan1") ≡ none
unfolding by_ref
two_of_the_name = refl
