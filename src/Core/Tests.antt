-- ===== src/Core/Tests.antt =====
-- The theorems on the core layer at concrete inputs.
use spiderw.Base.{◌≡◌, refl, false, true, [], ◌∷◌}
use spiderw.Wire.{text, boolean, object_path, Props}
use spiderw.Wire.Served.{served, served-Answers, valid}
use spiderw.Wire.Events.{Event}
use spiderw.Wire.Events.Delivered.{after}
use spiderw.Core.Agreement.Whole.{PropertiesAgree, properties_agree}
use spiderw.Core.Follow.{SubscriptionsFollow, subscriptions_follow}
use spiderw.Core.Requests.{fits}
use spiderw.Base.Text.{len}

-- Four characters of eight bytes are a passphrase.
four_characters : fits 8 63 "éééé" ≡ true
unfolding len
four_characters = refl

-- A device that is powered off and gets a mode.
abbrev device : Props
device =
    ("Name", text " wlan0")
    ∷ ("Address", text "00:11:22:33:44:55")
    ∷ ("Powered", boolean true)
    ∷ ("Mode", text "station")
    ∷ ("Adapter", object_path "/net/connman/iwd/0")
    ∷ []

abbrev switched_off : Event
switched_off = record {
  changed = ("Powered", boolean false) ∷ ("Mode", text "ap") ∷ [];
  invalidated = [];
}

properties_agree_example : PropertiesAgree valid (served device)
properties_agree_example =
    properties_agree valid (served device) (λ i. device) (served-Answers device)

subscriptions_follow_example : SubscriptionsFollow (served (after switched_off device)) switched_off
subscriptions_follow_example =
    subscriptions_follow valid (served (after switched_off device)) (λ i. device) switched_off
      (served-Answers (after switched_off device))
