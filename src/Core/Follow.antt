-- ===== src/Core/Follow.antt =====
-- The subscriptions of the core layer against its getters, through both layers.
use spiderw.Base.{Bool, true, false, ◌≡◌, refl, sym, ◌∙◌, Option, none, some, String}
use spiderw.Base.{Bool-cases, inl, inr}
use spiderw.Values.{valid_mode, parse_mode}
use spiderw.Wire.{
  Value, text, nil, object_path, boolean, uint32, int16, texts, object_paths, slice, variant,
  variants, dictionary, other, Props, Iface, iface_name, Caller, Result, ok, failed, ◌>>=◌, read,
  read_answer,
}
use spiderw.Wire.Device.{iface, get_mode}
use spiderw.Wire.Parse.{parse_device_mode}
use spiderw.Wire.Agreement.{Answers, value}
use spiderw.Wire.Events.{
  Event, powered_changed, mode_changed, auto_connect_changed, hidden_changed, started_changed,
}
use spiderw.Wire.Events.Delivered.{after, is_changed}
use spiderw.Wire.Events.Follow.{Follows, properties_follow}
use spiderw.Wire
use spiderw.Core
use spiderw.Core.{Facade, Heard, subscribe, query}
use spiderw.Core.Adapter.{adapter}
use spiderw.Core.KnownNetwork.{known_network}
use spiderw.Core.AccessPoint.{access_point}
use spiderw.Core.Device.{device, validate_mode}
use spiderw.Core.Agreement.{query-value}

-- What a subscription that was made hands on at an event.
abbrev pub heard : {A : Type 0} → Heard Event A → Event → Option A
heard (failed e) ev = none
heard (ok h) ev = h ev

Follows-value :
    {A : Type 0} (b : Bool) (d : Option A) (r r' : Result A)
    → Follows b d r
    → value r' ≡ value r
    → Follows b d r'
Follows-value true d r r' h q = h ∙ sym q
Follows-value false d r r' h q = h

-- A getter of the core layer that checks nothing reads what the object's does.
query-ok :
    {A : Type 0} (f : Facade) (name details : String) (r : Result A)
    → value (query f name details (some r) ok) ≡ value r
unfolding query
query-ok f name details (ok a) = refl
query-ok f name details (failed e) = refl

-- The core layer accepts every mode that comes out of the parser.
parsed_mode-valid :
    (v : Value)
    → value (parse_device_mode v >>= validate_mode "Device.Mode") ≡ value (parse_device_mode v)
unfolding parse_device_mode parse_mode validate_mode
parsed_mode-valid (text s) = elim (Bool-cases (valid_mode s)) [
  | inl m ↦ rw (m, parse_device_mode, parse_mode, m, validate_mode) refl
  | inr m ↦ rw (m, parse_device_mode, parse_mode) refl
]
parsed_mode-valid nil = refl
parsed_mode-valid (object_path p) = refl
parsed_mode-valid (boolean b) = refl
parsed_mode-valid (uint32 n) = refl
parsed_mode-valid (int16 i) = refl
parsed_mode-valid (texts ps) = refl
parsed_mode-valid (object_paths ps) = refl
parsed_mode-valid (slice xs) = refl
parsed_mode-valid (variant v) = refl
parsed_mode-valid (variants fs) = refl
parsed_mode-valid (dictionary fs) = refl
parsed_mode-valid other = refl

read_mode-valid :
    (i : Iface) (prop : String) (a : Result Value)
    → value (read_answer i prop parse_device_mode a >>= validate_mode "Device.Mode")
      ≡ value (read_answer i prop parse_device_mode a)
read_mode-valid i prop (ok v) = parsed_mode-valid v
read_mode-valid i prop (failed e) = refl

-- Each subscription of the core layer that was made for a function, over that of internal/iwdbus, hands
-- on what the getter of the core layer now reads if the event changes the property.
abbrev pub SubscriptionsFollow : Caller → Event → Type 0
SubscriptionsFollow c ev =
    Follows (is_changed ev "Powered")
      (heard (Core.Adapter.powered_changed true (some (ok powered_changed))) ev)
      (Core.Adapter.powered (some (Wire.Adapter.get_powered (some c))))
    × Follows (is_changed ev "Powered")
        (heard (Core.Device.powered_changed true (some (ok powered_changed))) ev)
        (Core.Device.powered (some (Wire.Device.get_powered (some c))))
    × Follows (is_changed ev "Mode")
        (heard (Core.Device.mode_changed true (some (ok mode_changed))) ev)
        (Core.Device.mode (some (Wire.Device.get_mode (some c))))
    × Follows (is_changed ev "Hidden")
        (heard (Core.KnownNetwork.hidden_changed true (some (ok hidden_changed))) ev)
        (Core.KnownNetwork.hidden (some (Wire.KnownNetwork.get_hidden (some c))))
    × Follows (is_changed ev "AutoConnect")
        (heard (Core.KnownNetwork.auto_connect_changed true (some (ok auto_connect_changed))) ev)
        (Core.KnownNetwork.auto_connect (some (Wire.KnownNetwork.get_auto_connect (some c))))
    × Follows (is_changed ev "Started")
        (heard (Core.AccessPoint.started_changed true (some (ok started_changed))) ev)
        (Core.AccessPoint.started (some (Wire.AccessPoint.get_started (some c))))

-- Through both layers, after an event on an object whose properties are then those before it, less the
-- invalidated ones and with the changed ones put in: a subscription of the core layer that was made for
-- a function, over that of internal/iwdbus, hands on what the getter of the core layer now reads if the
-- event changes the property, and hands on nothing otherwise or where the getter fails. So do the
-- subscriptions to whether an adapter and a device are powered, to the mode of a device, to whether a
-- known network is hidden and connects by itself, and to whether an access point has started.
pub subscriptions_follow :
    (valid : String → Bool) (c : Caller) (all : Iface → Props) (ev : Event)
    → ((i : Iface) → Answers c i (after ev (all i)))
    → SubscriptionsFollow c ev
unfolding Core.Adapter.powered_changed Core.Adapter.powered Core.Device.powered_changed
    Core.Device.powered Core.Device.mode_changed Core.Device.mode Core.KnownNetwork.hidden_changed
    Core.KnownNetwork.hidden Core.KnownNetwork.auto_connect_changed Core.KnownNetwork.auto_connect
    Core.AccessPoint.started_changed Core.AccessPoint.started subscribe get_mode read
subscriptions_follow valid c all ev h =
    let f = properties_follow valid c all ev h in
    let mode = get_mode (some c) in
    let answer = c.get_property (iface_name iface) "Mode" in
    (
      Follows-value _ _ _ _ f.3 (query-ok adapter "Powered" _ (Wire.Adapter.get_powered (some c))),
      Follows-value _ _ _ _ f.4 (query-ok device "Powered" _ (Wire.Device.get_powered (some c))),
      Follows-value _ _ _ _ f.5
          (query-value device "Mode" _ _ mode ∙ read_mode-valid iface "Mode" answer),
      Follows-value _ _ _ _ f.6
          (query-ok known_network "Hidden" _ (Wire.KnownNetwork.get_hidden (some c))),
      Follows-value _ _ _ _ f.7
          (query-ok known_network "AutoConnect" _ (Wire.KnownNetwork.get_auto_connect (some c))),
      Follows-value _ _ _ _ f.8
          (query-ok access_point "Started" _ (Wire.AccessPoint.get_started (some c))),
    )
