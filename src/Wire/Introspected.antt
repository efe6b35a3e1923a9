-- ===== src/Wire/Introspected.antt =====
-- internal/iwdbus/introspect.go: `Call`, `GetProperty`, `GetAll` and `SetProperty`, the four methods
-- of `caller`, over a bus object of godbus.
use spiderw.Base.{Bool, none, String, ◌<>◌, List, [], ◌∷◌}
use spiderw.Errors.{Error, wrap_method}
use spiderw.Wire.{Value, text, variant, Props, Result, ok, failed, Caller}

-- `CallWithContext` on the object: the reply's body or the error. `store_variant` and
-- `store_variants` stand for `Store` into a variant and into a map of variants.
pub record BusObject : Type 0 where
  pub call : String → List Value → Result (List Value)
  pub store_variant : List Value → Result Value
  pub store_variants : List Value → Result Props

unfoldable pub call_method : BusObject → String → String → List Value → Result (List Value)
unfolding wrap_method
call_method o iface method args = elim (o.call (iface <> "." <> method) args) [
  | failed e ↦ failed (wrap_method iface method e)
  | ok body ↦ ok body
]

-- `Store` on a call, which gives the call's error if there is one.
abbrev stored : {A : Type 0} → (List Value → Result A) → Result (List Value) → Result A
stored store (failed e) = failed e
stored store (ok body) = store body

unfoldable pub get_property : BusObject → String → String → Result Value
get_property o iface prop =
    stored o.store_variant
      (o.call "org.freedesktop.DBus.Properties.Get" (text iface ∷ text prop ∷ []))

unfoldable pub get_all : BusObject → String → Result Props
get_all o iface =
    stored o.store_variants (o.call "org.freedesktop.DBus.Properties.GetAll" (text iface ∷ []))

abbrev set_answer : Result (List Value) → Error
set_answer (failed e) = e
set_answer (ok body) = none

unfoldable pub set_property : BusObject → String → String → Value → Error
set_property o iface prop v =
    set_answer
      (o.call "org.freedesktop.DBus.Properties.Set" (text iface ∷ text prop ∷ variant v ∷ []))

-- The object as the wrappers of internal/iwdbus see it.
unfoldable pub introspected : (Error → Bool) → BusObject → Caller
unfolding call_method get_property get_all set_property
introspected unknown o = record {
  call = call_method o;
  get_property = get_property o;
  get_all = get_all o;
  set_property = set_property o;
  is_unknown_property = unknown;
}
