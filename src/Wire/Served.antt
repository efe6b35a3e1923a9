-- ===== src/Wire/Served.antt =====
-- An object of iwd that answers from given properties, for tests.
use spiderw.Base.{Bool, true, ◌≡◌, refl, none, some, String, []}
use spiderw.Errors.{plain}
use spiderw.Wire.{Value, Props, lookup, Iface, Caller, Result, ok, failed}
use spiderw.Wire.Agreement.{Answers}

-- An object with the given properties on each interface.
abbrev property_of : Props → String → Result Value
property_of all prop = elim (lookup prop all) [
  | none ↦ failed (some (plain "unknown property"))
  | some v ↦ ok v
]

abbrev pub served : Props → Caller
served all = record {
  call = λ iface method args. ok [];
  get_property = λ iface prop. property_of all prop;
  get_all = λ iface. ok all;
  set_property = λ iface prop v. none;
  is_unknown_property = λ e. true;
}

property_of-some :
    (all : Props) (prop : String) (v : Value)
    → lookup prop all ≡ some v
    → property_of all prop ≡ ok v
property_of-some all prop v h = rw (h, property_of) refl

property_of-none :
    (all : Props) (prop : String)
    → lookup prop all ≡ none
    → property_of all prop ≡ failed (some (plain "unknown property"))
property_of-none all prop h = rw (h, property_of) refl

pub served-Answers : (all : Props) (i : Iface) → Answers (served all) i all
served-Answers all i = record {
  gets_all = refl;
  gets = λ prop v h. property_of-some all prop v h;
  lacks = λ prop h. (some (plain "unknown property"), property_of-none all prop h, refl);
}

abbrev pub valid : String → Bool
valid p = true
