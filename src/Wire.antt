-- ===== src/Wire.antt =====
-- internal/iwdbus: how an object of iwd is read and written. `Caller` is the interface of
-- internal/iwdbus/caller.go, which introspect.go implements over godbus; `Value` is a Go value of
-- the type `interface{}` with the dynamic types that the program asks for.
pub mod Parse
pub mod Station
pub mod Network
pub mod Adapter
pub mod Device
pub mod KnownNetwork
pub mod AccessPoint
pub mod Small
pub mod Introspected
pub mod Agreement
pub mod Events
pub mod Tree
pub mod Daemon
pub mod Enumerate
pub mod Served
mod Tests
use spiderw.Base.{
  ℕ, ℤ, Bool, false, ◌||◌, Option, none, some, String, ◌<>◌, List, [], ◌∷◌, str_eq, if◌then◌else◌,
}
use spiderw.Errors.{Error, Object, sentinel, bus_uninitialized, plain, iwd_service}
use spiderw.Errors.{
  wrap_connection, wrap_property, wrap_variant, wrap_iwd_method, wrap_iwd_property,
}

-- `slice` is a []interface{}, `variant` a dbus.Variant inside a value, `variants` a
-- map[string]dbus.Variant with the `Value()` of each variant, `dictionary` a map[string]interface{},
-- and `other` a value of any type that the program does not ask for.
mutual
  pub data Value : Type 0 where
    nil : Value
    text : String → Value
    object_path : String → Value
    boolean : Bool → Value
    uint32 : ℕ → Value
    int16 : ℤ → Value
    texts : List String → Value
    object_paths : List String → Value
    slice : Items → Value
    variant : Value → Value
    variants : Fields → Value
    dictionary : Fields → Value
    other : Value

  pub data Items : Type 0 where
    no_items : Items
    item : Value → Items → Items

  pub data Fields : Type 0 where
    no_fields : Fields
    field : String → Value → Fields → Fields

-- A map[string]dbus.Variant, with the `Value()` of each variant.
abbrev pub Props : Type 0
Props = List (String × Value)

abbrev pub fields_of : Fields → Props
fields_of no_fields = []
fields_of (field k v fs) = (k, v) ∷ fields_of fs

unfoldable pub lookup {ℓ} : {A : Type ℓ} → String → List (String × A) → Option A
lookup k [] = none
lookup k ((j, v) ∷ m) = if str_eq j k then some v else lookup k m

-- `slices.Contains`.
unfoldable pub contains : List String → String → Bool
contains [] m = false
contains (x ∷ xs) m = str_eq x m || contains xs m

-- A value, or an error that is not nil; the value that Go returns beside an error is not read.
pub data Result (A : Type 0) : Type 0 where
  ok : A → Result A
  failed : Error → Result A

infixl 5 ◌>>=◌
abbrev pub ◌>>=◌ : {A B : Type 0} → Result A → (A → Result B) → Result B
ok a >>= f = f a
failed e >>= f = failed e

-- `is_unknown_property` is the test of `isUnknownPropertyError` (utils.go) on the text of an error.
pub record Caller : Type 0 where
  pub call : String → String → List Value → Result (List Value)
  pub get_property : String → String → Result Value
  pub get_all : String → Result Props
  pub set_property : String → String → Value → Error
  pub is_unknown_property : Error → Bool

-- What tells the objects apart: the last part of the interface's name, and the object that its
-- errors name.
pub record Iface : Type 0 where
  pub noun : String
  pub object : Object

abbrev pub iface_name : Iface → String
iface_name i = iwd_service <> "." <> i.noun

-- `ensureInitialized` of an object whose field `call` is nil, as its callers wrap it.
abbrev pub uninitialized : Iface → Error
uninitialized i =
    wrap_connection (i.noun <> ".ensureInitialized") (some (sentinel (bus_uninitialized i.object)))

-- A getter of a property, for the function that makes a value of its type.
abbrev pub read_answer :
    {A : Type 0} → Iface → String → (Value → Result A) → Result Value → Result A
read_answer i prop parse (failed e) = failed (wrap_property (iface_name i) prop e)
read_answer i prop parse (ok v) = parse v

unfoldable pub read : {A : Type 0} → Iface → String → (Value → Result A) → Option Caller → Result A
unfolding wrap_property
read i prop parse none = failed (uninitialized i)
read i prop parse (some c) = read_answer i prop parse (c.get_property (iface_name i) prop)

-- A getter of an optional property; `absent` is what an absent one reads as.
abbrev pub read_optional_answer :
    {A : Type 0} → Caller → Iface → String → A → (Value → Result A) → Result Value → Result A
read_optional_answer c i prop absent parse (failed e) =
    if c.is_unknown_property e then ok absent else failed (wrap_property (iface_name i) prop e)
read_optional_answer c i prop absent parse (ok v) = parse v

unfoldable pub read_optional :
    {A : Type 0} → Iface → String → A → (Value → Result A) → Option Caller → Result A
unfolding wrap_property
read_optional i prop absent parse none = failed (uninitialized i)
read_optional i prop absent parse (some c) =
    read_optional_answer c i prop absent parse (c.get_property (iface_name i) prop)

-- The start of `GetProperties`, and the lookup of a property that it requires and of one that it
-- does not.
unfoldable pub read_all : {A : Type 0} → Iface → (Props → Result A) → Option Caller → Result A
unfolding wrap_property
read_all i next none = failed (uninitialized i)
read_all i next (some c) = elim (c.get_all (iface_name i)) [
  | failed e ↦ failed (wrap_property (iface_name i) "GetAll" e)
  | ok raw ↦ next raw
]

unfoldable pub required : {A : Type 0} → Iface → Props → String → (Value → Result A) → Result A
unfolding lookup wrap_property
required i raw prop parse = elim (lookup prop raw) [
  | none ↦ failed (wrap_property (iface_name i) prop (some (plain "missing required property")))
  | some v ↦ parse v
]

unfoldable pub optional : {A : Type 0} → Props → String → A → (Value → Result A) → Result A
unfolding lookup
optional raw prop absent parse = elim (lookup prop raw) [ none ↦ ok absent | some v ↦ parse v ]

-- A setter, and a method whose reply is not read.
unfoldable pub write : Iface → String → Value → Option Caller → Error
unfolding wrap_iwd_property
write i prop v none = uninitialized i
write i prop v (some c) =
    wrap_iwd_property (iface_name i) prop (c.set_property (iface_name i) prop v)

abbrev pub error_of : {A : Type 0} → Result A → Error
error_of (ok a) = none
error_of (failed e) = e

unfoldable pub invoke : Iface → String → List Value → Option Caller → Error
unfolding wrap_iwd_method
invoke i method args none = uninitialized i
invoke i method args (some c) =
    wrap_iwd_method (iface_name i) method (error_of (c.call (iface_name i) method args))

-- A method whose reply `store` decodes, which stands for `dbus.Store`.
abbrev pub fetched :
    {A : Type 0} → Iface → String → (List Value → Result A) → Result (List Value) → Result A
fetched i method store (failed e) = failed (wrap_iwd_method (iface_name i) method e)
fetched i method store (ok body) = elim (store body) [
  | failed e ↦ failed (wrap_variant method (some (plain "unexpected reply shape")))
  | ok x ↦ ok x
]

unfoldable pub fetch :
    {A : Type 0} → Iface → String → (List Value → Result A) → Option Caller → Result A
unfolding wrap_iwd_method wrap_variant
fetch i method store none = failed (uninitialized i)
fetch i method store (some c) = fetched i method store (c.call (iface_name i) method [])
