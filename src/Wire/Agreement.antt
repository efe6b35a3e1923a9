-- ===== src/Wire/Agreement.antt =====
-- `GetProperties` against the getters, for an object that answers Properties.Get and
-- Properties.GetAll from the same values.
pub mod Station
pub mod Network
pub mod Adapter
pub mod Device
pub mod KnownNetwork
pub mod AccessPoint
pub mod Whole
use spiderw.Base.{
  Bool, true, false, ◌≡◌, refl, arith, Option, none, some, String, List, Option-cases, inl, inr,
  if◌then◌else◌,
}
use spiderw.Errors.{Error}
use spiderw.Wire.{
  Value, Props, lookup, Result, ok, failed, ◌>>=◌, Caller, Iface, iface_name, read, read_all,
  read_optional, required, optional, read_answer, read_optional_answer,
}

-- The object behind `c` has the properties `all` on the interface `i`: GetAll gives them, and Get
-- gives each of them, and for any other an error that says that the property has no value.
pub record Answers (c : Caller) (i : Iface) (all : Props) : Type 0 where
  pub gets_all : c.get_all (iface_name i) ≡ ok all
  pub gets :
      (prop : String) (v : Value)
      → lookup prop all ≡ some v
      → c.get_property (iface_name i) prop ≡ ok v
  pub lacks :
      (prop : String)
      → lookup prop all ≡ none
      → (e : Error) × (c.get_property (iface_name i) prop ≡ failed e)
        × (c.is_unknown_property e ≡ true)

-- The value of a result, whatever the error.
abbrev pub value : {A : Type 0} → Result A → Option A
value (ok a) = some a
value (failed e) = none

pub >>=-value :
    {A B : Type 0} (m m' : Result A) (f f' : A → Result B)
    → value m ≡ value m'
    → ((a : A) → value (f a) ≡ value (f' a))
    → value (m >>= f) ≡ value (m' >>= f')
>>=-value (ok a) (ok b) f f' p q = let e : a ≡ b = ground (arith, p) in rw (e) (q b)
>>=-value (ok a) (failed e) f f' p q = absurd (ground (arith, p))
>>=-value (failed e) (ok b) f f' p q = absurd (ground (arith, p))
>>=-value (failed e) (failed e') f f' p q = refl

module _ {c : Caller} {i : Iface} {all : Props} (h : Answers c i all) where
  pub required-read :
      {A : Type 0} (prop : String) (parse : Value → Result A)
      → value (required i all prop parse) ≡ value (read i prop parse (some c))
  unfolding required read
  required-read prop parse = elim (Option-cases (lookup prop all)) [
    | inl n ↦ let (e, q, u) = h.lacks prop n in rw (n, q, required) refl
    | inr (v, s) ↦ rw (s, h.gets prop v s, required) refl
  ]

  pub optional-read_optional :
      {A : Type 0} (prop : String) (absent : A) (parse : Value → Result A)
      → value (optional all prop absent parse) ≡ value (read_optional i prop absent parse (some c))
  unfolding optional read_optional
  optional-read_optional prop absent parse = elim (Option-cases (lookup prop all)) [
    | inl n ↦ let (e, q, u) = h.lacks prop n in rw (n, q, u, optional) refl
    | inr (v, s) ↦ rw (s, h.gets prop v s, optional) refl
  ]

  pub read_all-next : {A : Type 0} (next : Props → Result A) → read_all i next (some c) ≡ next all
  unfolding read_all
  read_all-next next = rw (h.gets_all, read_all) refl
