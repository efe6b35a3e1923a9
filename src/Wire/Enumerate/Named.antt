-- ===== src/Wire/Enumerate/Named.antt =====
-- The names in an enumeration are those that the object tree gives.
use spiderw.Base.{
  Bool, true, ◌≡◌, refl, sym, ◌∙◌, arith, Option, none, some, String, List, [], ◌∷◌, map, All,
  str_eq, str_eq_iff, Bool-cases, Option-cases, inl, inr,
}
use spiderw.Base.Text.{is_blank, trim_space}
use spiderw.Daemon.{Ref}
use spiderw.Wire.{
  Value, nil, text, object_path, boolean, uint32, int16, texts, object_paths, slice, variant,
  variants, dictionary, other, Props, lookup, Result, ok, failed,
}
use spiderw.Wire.Agreement.{value}
use spiderw.Wire.Tree.{
  Interfaces, Objects, iface_of, string_prop, string_of, string_in, string_value,
}
use spiderw.Wire.Daemon.{object_name, bad_path, named}
use spiderw.Wire.Enumerate.{
  Entry, MakeRef, insert_entry, sort_entries, add_entry, collect_entries, ref_of, refs_of, get_refs,
  enumerate, make_named, with_name, get_named, str_lt, props_of,
}
use spiderw.Wire.Enumerate.Reordered.{Differs, AreDistinct}

abbrev Found : Objects → String × Interfaces → Type 0
Found objects o = lookup o.0 objects ≡ some o.1

Found-more :
    (a : String × Interfaces) (objects xs : Objects)
    → Differs a xs
    → All (Found objects) xs
    → All (Found (a ∷ objects)) xs
unfolding lookup
Found-more a objects [] d h = tt
Found-more a objects (b ∷ xs) (ne, d) (p, h) = elim (Bool-cases (str_eq a.0 b.0)) [
  | inl e ↦ absurd (ne ((str_eq_iff a.0 b.0).0 e))
  | inr e ↦ (rw (e, lookup) p, Found-more a objects xs d h)
]

AreDistinct-Found : (xs : Objects) → AreDistinct xs → All (Found xs) xs
unfolding lookup
AreDistinct-Found [] d = tt
AreDistinct-Found (a ∷ xs) (p, d) =
    let same : str_eq a.0 a.0 ≡ true = (str_eq_iff a.0 a.0).1 refl in
    (rw (same) refl, Found-more a xs xs p (AreDistinct-Found xs d))

module _ (P : Entry → Type 0) where
  insert_entry-All : (e : Entry) (es : List Entry) → P e → All P es → All P (insert_entry e es)
  unfolding insert_entry
  insert_entry-All e [] p h = (p, tt)
  insert_entry-All e (f ∷ fs) p h = elim (Bool-cases (str_lt f.0 e.0)) [
    | inl l ↦ rw (l) (h.0, insert_entry-All e fs p h.1)
    | inr l ↦ rw (l) (p, h)
  ]

  sort_entries-All : (es : List Entry) → All P es → All P (sort_entries es)
  unfolding sort_entries
  sort_entries-All [] h = tt
  sort_entries-All (e ∷ es) h = insert_entry-All e (sort_entries es) h.0 (sort_entries-All es h.1)

All-map :
    (Q : Ref → Type 0) (es : List Entry) → All (λ (e : Entry). Q e.1) es → All Q (map ref_of es)
All-map Q [] h = tt
All-map Q (e ∷ es) h = (h.0, All-map Q es h.1)

-- The object tree has the reference's name, with white space around it, at its path.
abbrev pub IsNamed : String → String → Objects → Ref → Type 0
IsNamed iface prop objects r =
    (s : String) × (string_prop (some objects) r.path iface prop ≡ some s) × (trim_space s ≡ r.name)

-- What a value found for the property tells of the reference that is made of it.
abbrev Tells : String → Option Value → Ref → Type 0
Tells path none r = ⊥
Tells path (some v) r =
    (r.path ≡ path) × ((s : String) × (string_value v ≡ some s) × (trim_space s ≡ r.name))

named-Tells :
    (path prop : String) (found : Option Value) (r : Ref)
    → with_name path (named prop found) ≡ ok r
    → Tells path found r
named-Tells path prop none r h = absurd (ground (arith, h))
named-Tells path prop (some (text s)) r h = elim (Bool-cases (is_blank (trim_space s))) [
  | inl b ↦ let q : failed _ ≡ ok r = rw (b) at h in absurd (ground (arith, q))
  | inr b ↦
      let q : ok (record { path = path; name = trim_space s }) ≡ ok r = rw (b) at h in
      (ground (arith, q), (s, refl, ground (arith, q)))
]
named-Tells path prop (some nil) r h = absurd (ground (arith, h))
named-Tells path prop (some (object_path x)) r h = absurd (ground (arith, h))
named-Tells path prop (some (boolean x)) r h = absurd (ground (arith, h))
named-Tells path prop (some (uint32 x)) r h = absurd (ground (arith, h))
named-Tells path prop (some (int16 x)) r h = absurd (ground (arith, h))
named-Tells path prop (some (texts x)) r h = absurd (ground (arith, h))
named-Tells path prop (some (object_paths x)) r h = absurd (ground (arith, h))
named-Tells path prop (some (slice x)) r h = absurd (ground (arith, h))
named-Tells path prop (some (variant x)) r h = absurd (ground (arith, h))
named-Tells path prop (some (variants x)) r h = absurd (ground (arith, h))
named-Tells path prop (some (dictionary x)) r h = absurd (ground (arith, h))
named-Tells path prop (some other) r h = absurd (ground (arith, h))

module _ (valid : String → Bool) (iface prop : String) (objects : Objects) where
  abbrev make : MakeRef
  make = make_named valid iface prop

  string_prop_found :
      (path : String) (ifaces : Interfaces) (props : Props) (v : Value)
      → lookup path objects ≡ some ifaces
      → lookup iface ifaces ≡ some props
      → lookup prop props ≡ some v
      → string_prop (some objects) path iface prop ≡ string_value v
  unfolding string_prop
  string_prop_found path ifaces props v f l n = rw (f, l, n, string_prop, string_of, string_in) refl

  made-IsNamed :
      (path : String) (ifaces : Interfaces) (props : Props) (r : Ref)
      → lookup path objects ≡ some ifaces
      → lookup iface ifaces ≡ some props
      → with_name path (object_name valid prop path props) ≡ ok r
      → IsNamed iface prop objects r
  unfolding object_name string_prop
  made-IsNamed path ifaces props r f l h = elim (Bool-cases (bad_path valid path)) [
    | inl b ↦
        let q : with_name path (failed _) ≡ ok r = rw (b, object_name) at h in
        absurd (ground (arith, q))
    | inr b ↦
        let q : with_name path (named prop (lookup prop props)) ≡ ok r = rw (b, object_name) at h in
        elim (Option-cases (lookup prop props)) [
          | inl n ↦
              let t : Tells path none r = named-Tells path prop none r (rw (n) at q) in absurd t
          | inr (v, n) ↦
              let t : Tells path (some v) r = named-Tells path prop (some v) r (rw (n) at q) in
              let (e, w) = t in
              (w.0, rw (e) (string_prop_found path ifaces props v f l n ∙ w.1), w.2)
        ]
  ]

add_entry-ok :
    (path : String) (made : Result Ref) (rest : Result (List Entry)) (es : List Entry)
    → add_entry path made rest ≡ ok es
    → (r : Ref) × ((es' : List Entry) × (made ≡ ok r) × (rest ≡ ok es') × (es ≡ (path, r) ∷ es'))
add_entry-ok path (failed e) rest es h = absurd (ground (arith, h))
add_entry-ok path (ok r) (failed e) es h = absurd (ground (arith, h))
add_entry-ok path (ok r) (ok es') es h = (r, (es', refl, refl, ground (arith, h)))

module _ (valid : String → Bool) (iface prop : String) (objects : Objects) where
  collect_entries-IsNamed :
      (xs : Objects) (es : List Entry)
      → All (Found objects) xs
      → collect_entries iface (make_named valid iface prop) xs ≡ ok es
      → All (λ (e : Entry). IsNamed iface prop objects e.1) es
  unfolding collect_entries make_named
  collect_entries-IsNamed [] es f h = let e : [] ≡ es = ground (arith, h) in rw (sym e) tt
  collect_entries-IsNamed ((path, ifaces) ∷ xs) es (f, fs) h =
      elim (Option-cases (lookup iface ifaces)) [
        | inl n ↦ collect_entries-IsNamed xs es fs (rw (n, collect_entries) at h)
        | inr (props, l) ↦
            let (r, w) = add_entry-ok path _ _ es (rw (l, collect_entries) at h) in
            let q : with_name path (object_name valid prop path (props_of (lookup iface ifaces)))
                ≡ ok r =
              w.1 in
            let head =
              made-IsNamed valid iface prop objects path ifaces props r f l (rw (l) at q) in
            let tail = collect_entries-IsNamed xs w.0 fs w.2 in rw (w.3) (head, tail)
      ]

refs_of-All :
    (Q : Ref → Type 0) (r : Result (List Entry)) (refs : List Ref)
    → ((es : List Entry) → r ≡ ok es → All (λ (e : Entry). Q e.1) es)
    → value (refs_of r) ≡ some refs
    → All Q refs
unfolding sort_entries
refs_of-All Q (failed e) refs f h = absurd (ground (arith, h))
refs_of-All Q (ok es) refs f h =
    let q : map ref_of (sort_entries es) ≡ refs = ground (arith, h) in
    rw (q) at (All-map Q (sort_entries es) (sort_entries-All (λ e. Q e.1) es (f es refl)))

-- Every reference that `GetAdapters`, `GetDevices`, `GetNetworks` or `GetKnownNetworks` returns for
-- the managed objects has the name that the object tree of the same objects gives for its path,
-- without the white space around it.
pub get_named-IsNamed :
    (valid : String → Bool) (op noun : String) (objects : Objects) (refs : List Ref)
    → AreDistinct objects
    → value (get_named valid op noun (some true) (ok objects)) ≡ some refs
    → All (IsNamed (iface_of noun) "Name" objects) refs
unfolding get_named get_refs enumerate
get_named-IsNamed valid op noun objects refs d h =
    refs_of-All (IsNamed (iface_of noun) "Name" objects) _ refs
      (λ es q.
        collect_entries-IsNamed valid (iface_of noun) "Name" objects objects es
          (AreDistinct-Found objects d) q)
      h
