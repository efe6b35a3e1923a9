-- ===== src/Wire/Enumerate/Reordered.antt =====
-- The order in which a Go map is ranged over does not matter to an enumeration.
use spiderw.Base.{
  Bool, true, false, ◌≡◌, refl, sym, ◌∙◌, ap, arith, ◌≢◌, Option, none, some, String, List, [], ◌∷◌,
  map, Option-cases, inl, inr,
}
use spiderw.Daemon.{Ref}
use spiderw.Wire.{Props, lookup, Result, ok, failed}
use spiderw.Wire.Agreement.{value}
use spiderw.Wire.Tree.{Interfaces, Objects}
use spiderw.Wire.Enumerate.{
  Entry, MakeRef, insert_entry, sort_entries, add_entry, collect_entries, ref_of, refs_of, get_refs,
}
use spiderw.Wire.Enumerate.Order.{insert_comm}

-- The same objects in another order.
pub data Reordered : Objects → Objects → Type 0 where
  here : (xs : Objects) → Reordered xs xs
  swap : (a b : String × Interfaces) (xs : Objects) → Reordered (a ∷ b ∷ xs) (b ∷ a ∷ xs)
  under :
      {xs ys : Objects} (a : String × Interfaces) → Reordered xs ys → Reordered (a ∷ xs) (a ∷ ys)
  then_ : {xs ys zs : Objects} → Reordered xs ys → Reordered ys zs → Reordered xs zs

-- The paths are all different, as the keys of a map are.
abbrev pub Differs : String × Interfaces → Objects → Type 0
Differs a [] = Unit {0}
Differs a (b ∷ xs) = (a.0 ≢ b.0) × Differs a xs

abbrev pub AreDistinct : Objects → Type 0
AreDistinct [] = Unit {0}
AreDistinct (a ∷ xs) = Differs a xs × AreDistinct xs

Differs-Reordered :
    {xs ys : Objects} (c : String × Interfaces) → Reordered xs ys → Differs c xs → Differs c ys
Differs-Reordered c (here xs) d = d
Differs-Reordered c (swap a b xs) (p, (q, d)) = (q, (p, d))
Differs-Reordered c (under a r) (p, d) = (p, Differs-Reordered c r d)
Differs-Reordered c (then_ r s) d = Differs-Reordered c s (Differs-Reordered c r d)

AreDistinct-Reordered : {xs ys : Objects} → Reordered xs ys → AreDistinct xs → AreDistinct ys
AreDistinct-Reordered (here xs) d = d
AreDistinct-Reordered (swap a b xs) ((p, q), (r, d)) = (((λ e. p (sym e)), r), (q, d))
AreDistinct-Reordered (under a r) (p, d) = (Differs-Reordered a r p, AreDistinct-Reordered r d)
AreDistinct-Reordered (then_ r s) d = AreDistinct-Reordered s (AreDistinct-Reordered r d)

-- What is left of the loop and the sorting when errors are all the same.
abbrev sorted : Result (List Entry) → Option (List Entry)
sorted (ok es) = some (sort_entries es)
sorted (failed e) = none

-- The same, computed from the results for one object and for the rest.
abbrev put_in : String → Option Ref → Option (List Entry) → Option (List Entry)
put_in path none rest = none
put_in path (some ref) none = none
put_in path (some ref) (some es) = some (insert_entry (path, ref) es)

add_entry-sorted :
    (path : String) (made : Result Ref) (rest : Result (List Entry))
    → sorted (add_entry path made rest) ≡ put_in path (value made) (sorted rest)
unfolding sort_entries
add_entry-sorted path (failed e) rest = refl
add_entry-sorted path (ok ref) (failed e) = refl
add_entry-sorted path (ok ref) (ok es) = refl

put_in_comm :
    (p q : String) (a b : Option Ref) (es : Option (List Entry))
    → p ≢ q
    → put_in p a (put_in q b es) ≡ put_in q b (put_in p a es)
put_in_comm p q none none es ne = refl
put_in_comm p q none (some b) none ne = refl
put_in_comm p q none (some b) (some es) ne = refl
put_in_comm p q (some a) none none ne = refl
put_in_comm p q (some a) none (some es) ne = refl
put_in_comm p q (some a) (some b) none ne = refl
put_in_comm p q (some a) (some b) (some es) ne = ap some (insert_comm (p, a) (q, b) es ne)

-- One round of the loop, for what the lookup of the interface finds, on what is left of the loop.
abbrev round_of : String → Option Ref → Option Props → Option (List Entry) → Option (List Entry)
round_of path made none rest = rest
round_of path made (some props) rest = put_in path made rest

round_of_comm :
    (p q : String) (a b : Option Ref) (f g : Option Props) (es : Option (List Entry))
    → p ≢ q
    → round_of p a f (round_of q b g es) ≡ round_of q b g (round_of p a f es)
round_of_comm p q a b none none es ne = refl
round_of_comm p q a b none (some w) es ne = refl
round_of_comm p q a b (some v) none es ne = refl
round_of_comm p q a b (some v) (some w) es ne = put_in_comm p q a b es ne

module _ (iface : String) (make : MakeRef) where
  abbrev round : String × Interfaces → Option (List Entry) → Option (List Entry)
  round (path, ifaces) rest = round_of path (value (make path ifaces)) (lookup iface ifaces) rest

  collect_entries-round :
      (o : String × Interfaces) (xs : Objects)
      → sorted (collect_entries iface make (o ∷ xs))
        ≡ round o (sorted (collect_entries iface make xs))
  unfolding collect_entries
  collect_entries-round (path, ifaces) xs = elim (Option-cases (lookup iface ifaces)) [
    | inl n ↦ rw (n, collect_entries, round) refl
    | inr (v, s) ↦
        rw (s, collect_entries, round)
          (add_entry-sorted path (make path ifaces) (collect_entries iface make xs))
  ]

  round_comm :
      (a b : String × Interfaces) (es : Option (List Entry))
      → a.0 ≢ b.0
      → round a (round b es) ≡ round b (round a es)
  round_comm (p, f) (q, g) es ne =
      round_of_comm p q (value (make p f)) (value (make q g)) (lookup iface f) (lookup iface g) es
        ne

  sorted-Reordered :
      {xs ys : Objects}
      → Reordered xs ys
      → AreDistinct xs
      → sorted (collect_entries iface make xs) ≡ sorted (collect_entries iface make ys)
  sorted-Reordered (here xs) d = refl
  sorted-Reordered (swap a b xs) d =
      collect_entries-round a (b ∷ xs)
      ∙ ap (round a) (collect_entries-round b xs)
      ∙ round_comm a b (sorted (collect_entries iface make xs)) d.0.0
      ∙ sym (ap (round b) (collect_entries-round a xs))
      ∙ sym (collect_entries-round b (a ∷ xs))
  sorted-Reordered (under {xs = xs} {ys = ys} a r) d =
      collect_entries-round a xs
      ∙ ap (round a) (sorted-Reordered r d.1)
      ∙ sym (collect_entries-round a ys)
  sorted-Reordered (then_ r s) d =
      sorted-Reordered r d ∙ sorted-Reordered s (AreDistinct-Reordered r d)

refs_of-sorted :
    (r : Result (List Entry)) (s : Result (List Entry))
    → sorted r ≡ sorted s
    → value (refs_of r) ≡ value (refs_of s)
unfolding sort_entries
refs_of-sorted (ok es) (ok fs) h =
    let e : sort_entries es ≡ sort_entries fs = ground (arith, h) in
    ap (λ (x : List Entry). some (map ref_of x)) e
refs_of-sorted (ok es) (failed e) h = absurd (ground (arith, h))
refs_of-sorted (failed e) (ok es) h = absurd (ground (arith, h))
refs_of-sorted (failed e) (failed e') h = refl

-- An enumeration of the managed objects returns the same references, in the same order, in whatever
-- order the map of the objects is ranged over, or fails in every order; for any interface and any
-- function that makes a reference.
pub get_refs-Reordered :
    (conn : Bool) (op iface : String) (make : MakeRef) {xs ys : Objects}
    → Reordered xs ys
    → AreDistinct xs
    → value (get_refs conn op iface make (ok xs)) ≡ value (get_refs conn op iface make (ok ys))
unfolding get_refs
get_refs-Reordered false op iface make r d = refl
get_refs-Reordered true op iface make {xs} {ys} r d =
    refs_of-sorted (collect_entries iface make xs) (collect_entries iface make ys)
      (sorted-Reordered iface make r d)
