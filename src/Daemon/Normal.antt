-- ===== src/Daemon/Normal.antt =====
-- The core layer's enumerations: which answers they accept, and that what they return is normal.
use spiderw.Base.{
  Bool, true, false, ◌&&◌, not, ◌≡◌, refl, sym, ◌∙◌, arith, none, some, List, [], ◌∷◌, map,
  if◌then◌else◌, Bool-cases, inl, inr,
}
use spiderw.Base.Text.{is_blank, is_absolute, absolute_not_blank, trim_space, trim_space-trim_space}
use spiderw.Errors.{wrap_invalid_state, new_error}
use spiderw.Errors.Laws.Some.{is_nil}
use spiderw.Outside.{Returned}
use spiderw.Daemon.{Ref, Listing, normalize, prepend, checked_info, Info, info}

abbrev pub trimmed : Ref → Ref
trimmed r = record { path = trim_space r.path; name = trim_space r.name }

-- Whether a reference is usable once it is trimmed.
abbrev pub usable : Listing → Ref → Bool
usable l r = is_absolute (trim_space r.path) && not (l.needs_name && is_blank (trim_space r.name))

abbrev pub all_usable : Listing → List Ref → Bool
all_usable l [] = true
all_usable l (r ∷ rs) = usable l r && all_usable l rs

prepend_usable :
    (r : Ref) (ys : List Ref) (x : Returned (List Ref)) (b : Bool)
    → x.0 ≡ (if b then some ys else none)
    → is_nil x.1 ≡ b
    → ((prepend r x).0 ≡ (if b then some (r ∷ ys) else none)) × (is_nil (prepend r x).1 ≡ b)
prepend_usable r ys (none, e) true p q = absurd (ground (arith, p))
prepend_usable r ys (none, e) false p q = (refl, q)
prepend_usable r ys (some xs, e) true p q = let c : xs ≡ ys = ground (arith, p) in (rw (c) refl, q)
prepend_usable r ys (some xs, e) false p q = absurd (ground (arith, p))

-- The loop of an enumeration accepts an answer exactly when every reference in it is usable, and returns them
-- trimmed and in their order; otherwise it returns nil with an error.
pub normalize_usable :
    (l : Listing) (rs : List Ref)
    → ((normalize l rs).0 ≡ (if all_usable l rs then some (map trimmed rs) else none))
      × (is_nil (normalize l rs).1 ≡ all_usable l rs)
unfolding normalize wrap_invalid_state new_error
normalize_usable l [] = (refl, refl)
normalize_usable l (r ∷ rs) =
    let n = absolute_not_blank (trim_space r.path) in
    let q = normalize_usable l rs in
    elim (Bool-cases (is_absolute (trim_space r.path))) [
      | inr a ↦ elim (Bool-cases (is_blank (trim_space r.path))) [
        | inl b ↦ rw (a, b, normalize) (refl, refl)
        | inr b ↦ rw (a, b, normalize) (refl, refl)
      ]
      | inl a ↦ elim (Bool-cases (l.needs_name && is_blank (trim_space r.name))) [
        | inl m ↦ rw (a, n a, m, normalize) (refl, refl)
        | inr m ↦
            rw (a, n a, m, normalize)
              (prepend_usable (trimmed r) (map trimmed rs) _ (all_usable l rs) q.0 q.1)
      ]
    ]

trimmed-usable : (l : Listing) (rs : List Ref) → all_usable l (map trimmed rs) ≡ all_usable l rs
trimmed-usable l [] = refl
trimmed-usable l (r ∷ rs) =
    rw (trim_space-trim_space r.path, trim_space-trim_space r.name, trimmed-usable l rs) refl

map-trimmed-trimmed : (rs : List Ref) → map trimmed (map trimmed rs) ≡ map trimmed rs
map-trimmed-trimmed [] = refl
map-trimmed-trimmed (r ∷ rs) =
    rw (trim_space-trim_space r.path, trim_space-trim_space r.name, map-trimmed-trimmed rs) refl

chosen_some :
    (b : Bool) (xs ys : List Ref) → (if b then some xs else none) ≡ some ys → (b ≡ true) × (ys ≡ xs)
chosen_some true xs ys h = (refl, ground arith)
chosen_some false xs ys h = absurd (ground arith)

-- What the loop of an enumeration returns is normal: given to the loop once more, it is accepted and
-- stays the same.
pub normalize-normalize :
    (l : Listing) (rs ys : List Ref)
    → (normalize l rs).0 ≡ some ys
    → ((normalize l ys).0 ≡ some ys) × (is_nil (normalize l ys).1 ≡ true)
normalize-normalize l rs ys h =
    let (p, q) = normalize_usable l rs in
    let (good, same) = chosen_some (all_usable l rs) (map trimmed rs) ys (sym p ∙ h) in
    let stays : map trimmed ys ≡ ys = rw (same) (map-trimmed-trimmed rs) in
    let good' : all_usable l ys ≡ true = rw (same) (trimmed-usable l rs ∙ good) in
    let (p', q') = normalize_usable l ys in (p' ∙ rw (good', stays) refl, q' ∙ good')

-- `Info` returns the trimmed answer exactly when the version is not empty and the state directory is
-- an absolute path once they are trimmed; otherwise it returns nil with an error.
info_valid :
    (r : Info)
    → ((info (some (some r, none))).0 ≡ (
        if is_absolute (trim_space r.state_directory) && not (is_blank (trim_space r.version))
        then some (record {
          version = trim_space r.version;
          state_directory = trim_space r.state_directory;
          network_configuration_enabled = r.network_configuration_enabled;
        })
        else none))
      × (is_nil (info (some (some r, none))).1
          ≡ (is_absolute (trim_space r.state_directory) && not (is_blank (trim_space r.version))))
unfolding info checked_info wrap_invalid_state new_error
info_valid r = elim (Bool-cases (is_blank (trim_space r.version))) [
  | inl v ↦ elim (Bool-cases (is_absolute (trim_space r.state_directory))) [
    | inl a ↦ rw (v, a, info, checked_info) (refl, refl)
    | inr a ↦ rw (v, a, info, checked_info) (refl, refl)
  ]
  | inr v ↦ elim (Bool-cases (is_absolute (trim_space r.state_directory))) [
    | inl a ↦
        let n = absolute_not_blank (trim_space r.state_directory) a in
        rw (v, a, n, info, checked_info) (refl, refl)
    | inr a ↦ elim (Bool-cases (is_blank (trim_space r.state_directory))) [
      | inl n ↦ rw (v, a, n, info, checked_info) (refl, refl)
      | inr n ↦ rw (v, a, n, info, checked_info) (refl, refl)
    ]
  ]
]
