-- ===== src/Signals/Subscriptions/Names.antt =====
-- Full signal names, their keys in the maps, and splitSignalName of internal/iwdbus/utils.go.
use spiderw.Base.{List, [], ◌∷◌, ◌++◌}
use spiderw.Base.{◌≡◌, ◌≢◌, ◌∙◌, refl, ap, sym, arith, inl, inr}
use spiderw.Base.Text.{Text, IsDotless, split_dots, join_dots, all_but_last, last_or}
use spiderw.Base.Text.{
  split_dots-append_dotless, join_dots-split_dots, all_but_last-append, last_or-append, List-cases,
  split_dots-ne-nil,
}
use spiderw.Signals.Registry.{star, full_name, split_signal_name, name_of_parts}

-- A member name, or a pattern for one: not empty, and with no dot.
pub star-IsDotless : IsDotless star
star-IsDotless = omega arith

pub dotless-ne-full : (iface member s : Text) → IsDotless s → s ≢ full_name iface member
dotless-ne-full [] member [] h e = cc
dotless-ne-full [] member (d ∷ s) h e = ground (arith, h.0, e)
dotless-ne-full (c ∷ iface) member [] h e = cc
dotless-ne-full (c ∷ iface) member (d ∷ s) h e =
    dotless-ne-full iface member s h.1 (ground (arith, e))

-- The two parts of a full name, from its parts between dots.
recover : Text → Text × Text
recover name = (join_dots (all_but_last (split_dots name)), last_or [] (split_dots name))

recover-full_name :
    (iface member : Text) → IsDotless member → recover (full_name iface member) ≡ (iface, member)
unfolding recover
recover-full_name iface member h = rw (
  split_dots-append_dotless iface member h,
  all_but_last-append,
  join_dots-split_dots,
  last_or-append,
)

pub full_name-injective :
    (i j m n : Text) → IsDotless m → IsDotless n → full_name i m ≡ full_name j n → (i ≡ j) × (m ≡ n)
full_name-injective i j m n hm hn e =
    ground (arith, recover-full_name i m hm, recover-full_name j n hn, ap recover e)

name_of_parts-append :
    (name p : Text) (ps : List Text) (m : Text)
    → name_of_parts name ((p ∷ ps) ++ m ∷ []) ≡ (join_dots (p ∷ ps), m)
name_of_parts-append name p [] m = refl
name_of_parts-append name p (q ∷ ps) m =
    rw (all_but_last-append (p ∷ q ∷ ps) m, last_or-append [] (p ∷ q ∷ ps) m)

-- `splitSignalName` takes the full name of an interface and a member with no dot apart again.
pub split_signal_name-full_name :
    (iface member : Text)
    → IsDotless member
    → split_signal_name (full_name iface member) ≡ (iface, member)
unfolding split_signal_name
split_signal_name-full_name iface member h = elim (List-cases (split_dots iface)) [
  | inl n ↦ absurd (split_dots-ne-nil iface n)
  | inr (p, ps, q) ↦
      rw (split_dots-append_dotless iface member h, q)
        (name_of_parts-append _ p ps member
          ∙ ap (λ i. (i, member)) (ap join_dots (sym q) ∙ join_dots-split_dots iface))
]
