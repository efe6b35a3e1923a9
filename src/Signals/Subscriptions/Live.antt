-- ===== src/Signals/Subscriptions/Live.antt =====
-- The abstract view: the live subscriptions, oldest first, with the pattern of each.
use spiderw.Base.{ℕ, Bool, ◌&&◌, ◌||◌, Option, none, some, List, [], ◌∷◌, ◌++◌}
use spiderw.Base.{◌≡◌, refl, arith, ◌==◌, if◌then◌else◌}
use spiderw.Base.Text.{Text, text_eq}
use spiderw.Signals.Registry.{Handler, Table, bucket_of, is_star, remove_handler}
use spiderw.Signals.Subscriptions.Maps.{same_place}

-- A pattern, either part of which may be "*", with the handler that was stored for it.
pub record Live : Type 0 where
  pub iface : Text
  pub member : Text
  pub handler : Handler

abbrev pub place : Live → Table × Text
place s = bucket_of s.iface s.member

-- The handlers that stand at one place of the maps.
unfoldable pub standing : Table × Text → List Live → List Handler
standing b [] = []
standing b (s ∷ live) =
    let rest = standing b live in if same_place (place s) b then s.handler ∷ rest else rest

-- The live list without the first subscription of an id, and that subscription.
unfoldable pub drop_id : ℕ → List Live → List Live
drop_id id [] = []
drop_id id (s ∷ live) = let rest = drop_id id live in if s.handler.id == id then live else s ∷ rest

unfoldable pub find_id : ℕ → List Live → Option Live
find_id id [] = none
find_id id (s ∷ live) = let rest = find_id id live in if s.handler.id == id then some s else rest

-- Whether a pattern covers a signal.
abbrev pub covers : Live → Text → Text → Bool
covers s iface member =
    (is_star s.iface || text_eq s.iface iface) && (is_star s.member || text_eq s.member member)

-- The handlers of the patterns that cover a signal.
unfoldable pub covering : Text → Text → List Live → List Handler
covering iface member [] = []
covering iface member (s ∷ live) =
    let rest = covering iface member live in
    if covers s iface member then s.handler ∷ rest else rest

pub standing-append :
    (b : Table × Text) (live : List Live) (s : Live)
    → standing b (live ++ s ∷ [])
      ≡ (if same_place (place s) b then standing b live ++ s.handler ∷ [] else standing b live)
unfolding standing
standing-append b [] s = refl
standing-append b (t ∷ live) s = ground (arith, standing-append b live s)

-- Dropping a subscription takes its handler out of its place, and touches no other place.
pub standing-drop_id :
    (b : Table × Text) (id : ℕ) (live : List Live) (s : Live)
    → find_id id live ≡ some s
    → standing b (drop_id id live)
      ≡ (if same_place (place s) b then remove_handler id (standing b live) else standing b live)
unfolding standing drop_id find_id remove_handler
standing-drop_id b id [] s h = cc
standing-drop_id b id (t ∷ live) s h = ground (arith, standing-drop_id b id live s)

-- An id that is not live stands nowhere.
pub standing-absent :
    (b : Table × Text) (id : ℕ) (live : List Live)
    → find_id id live ≡ none
    → (remove_handler id (standing b live) ≡ standing b live) × (drop_id id live ≡ live)
unfolding standing drop_id find_id remove_handler
standing-absent b id [] h = (refl, refl)
standing-absent b id (t ∷ live) h = ground (arith, standing-absent b id live)
