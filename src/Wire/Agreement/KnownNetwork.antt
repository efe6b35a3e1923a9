-- ===== src/Wire/Agreement/KnownNetwork.antt =====
-- `GetProperties` of a known network against its getters.
use spiderw.Base.{◌≡◌, refl, some}
use spiderw.Wire.{Props, Result, ok, ◌>>=◌, Caller}
use spiderw.Wire.Agreement.{Answers, value, >>=-value, required-read, optional-read_optional}
use spiderw.Wire.KnownNetwork.{
  Properties, iface, get_name, get_type, get_hidden, get_auto_connect, get_last_connected_time,
  get_properties,
}

-- The properties read by one getter after another.
abbrev pub by_getters : Caller → Result Properties
by_getters c = do
  name ← get_name (some c)
  network_type ← get_type (some c)
  hidden ← get_hidden (some c)
  auto_connect ← get_auto_connect (some c)
  last_connected_time ← get_last_connected_time (some c)
  ok (record {
    name = name;
    network_type = network_type;
    hidden = hidden;
    auto_connect = auto_connect;
    last_connected_time = last_connected_time;
  })

pub get_properties-getters :
    (c : Caller) (all : Props)
    → Answers c iface all
    → value (get_properties (some c)) ≡ value (by_getters c)
unfolding get_properties get_name get_type get_hidden get_auto_connect get_last_connected_time
get_properties-getters c all h =
    rw (h.gets_all, get_properties)
      (>>=-value _ _ _ _ (required-read h "Name" _) λ name.
        >>=-value _ _ _ _ (required-read h "Type" _) λ network_type.
          >>=-value _ _ _ _ (required-read h "Hidden" _) λ hidden.
            >>=-value _ _ _ _ (required-read h "AutoConnect" _) λ auto_connect.
              >>=-value _ _ _ _ (optional-read_optional h "LastConnectedTime" _ _)
                λ last_connected_time. refl)
