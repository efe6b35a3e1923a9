-- ===== src/Cli/Monitored.antt =====
-- The line that the monitor prints at the start, from a bundle, against those that it prints at changes.
use spiderw.Base.{
  true, false, ◌≡◌, refl, arith, none, some, String, Bool-cases, inl, inr, if◌then◌else◌,
}
use spiderw.Base.Text.{is_blank, trim_space}
use spiderw.Errors.{Error, wrap_invalid_state, new_error}
use spiderw.Wire.Parse.{as_string}
use spiderw.Wire
use spiderw.Wire.{text, Caller, Result, ok, failed, iface_name, read}
use spiderw.Wire.Tree.{Objects, string_prop, iface_of, network_name}
use spiderw.Network
use spiderw.Public
use spiderw.Public.{delegate}
use spiderw.Public.Refs.{network_ref_of}
use spiderw.Cli
use spiderw.Cli.{Lookup, readable, readable_ref, network_ref, net_ref_of}

-- The name of a network through the three layers.
abbrev pair_of : Result String → String × Error
pair_of (ok s) = (s, none)
pair_of (failed e) = ("", e)

abbrev result_of : String × Error → Result String
result_of (s, none) = ok s
result_of (s, some e) = failed (some e)

abbrev pub name_at : Caller → Result String
name_at c =
    Public.Network.name
      (some (result_of (Network.name (some (pair_of (Wire.Network.get_name (some c)))))))

-- A client whose networks answer as `callers` does for their paths.
abbrev pub looked_up : (String → Caller) → Lookup
looked_up callers path = ok (some (name_at (callers path)))

abbrev pub text_or : String → String → String
text_or path s = if is_blank s then path else s

blank-empty : (t : String) → is_blank t ≡ true → ◌≡◌ {A = String} "" t
blank-empty String.[] h = refl
blank-empty (String.◌∷◌ c t) h = ground (arith, h)

-- The name of a network with the SSID `s`.
core_name-trim_space :
    (s : String)
    → Cli.named_by
        (ok (some (Public.Network.name (some (result_of (Network.name (some (s, none))))))))
      ≡ trim_space s
unfolding Public.Network.name Network.name delegate wrap_invalid_state new_error
core_name-trim_space s = elim (Bool-cases (is_blank (trim_space s))) [
  | inl b ↦ rw (b, Network.name) (blank-empty (trim_space s) b)
  | inr b ↦ rw (b, Network.name) refl
]

name_at-trim_space :
    (c : Caller) (s : String)
    → c.get_property (iface_name Wire.Network.iface) "Name" ≡ ok (text s)
    → Cli.named_by (ok (some (name_at c))) ≡ trim_space s
unfolding Wire.Network.get_name read as_string
name_at-trim_space c s h =
    let q : Wire.Network.get_name (some c) ≡ ok s = rw (h, Wire.Network.get_name, read) refl in
    rw (q) (core_name-trim_space s)

-- For a network with the SSID `s` in the object tree of a bundle and in the answer of its object: the
-- line that a monitor prints from the bundle shows `s`, and a line that it prints at a change shows `s`
-- without the white space around it. Either shows the path instead of an empty text.
pub seed_and_changes :
    (objects : Objects) (callers : String → Caller) (path s absent : String)
    → is_blank path ≡ false
    → string_prop (some objects) path (iface_of "Network") "Name" ≡ some s
    → (callers path).get_property (iface_name Wire.Network.iface) "Name" ≡ ok (text s)
    → (readable_ref (net_ref_of (some (network_ref_of (some objects) path))) absent
        ≡ text_or path s)
      × (readable_ref (network_ref (some (looked_up callers)) (some path)) absent
          ≡ text_or path (trim_space s))
unfolding readable_ref readable net_ref_of network_ref network_ref_of network_name
seed_and_changes objects callers path s absent b t h =
    (rw (t) refl, rw (b, name_at-trim_space (callers path) s h) refl)
