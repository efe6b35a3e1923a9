-- ===== src/Wire/Agreement/AccessPoint.antt =====
-- `GetProperties` of an access point against its getters.
use spiderw.Base.{◌≡◌, refl, some}
use spiderw.Wire.{Props, Result, ok, ◌>>=◌, Caller}
use spiderw.Wire.Agreement.{Answers, value, >>=-value, required-read, optional-read_optional}
use spiderw.Wire.AccessPoint.{
  Properties, iface, get_started, get_scanning, get_name, get_frequency, get_pairwise_ciphers,
  get_group_cipher, get_properties,
}

-- The properties read by one getter after another.
abbrev pub by_getters : Caller → Result Properties
by_getters c = do
  started ← get_started (some c)
  scanning ← get_scanning (some c)
  name ← get_name (some c)
  frequency ← get_frequency (some c)
  pairwise_ciphers ← get_pairwise_ciphers (some c)
  group_cipher ← get_group_cipher (some c)
  ok (record {
    started = started;
    scanning = scanning;
    name = name;
    frequency = frequency;
    pairwise_ciphers = pairwise_ciphers;
    group_cipher = group_cipher;
  })

pub get_properties-getters :
    (c : Caller) (all : Props)
    → Answers c iface all
    → value (get_properties (some c)) ≡ value (by_getters c)
unfolding get_properties get_started get_scanning get_name get_frequency get_pairwise_ciphers
    get_group_cipher
get_properties-getters c all h =
    rw (h.gets_all, get_properties)
      (>>=-value _ _ _ _ (required-read h "Started" _) λ started.
        >>=-value _ _ _ _ (optional-read_optional h "Scanning" _ _) λ scanning.
          >>=-value _ _ _ _ (optional-read_optional h "Name" _ _) λ name.
            >>=-value _ _ _ _ (optional-read_optional h "Frequency" _ _) λ frequency.
              >>=-value _ _ _ _ (optional-read_optional h "PairwiseCiphers" _ _) λ pairwise_ciphers.
                >>=-value _ _ _ _ (optional-read_optional h "GroupCipher" _ _) λ group_cipher. refl)
