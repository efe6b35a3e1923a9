-- ===== src/Core/Agreement/AccessPoint.antt =====
-- `Properties` of an access point against its getters.
use spiderw.Base.{◌≡◌, refl, sym, ◌∙◌, some, String}
use spiderw.Wire.{Props, Result, ok, failed, ◌>>=◌, Caller}
use spiderw.Wire.Agreement.{Answers, value, >>=-value}
use spiderw.Wire.AccessPoint.{
  Properties, iface, get_started, get_scanning, get_name, get_frequency, get_pairwise_ciphers,
  get_group_cipher, get_properties,
}
use spiderw.Wire.Agreement.AccessPoint.{get_properties-getters}
use spiderw.Core.AccessPoint.{
  access_point, started, scanning, name, frequency, pairwise_ciphers, group_cipher, properties,
}
use spiderw.Core.{query}
use spiderw.Core.Agreement.{query-value}

-- The properties read by one getter of the core layer after another.
abbrev pub by_getters : Caller → Result Properties
by_getters c = do
  is_started ← started (some (get_started (some c)))
  is_scanning ← scanning (some (get_scanning (some c)))
  its_name ← name (some (get_name (some c)))
  its_frequency ← frequency (some (get_frequency (some c)))
  pairwise ← pairwise_ciphers (some (get_pairwise_ciphers (some c)))
  group ← group_cipher (some (get_group_cipher (some c)))
  ok (record {
    started = is_started;
    scanning = is_scanning;
    name = its_name;
    frequency = its_frequency;
    pairwise_ciphers = pairwise;
    group_cipher = group;
  })

>>=-ok : {A : Type 0} (r : Result A) → value (r >>= ok) ≡ value r
>>=-ok (ok a) = refl
>>=-ok (failed e) = refl

query-ok :
    {A : Type 0} (field details : String) (r : Result A)
    → value r ≡ value (query access_point field details (some r) ok)
query-ok field details r = sym (query-value access_point field details ok r ∙ >>=-ok r)

pub properties-getters :
    (c : Caller) (all : Props)
    → Answers c iface all
    → value (properties (some (get_properties (some c)))) ≡ value (by_getters c)
unfolding properties started scanning name frequency pairwise_ciphers group_cipher
properties-getters c all h =
    query-value access_point "Properties" "failed querying iwd AccessPoint properties" ok
      (get_properties (some c))
    ∙ >>=-ok (get_properties (some c))
    ∙ get_properties-getters c all h
    ∙ >>=-value _ _ _ _ (query-ok "Started" _ (get_started (some c))) λ s.
      >>=-value _ _ _ _ (query-ok "Scanning" _ (get_scanning (some c))) λ sc.
        >>=-value _ _ _ _ (query-ok "Name" _ (get_name (some c))) λ n.
          >>=-value _ _ _ _ (query-ok "Frequency" _ (get_frequency (some c))) λ f.
            >>=-value _ _ _ _ (query-ok "PairwiseCiphers" _ (get_pairwise_ciphers (some c))) λ p.
              >>=-value _ _ _ _ (query-ok "GroupCipher" _ (get_group_cipher (some c))) λ g. refl
