-- ===== src/Conf/RequestTypes.antt =====
-- The request types that a line configures (`CRequestTypeConf::_get_line`).
use relay_proxy.Base.{
  ◌++◌, ◌≡◌, inl, inr, refl, ◌∙◌, ℤ, Bytes, codes, eqb, Bool, if◌then◌else◌, Option, none, some,
  List, [], ◌∷◌, find, insert, find-insert, bytes_key, Bool-cases, Option-cases,
}
use relay_proxy.Client.{RequestConf}
use relay_proxy.Conf.{RequestTypes, add_keys}

abbrev pub conf_for : ℤ → Bool → Bytes → RequestConf
conf_for site_no is_binary service = record {
  site_no = site_no;
  service_name = service;
  is_binary = is_binary;
}

-- The service of the last sub key that gives the key `j`.
pub last_service : (master j : Bytes) → (keys services : List Bytes) → Option Bytes
last_service master j (key ∷ keys) (service ∷ services) =
    elim (last_service master j keys services) [
      | some later ↦ some later
      | none ↦ if eqb (master ++ codes "^" ++ key) j then some service else none
    ]
last_service master j [] services = none
last_service master j (key ∷ keys) [] = none

abbrev pub looked_up : ℤ → Bool → Option Bytes → Option RequestConf → Option RequestConf
looked_up site_no is_binary (some service) old = some (conf_for site_no is_binary service)
looked_up site_no is_binary none old = old

-- After a line with sub keys, each key of the line leads to the site of the line, in its protocol, and
-- to the service at the place of its sub key, the last one where a sub key stands twice; every
-- other key leads where it did before.
pub find-add_keys :
    (site_no : ℤ) (is_binary : Bool) (master j : Bytes) (keys services : List Bytes)
    (m : RequestTypes)
    → find j (add_keys site_no is_binary master keys services m)
      ≡ looked_up site_no is_binary (last_service master j keys services) (find j m)
unfolding add_keys last_service
find-add_keys site_no is_binary master j [] services m = refl
find-add_keys site_no is_binary master j (key ∷ keys) [] m = refl
find-add_keys site_no is_binary master j (key ∷ keys) (service ∷ services) m =
    let new = master ++ codes "^" ++ key in
    let conf = conf_for site_no is_binary service in
    let rest = find-add_keys site_no is_binary master j keys services (insert new conf m) in
    elim (Option-cases (last_service master j keys services)) [
      | inr (later, e) ↦ rest ∙ rw e refl
      | inl e ↦ elim (Bool-cases (eqb new j)) [
        | inl same ↦ rest ∙ rw e (find-insert new j conf m ∙ rw same refl)
        | inr other ↦ rest ∙ rw e (find-insert new j conf m ∙ rw other refl)
      ]
    ]
