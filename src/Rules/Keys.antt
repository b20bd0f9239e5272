-- ===== src/Rules/Keys.antt =====
-- What a check counts, and what it leaves alone (`src/service_request_control.cpp` and
-- `src/service_fixed_control_rule.cpp`).
use relay_proxy.Base.{◌≡◌, refl, inl, inr}
use relay_proxy.Base.{List, [], ◌∷◌, map, arith}
use relay_proxy.Base.{if◌then◌else◌, Bool-cases}
use relay_proxy.Base.{ℤ}
use relay_proxy.Base.{Bytes}
use relay_proxy.Base.{int_key, bytes_key}
use relay_proxy.Rules.{Rule, count_rule, same_values}

-- The rules that have other values than the request.
unfoldable pub unmatched : List Bytes → List Rule → List Rule
unmatched values [] = []
unmatched values (r ∷ rs) =
    let rest = unmatched values rs in if same_values values r.value_list then rest else r ∷ rest

abbrev pub values_of : Rule → List Bytes
values_of r = r.value_list

-- A request is counted at a rule with exactly its values, if at any: the rules with other values keep
-- their counts, and every rule keeps its place and its values.
pub count_rule_others :
    (now : ℤ) (values : List Bytes) (rs : List Rule)
    → (unmatched values (count_rule now values rs).0 ≡ unmatched values rs)
      × (map values_of (count_rule now values rs).0 ≡ map values_of rs)
unfolding count_rule unmatched
count_rule_others now values [] = (refl, refl)
count_rule_others now values (r ∷ rs) =
    let (kept, same) = count_rule_others now values rs in
    elim (Bool-cases (same_values values r.value_list)) [
      | inl e ↦ (ground (arith, e, kept), ground (arith, e, same))
      | inr e ↦ (ground (arith, e, kept), ground (arith, e, same))
    ]
