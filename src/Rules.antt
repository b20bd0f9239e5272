-- ===== src/Rules.antt =====
-- Request rules: `src/service_fixed_control_rule.cpp` (one rule) and
-- `src/service_request_control.cpp` (the rules by their master key). The clock is an argument.
mod Bound
mod Keys
mod Examples
use relay_proxy.Base.{ℕ, zero, suc, ◌+◌, ◌-◌, ◌*◌, ◌/◌, ◌%◌, ◌^◌, ◌≤◌, ◌<◌}
use relay_proxy.Base.{◌≡◌, refl, sym, ap, ◌∙◌, ◌≢◌, ◌↔◌, ◌⊎◌, inl, inr}
use relay_proxy.Base.{Bool, true, false, not, ◌&&◌, ◌||◌, Option, none, some}
use relay_proxy.Base.{List, [], ◌∷◌, ◌++◌, map, append_assoc, append-nil, arith}
use relay_proxy.Base.{ltb, leb, ◌==◌, if◌then◌else◌, Bool-cases, Option-cases, is_some}
use relay_proxy.Base.{length, get_elem?, set, get_or, take, drop, replicate, All, all}
use relay_proxy.Base.{length-append, take-append, drop-append, length-take, All-append}
use relay_proxy.Base.{
  ℤ, pos, negsuc, pos_part, neg_part, ◌+ℤ◌, ◌-ℤ◌, ◌*ℤ◌, ◌≤ℤ◌, ◌<ℤ◌, ltb_ℤ, leb_ℤ, eqb_ℤ,
}
use relay_proxy.Base.{
  eqb_ℤ_iff, int_max, int_min, incr, incr_pos, wrap_int, wrap_int-pos, add_int, add_int_exact,
}
use relay_proxy.Base.{Bytes, codes, eqb, bytes_lt, eqb_iff, eqb_refl, ne_of_eqb}
use relay_proxy.Base.{
  Key, int_key, bytes_key, Map, find, count, insert, emplace, modify, map_values,
}
use relay_proxy.Base.{find-insert, find-insert_self, find-emplace, find-modify, find-map_values}
use relay_proxy.Base.{Code, Exception, Result, ok, throw, ◌>>=◌, ◌>>◌, Result-cases}
use relay_proxy.Base.{server_exception, exceed_freq_limit}
use relay_proxy.Policy
use relay_proxy.Policy.{TimeCountPolicy, increase_one}
use relay_proxy.Text.{split, strstrip, atoi}
use relay_proxy.Url.{parse_url}
use relay_proxy.Access.{is_skipped}

-- `FixFreqControlRule::Rule`
pub record Rule : Type 0 where
  pub value_list : List Bytes
  pub service_count_policy : TimeCountPolicy

pub record FixFreqControlRule : Type 0 where
  pub master_key : Bytes
  pub master_key_name : Bytes
  pub master_count_policy : TimeCountPolicy
  pub key_list : List Bytes
  pub rules : List Rule
  pub default_time_period : ℤ
  pub default_max_count : ℤ

-- Two numbers, or a failed assertion.
unfoldable pub two_numbers : List Bytes → Result (ℤ × ℤ)
two_numbers (a ∷ b ∷ []) = ok (atoi a, atoi b)
two_numbers [] = throw Exception.assertion
two_numbers (a ∷ []) = throw Exception.assertion
two_numbers (a ∷ b ∷ c ∷ ts) = throw Exception.assertion

-- One item of the last part: a value for each key, and a period and a count of its own if both
-- are there. An item with too few values is passed over.
unfoldable pub make_rule : ℤ → ℕ → ℤ × ℤ → List Bytes → Option Rule
make_rule now key_size (default_period, default_count) item =
    let limits : ℤ × ℤ =
      if leb (key_size + 2) (length item)
      then (atoi (get_or item key_size []), atoi (get_or item (key_size + 1) []))
      else (default_period, default_count) in
    if leb key_size (length item)
    then some (record {
      value_list = take key_size item;
      service_count_policy = Policy.init limits.0 limits.1 now;
    })
    else none

unfoldable pub make_rules : ℤ → ℕ → ℤ × ℤ → List Bytes → List Rule
make_rules now key_size defaults [] = []
make_rules now key_size defaults (text ∷ texts) =
    let rest = make_rules now key_size defaults texts in
    elim (make_rule now key_size defaults (split 44 (key_size + 2) text)) [
      | none ↦ rest
      | some r ↦ r ∷ rest
    ]

-- `init` from the parts between colons. Five parts pass the assertion, and the sixth is read.
unfoldable pub init_parts : ℤ → List Bytes → Result FixFreqControlRule
init_parts now [] = throw Exception.assertion
init_parts now (a ∷ []) = throw Exception.assertion
init_parts now (a ∷ b ∷ []) = throw Exception.assertion
init_parts now (a ∷ b ∷ c ∷ []) = throw Exception.assertion
init_parts now (a ∷ b ∷ c ∷ d ∷ []) = throw Exception.assertion
init_parts now (key ∷ name ∷ master ∷ keys ∷ defaults ∷ rest) =
    two_numbers (split 44 8 master) >>= λ (period, max_count).
    two_numbers (split 44 4 defaults) >>= λ d. elim rest [
      | [] ↦ throw Exception.out_of_range
      | items ∷ others ↦ ok (record {
        master_key = key;
        master_key_name = name;
        master_count_policy = Policy.init period max_count now;
        key_list = split 44 8 keys;
        rules = make_rules now (length (split 44 8 keys)) d (split 124 1024 items);
        default_time_period = d.0;
        default_max_count = d.1;
      })
    ]

unfoldable pub init : ℤ → Bytes → Result FixFreqControlRule
init now control_rule = init_parts now (split 58 1000 control_rule)

-- The values of the keys in a request, up to the first that is missing.
unfoldable pub collect : Map Bytes Bytes → Bytes → List Bytes → List Bytes
collect params service_name [] = []
collect params service_name (k ∷ keys) =
    let rest = collect params service_name keys in
    elim (find k params) [
      | some v ↦ v ∷ rest
      | none ↦ if eqb k (codes "service_name") then service_name ∷ rest else []
    ]

unfoldable pub same_values : List Bytes → List Bytes → Bool
same_values [] [] = true
same_values [] (v ∷ vs) = false
same_values (u ∷ us) [] = false
same_values (u ∷ us) (v ∷ vs) = eqb u v && same_values us vs

-- `lookup` and the count at the rule that it points to: the rules after the call, and whether the
-- call is within the limit.
unfoldable pub count_rule : ℤ → List Bytes → List Rule → List Rule × Bool
count_rule now values [] = ([], true)
count_rule now values (r ∷ rs) =
    let rest = count_rule now values rs in
    let counted = increase_one r.service_count_policy now in
    if same_values values r.value_list
    then (record r { service_count_policy = counted.0 } ∷ rs, eqb_ℤ counted.1 (pos 0))
    else (r ∷ rest.0, rest.1)

abbrev pub exceeded : Result (Unit {0})
exceeded = throw (server_exception exceed_freq_limit)

-- `check_rule` behind the count of the master key.
unfoldable pub check_values :
    ℤ → List Bytes → FixFreqControlRule → FixFreqControlRule × Result (Unit {0})
check_values now values r =
    let counted = count_rule now values r.rules in
    if ltb (length values) (length r.key_list)
    then (r, ok tt)
    else (record r { rules = counted.0 }, if counted.1 then ok tt else exceeded)

unfoldable pub check_rule :
    (ℕ → ℕ → ℕ)
    → ℤ
    → (service_name request_text : Bytes) → FixFreqControlRule
    → FixFreqControlRule × Result (Unit {0})
check_rule junk now service_name request_text r =
    let counted = increase_one r.master_count_policy now in
    let r' = record r { master_count_policy = counted.0 } in
    let values = collect (parse_url junk request_text) service_name r.key_list in
    if eqb_ℤ counted.1 (pos 0) then check_values now values r' else (r', exceeded)

-- `ServiceRequestControl`
pub record ServiceRequestControl : Type 0 where
  pub rule_pool : Map Bytes FixFreqControlRule
  pub is_init : Bool

-- `create_fix_rule`: the rule takes the place of one with the same key.
unfoldable pub add_rule :
    ℤ → Bytes → Map Bytes FixFreqControlRule → Result (Map Bytes FixFreqControlRule)
add_rule now one_rule pool = elim (split 58 8 one_rule) [
  | [] ↦ ok pool
  | key ∷ parts ↦
      if leb 5 (length (key ∷ parts))
      then (init now one_rule >>= λ r. ok (insert key r pool))
      else ok pool
]

unfoldable pub add_rules :
    ℤ → List Bytes → Map Bytes FixFreqControlRule → Result (Map Bytes FixFreqControlRule)
add_rules now [] pool = ok pool
add_rules now (text ∷ texts) pool = add_rule now text pool >>= add_rules now texts

-- `re_init` from texts; `init` from texts keeps the rules that are there.
unfoldable pub init_control : ℤ → List Bytes → ServiceRequestControl → Result ServiceRequestControl
init_control now texts c =
    add_rules now texts c.rule_pool >>= λ pool. ok (record { rule_pool = pool; is_init = true })

unfoldable pub re_init_control :
    ℤ → List Bytes → ServiceRequestControl → Result ServiceRequestControl
re_init_control now texts c = init_control now texts (record { rule_pool = []; is_init = false })

-- The texts of a file: the lines that are neither blank nor comments.
unfoldable pub rule_lines : List Bytes → List Bytes
rule_lines [] = []
rule_lines (line ∷ lines) =
    let rest = rule_lines lines in if is_skipped (strstrip line) then rest else strstrip line ∷ rest

-- `check_rule` of the rule of a master key, if there is one.
unfoldable pub check :
    (ℕ → ℕ → ℕ)
    → ℤ
    → (master_key service_name request_text : Bytes) → ServiceRequestControl
    → ServiceRequestControl × Result (Unit {0})
check junk now master_key service_name request_text c =
    if c.is_init
    then elim (find master_key c.rule_pool) [
      | none ↦ (c, ok tt)
      | some r ↦
          let checked = check_rule junk now service_name request_text r in
          (record c { rule_pool = insert master_key checked.0 c.rule_pool }, checked.1)
    ]
    else (c, ok tt)
