-- ===== src/Rules/Bound.antt =====
-- How many requests a rule lets pass (`src/service_fixed_control_rule.cpp`).
use relay_proxy.Base.{ℕ, suc, ◌+◌, ◌-◌, ◌≤◌}
use relay_proxy.Base.{◌≡◌, ap}
use relay_proxy.Base.{Bool, true, false}
use relay_proxy.Base.{List, [], ◌∷◌, map, arith}
use relay_proxy.Base.{if◌then◌else◌}
use relay_proxy.Base.{length, All}
use relay_proxy.Base.{ℤ, pos, ◌-ℤ◌, ◌<ℤ◌, eqb_ℤ}
use relay_proxy.Base.{Bytes}
use relay_proxy.Base.{int_key, bytes_key}
use relay_proxy.Base.{Result, ok, throw}
use relay_proxy.Policy
use relay_proxy.Policy.{TimeCountPolicy, increase_one}
use relay_proxy.Policy.Window.{admitted, admitted-init}
use relay_proxy.Url.{parse_url}
use relay_proxy.Rules.{FixFreqControlRule, check_rule, check_values, collect}

-- A request at a time: the service name and the text.
abbrev pub Request : Type 0
Request = ℤ × Bytes × Bytes

abbrev passes : Result (Unit {0}) → Bool
passes (ok u) = true
passes (throw e) = false

-- The number of requests that pass, one after the other.
unfoldable pub passed : (ℕ → ℕ → ℕ) → FixFreqControlRule → List Request → ℕ
passed junk r [] = 0
passed junk r ((now, service, text) ∷ rest) =
    let checked = check_rule junk now service text r in
    let later = passed junk checked.0 rest in if passes checked.1 then suc later else later

abbrev pub time_of : Request → ℤ
time_of (now, service, text) = now

check_values-master :
    (now : ℤ) (values : List Bytes) (r : FixFreqControlRule)
    → (check_values now values r).0.master_count_policy ≡ r.master_count_policy
unfolding check_values
check_values-master now values r = ground arith

check_rule-master :
    (junk : ℕ → ℕ → ℕ) (now : ℤ) (service text : Bytes) (r : FixFreqControlRule)
    → (check_rule junk now service text r).0.master_count_policy
      ≡ (increase_one r.master_count_policy now).0
unfolding check_rule
check_rule-master junk now service text r =
    let values = collect (parse_url junk text) service r.key_list in
    let r' : FixFreqControlRule = record r {
      master_count_policy = (increase_one r.master_count_policy now).0;
    } in
    ground (arith, check_values-master now values r')

-- A request that passes is within the limit of the master key.
check_rule-passes :
    (junk : ℕ → ℕ → ℕ) (now : ℤ) (service text : Bytes) (r : FixFreqControlRule)
    → passes (check_rule junk now service text r).1 ≡ true
    → eqb_ℤ (increase_one r.master_count_policy now).1 (pos 0) ≡ true
unfolding check_rule
check_rule-passes junk now service text r h = ground (arith, h)

passed-admitted :
    (junk : ℕ → ℕ → ℕ) (r : FixFreqControlRule) (requests : List Request)
    → passed junk r requests ≤ admitted r.master_count_policy (map time_of requests)
unfolding passed admitted
passed-admitted junk r [] = omega arith
passed-admitted junk r ((now, service, text) ∷ rest) =
    let r' = (check_rule junk now service text r).0 in
    let same =
      ap (λ p. admitted p (map time_of rest)) (check_rule-master junk now service text r) in
    let later = passed-admitted junk r' rest in
    ground (arith, same, later, check_rule-passes junk now service text r)

-- Of the requests with one master key that come in the period of the first, no more pass a new rule
-- than its master limit, or one if the limit is 0, whatever they ask for.
pub passed-bound :
    (junk : ℕ → ℕ → ℕ) (r : FixFreqControlRule) (period : ℤ) (m : ℕ) (t0 : ℤ) (first : Request)
    (rest : List Request)
    → r.master_count_policy ≡ Policy.init period (pos m) t0
    → All (λ now. now -ℤ time_of first <ℤ period) (map time_of rest)
    → 1 + length (map time_of rest) ≤ 2147483647
    → passed junk r (first ∷ rest) ≤ suc (m - 1)
passed-bound junk r period m t0 first rest e w fits = omega (
  arith,
  passed-admitted junk r (first ∷ rest),
  ap (λ p. admitted p (map time_of (first ∷ rest))) e,
  admitted-init period m t0 (time_of first) (map time_of rest) w fits,
)
