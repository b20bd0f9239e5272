-- ===== src/Rules/Examples.antt =====
-- Inputs for the theorems on request rules, and runs of the code on them.
use relay_proxy.Base.{ℕ, ◌≤◌}
use relay_proxy.Base.{◌≡◌, refl}
use relay_proxy.Base.{[], ◌∷◌, arith}
use relay_proxy.Base.{ℤ, pos, ◌+ℤ◌, ◌-ℤ◌}
use relay_proxy.Base.{add_int}
use relay_proxy.Base.{codes, eqb, bytes_lt}
use relay_proxy.Base.{int_key, bytes_key, find, insert, emplace}
use relay_proxy.Base.{Exception, ok, throw}
use relay_proxy.Policy
use relay_proxy.Policy.{TimeCountPolicy, increase_one, increase_count}
use relay_proxy.Text.{
  is_space, strchug, strchomp, trim_end, split, split_from, atoi, signed_value, digits_value,
}
use relay_proxy.Url.{find_char, parse_url, parse_from, parse_nv, decode_url}
use relay_proxy.Rules.{
  FixFreqControlRule, two_numbers, make_rule, make_rules, init_parts, init, collect, same_values,
  count_rule, check_values, check_rule,
}
use relay_proxy.Rules.Bound.{Request, passed, passed-bound}

abbrev no_junk : ℕ → ℕ → ℕ
no_junk a b = 0

-- At most 5 requests of the bank in 10 seconds, and one of the service "pay" in 60.
abbrev bank : FixFreqControlRule
bank = record {
  master_key = codes "8";
  master_key_name = codes "bank";
  master_count_policy = record {
    time_period = pos 10;
    max_count = pos 5;
    begin_timestamp = pos 100;
    current_count = pos 0;
  };
  key_list = codes "service_name" ∷ [];
  rules =
      record {
        value_list = codes "pay" ∷ [];
        service_count_policy = record {
          time_period = pos 60;
          max_count = pos 1;
          begin_timestamp = pos 100;
          current_count = pos 0;
        };
      }
      ∷ [];
  default_time_period = pos 10;
  default_max_count = pos 3;
}

init_test : init (pos 100) (codes "8:bank:10,5:service_name:10,3:pay,60,1") ≡ ok bank
unfolding init init_parts two_numbers make_rules make_rule split split_from find_char strchug
    strchomp trim_end is_space atoi signed_value digits_value Policy.init
init_test = refl

-- A rule of five parts passes the assertion, and the sixth part is read all the same.
five_parts_test : init (pos 100) (codes "8:bank:10,5:k:10,3") ≡ throw Exception.out_of_range
unfolding init init_parts two_numbers split split_from find_char strchug strchomp trim_end is_space
    atoi signed_value digits_value
five_parts_test = refl

abbrev request : ℤ → Request
request now = (now, codes "pay", codes "a=1&")

-- The second request is over the limit of the service.
passed_test : passed no_junk bank (request (pos 101) ∷ request (pos 102) ∷ []) ≡ 1
unfolding passed check_rule check_values count_rule same_values collect increase_one increase_count
    parse_url parse_from parse_nv find_char decode_url find insert emplace eqb bytes_lt ◌-ℤ◌ ◌+ℤ◌
    add_int
passed_test = refl

passed-bound_example : passed no_junk bank (request (pos 101) ∷ request (pos 102) ∷ []) ≤ 5
unfolding Policy.init ◌-ℤ◌
passed-bound_example =
    passed-bound no_junk bank (pos 10) 5 (pos 100) (request (pos 101)) (request (pos 102) ∷ []) refl
      (omega arith, tt) (omega arith)
