-- ===== src/Policy.antt =====
-- src/time_count_policy.cpp: the calls in a period are counted. The clock is an argument.
pub mod Window
pub mod Examples
use relay_proxy.Base.{
  ℤ, pos, negsuc, add_int, ◌-ℤ◌, leb_ℤ, ltb_ℤ, eqb_ℤ, Bool, ◌||◌, if◌then◌else◌, List, [], ◌∷◌,
}

pub record TimeCountPolicy : Type 0 where
  pub time_period : ℤ
  pub max_count : ℤ
  pub begin_timestamp : ℤ
  pub current_count : ℤ

-- `init`, which the constructor repeats.
unfoldable pub init : (time_period max_count now : ℤ) → TimeCountPolicy
init time_period max_count now = record {
  time_period = time_period;
  max_count = max_count;
  begin_timestamp = now;
  current_count = pos 0;
}

-- The condition under which a call starts a new period.
unfoldable starts_period : TimeCountPolicy → ℤ → Bool
starts_period p now =
    eqb_ℤ p.current_count (pos 0) || leb_ℤ p.time_period (now -ℤ p.begin_timestamp)

-- `increase_count(num)`: the new state and the result, 0 or -1.
unfoldable pub increase_count : TimeCountPolicy → (num now : ℤ) → TimeCountPolicy × ℤ
unfolding starts_period
increase_count p num now =
    if starts_period p now
    then (record p { begin_timestamp = now; current_count = num }, pos 0)
    else let total = add_int p.current_count num in
      (record p { current_count = total }, if ltb_ℤ p.max_count total then negsuc 0 else pos 0)

-- `increase_count()`
unfoldable pub increase_one : TimeCountPolicy → ℤ → TimeCountPolicy × ℤ
unfolding increase_count
increase_one p now = increase_count p (pos 1) now
