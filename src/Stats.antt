-- ===== src/Stats.antt =====
-- src/switch_key_stats.h: per-key counts of requests and errors, and the decision to switch.
-- The key type, the float arithmetic and the clock are parameters; logging is left out.
pub mod Rounding
pub mod Decision
pub mod Latch
pub mod Shared
pub mod Examples
use relay_proxy.Base.{
  ℤ, pos, incr, ◌-ℤ◌, ◌*ℤ◌, wrap_int, ltb_ℤ, leb_ℤ, eqb_ℤ, Bytes, eqb, Bool, true, false, not, ◌&&◌,
  if◌then◌else◌, Option, none, some, Key, Map, find, count, insert, modify, map_values, List, [],
  ◌∷◌,
}

-- `float`, with the operations that the source applies to it.
pub record FloatOps : Type 1 where
  pub Float : Type 0
  pub of_int : ℤ → Float
  pub div : Float → Float → Float
  pub flt : Float → Float → Bool
  pub fle : Float → Float → Bool

-- `std::binary_search` on a sorted range: whether the first element that is not below is the value.
unfoldable pub binary_search : List ℤ → ℤ → Bool
binary_search [] e = false
binary_search (x ∷ xs) e = if ltb_ℤ x e then binary_search xs e else not (ltb_ℤ e x)

pub record SwitchKeyStats (T : Type 0) : Type 0 where
  pub begin_timestamp : ℤ
  pub requests : ℤ
  pub errors : ℤ
  pub to_be_switched : Bool
  pub time_interval : ℤ
  pub minimal_request_threshold : ℤ
  pub minimal_succ_ratio : ℤ
  pub errcode_list : List ℤ
  key_name : T
  pub key_id : Bytes

-- `struct stats_conf`, a line of the configuration.
pub record StatsConf : Type 0 where
  pub key_id : Bytes
  pub time_interval : ℤ
  pub minimal_success_ratio : ℤ
  pub minimal_request_threshold : ℤ
  pub errcode_list : List ℤ

module _ (fl : FloatOps) where
  open fl use {Float, of_int, div, flt, fle}

  -- The success ratio in percent, not below 0: the products are `int`s, the quotient is a `float`.
  unfoldable pub succ_ratio : (requests errors : ℤ) → Float
  succ_ratio requests errors =
      let ratio =
        div (of_int (wrap_int (wrap_int (requests -ℤ errors) *ℤ pos 100))) (of_int requests) in
      if flt ratio (of_int (pos 0)) then of_int (pos 0) else ratio

module _ {T : Type 0} where
  -- The constructor.
  unfoldable pub new_stats : T → StatsConf → ℤ → SwitchKeyStats T
  new_stats key conf now = record {
    begin_timestamp = now;
    requests = pos 0;
    errors = pos 0;
    to_be_switched = false;
    time_interval = conf.time_interval;
    minimal_request_threshold = conf.minimal_request_threshold;
    minimal_succ_ratio = conf.minimal_success_ratio;
    errcode_list = conf.errcode_list;
    key_name = key;
    key_id = conf.key_id;
  }

  abbrev pub in_interval : SwitchKeyStats T → ℤ → Bool
  in_interval s now = ltb_ℤ (now -ℤ s.begin_timestamp) s.time_interval

  unfoldable pub increment_requests : SwitchKeyStats T → ℤ → SwitchKeyStats T
  increment_requests s now =
      if in_interval s now
      then if not s.to_be_switched then record s { requests = incr s.requests } else s
      else if not s.to_be_switched
      then record s { requests = pos 1; errors = pos 0; begin_timestamp = now }
      else s

  -- The counts after an error inside the interval.
  unfoldable pub count_error : SwitchKeyStats T → SwitchKeyStats T
  count_error s =
      if eqb_ℤ s.requests (pos 0)
      then record s { requests = pos 1; errors = pos 1 }
      else record s { errors = incr s.errors }

  -- The test that sets the switch.
  unfoldable pub too_many_errors : FloatOps → SwitchKeyStats T → Bool
  too_many_errors fl s =
      leb_ℤ s.minimal_request_threshold s.requests
      && fl.fle (succ_ratio fl s.requests s.errors) (fl.of_int s.minimal_succ_ratio)

  unfoldable pub judge : FloatOps → SwitchKeyStats T → SwitchKeyStats T
  judge fl s = if too_many_errors fl s then record s { to_be_switched = true } else s

  unfoldable pub increment_errors : FloatOps → SwitchKeyStats T → ℤ → SwitchKeyStats T
  increment_errors fl s now =
      if in_interval s now
      then if not s.to_be_switched then judge fl (count_error s) else s
      else if not s.to_be_switched
      then record s { requests = pos 1; errors = pos 1; begin_timestamp = now }
      else s

  unfoldable pub reset_stats : ℤ → SwitchKeyStats T → SwitchKeyStats T
  reset_stats now s = record s {
    requests = pos 0;
    errors = pos 0;
    begin_timestamp = now;
    to_be_switched = false;
  }

  abbrev is_same_id : SwitchKeyStats T → Bytes → Bool
  is_same_id s id = eqb id s.key_id

abbrev pub StatsPool : Type 0 → Type 0
StatsPool T = Map T (SwitchKeyStats T)

-- `SwitchStatsPool<T>`
module _ {T : Type 0} ⦃key : Key T⦄ where
  unfoldable pub init_pool : StatsPool T → Map T StatsConf → ℤ → StatsPool T
  init_pool pool [] now = pool
  init_pool pool ((k, conf) ∷ confs) now =
      init_pool (insert k (new_stats k conf now) pool) confs now

  abbrev pub is_switch_key : StatsPool T → T → Bool
  is_switch_key pool k = count k pool

  unfoldable pub pool_increment_requests : StatsPool T → T → ℤ → StatsPool T
  pool_increment_requests pool k now = modify k (λ s. increment_requests s now) pool

  unfoldable pub pool_increment_errors : FloatOps → StatsPool T → T → ℤ → StatsPool T
  pool_increment_errors fl pool k now = modify k (λ s. increment_errors fl s now) pool

  -- One round of the loop of `reset(key)`.
  unfoldable pub reset_same_id : Bytes → ℤ → SwitchKeyStats T → SwitchKeyStats T
  reset_same_id id now s = if is_same_id s id then reset_stats now s else s

  unfoldable pub pool_reset : StatsPool T → T → ℤ → StatsPool T
  pool_reset pool k now = elim (find k pool) [
    | none ↦ pool
    | some s ↦ map_values (reset_same_id s.key_id now) pool
  ]

  -- `reset()`
  unfoldable pool_reset_all : StatsPool T → ℤ → StatsPool T
  pool_reset_all pool now = map_values (reset_stats now) pool

  unfoldable pub pool_need_switch : StatsPool T → T → Bool
  pool_need_switch pool k = elim (find k pool) [ none ↦ false | some s ↦ s.to_be_switched ]

  unfoldable pub pool_is_exist : StatsPool T → T → ℤ → Bool
  unfolding binary_search
  pool_is_exist pool k error = elim (find k pool) [
    | none ↦ false
    | some s ↦ binary_search s.errcode_list error
  ]
