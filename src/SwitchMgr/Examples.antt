-- ===== src/SwitchMgr/Examples.antt =====
-- A run and an instance for the switch manager: one service, one site, one pool.
use relay_proxy.Base.{
  ◌≡◌, refl, pos, ◌-ℤ◌, ◌*ℤ◌, wrap_int, incr, codes, eqb, bytes_lt, true, false, [], ◌∷◌, find,
  insert, modify, ok, int_key, bytes_key,
}
use relay_proxy.HaSite.Examples.{sites}
use relay_proxy.HaSite.{get_next_idc, get_current_idc, touch_site, element_after}
use relay_proxy.Pool.Examples.{fresh_pool}
use relay_proxy.Stats.Rounding.{exact}
use relay_proxy.Stats.{
  StatsConf, new_stats, pool_increment_errors, pool_need_switch, pool_is_exist, increment_errors,
  binary_search, count_error, judge, too_many_errors, succ_ratio, init_pool,
}
use relay_proxy.SwitchMgr.{
  RelaySwitchMgr, init, try_switch, try_service_switch, count_service_error, then_site,
  request_switch,
}
use relay_proxy.SwitchMgr.Outcome.{Post, try_switch-Post}

-- One request is enough, and no success is asked for.
abbrev strict_conf : StatsConf
strict_conf = record {
  key_id = codes "pay";
  time_interval = pos 60;
  minimal_success_ratio = pos 50;
  minimal_request_threshold = pos 1;
  errcode_list = pos 7 ∷ [];
}

abbrev before_init : RelaySwitchMgr
before_init = record {
  service_stats_pool = [];
  is_service_init = false;
  site_stats_pool = [];
  is_site_init = false;
  server_names = (pos 5, codes "core") ∷ [];
  api_pools = (pos 5, fresh_pool) ∷ [];
  hasite_conf = sites;
  is_switch_on = true;
}

abbrev pub manager : RelaySwitchMgr
manager = init before_init ((codes "pay", strict_conf) ∷ []) ((pos 5, strict_conf) ∷ []) (pos 100)

try_switch-Post_example :
    Post manager
      (pos 5)
      (codes "pay")
      (try_switch exact manager (pos 5) (codes "pay") (pos 3) (pos 110))
try_switch-Post_example = try_switch-Post exact manager (pos 5) (codes "pay") (pos 3) (pos 110)

switches_at_once : (try_switch exact manager (pos 5) (codes "pay") (pos 3) (pos 110)).1 ≡ ok (pos 1)
unfolding init try_switch try_service_switch count_service_error then_site request_switch init_pool
    new_stats pool_increment_errors pool_need_switch pool_is_exist increment_errors binary_search
    count_error judge too_many_errors succ_ratio ◌-ℤ◌ ◌*ℤ◌ wrap_int incr find insert modify eqb
    bytes_lt get_next_idc get_current_idc touch_site element_after
switches_at_once = refl
