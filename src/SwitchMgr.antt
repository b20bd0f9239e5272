-- ===== src/SwitchMgr.antt =====
-- src/switch_mgr.h and .cpp: the manager that counts the outcomes of requests by service and by site
-- and asks the connection pool of a site to switch to its next IDC.
pub mod Outcome
pub mod Examples
use relay_proxy.Base.{
  ℤ, pos, negsuc, eqb_ℤ, Bytes, eqb, Bool, true, false, not, ◌&&◌, if◌then◌else◌, Option, none,
  some, Map, find, count, insert, modify, int_key, bytes_key, [], Result, ok, throw,
  config_exception, trpc_info_pool_invalid,
}
use relay_proxy.HaSite.{HaSiteConf, get_next_idc, get_current_idc}
use relay_proxy.Pool.{ApiPool, set_switch_on}
use relay_proxy.Stats.{
  FloatOps, StatsConf, StatsPool, init_pool, is_switch_key, pool_increment_requests,
  pool_increment_errors, pool_reset, pool_need_switch, pool_is_exist,
}

-- The manager, with what its pointers lead to: the server name of each site, the connection pools,
-- the site configuration and the flag `is_switch_on`.
pub record RelaySwitchMgr : Type 0 where
  pub service_stats_pool : StatsPool Bytes
  pub is_service_init : Bool
  pub site_stats_pool : StatsPool ℤ
  pub is_site_init : Bool
  pub server_names : Map ℤ Bytes
  pub api_pools : Map ℤ ApiPool
  pub hasite_conf : HaSiteConf
  pub is_switch_on : Bool

unfoldable init_service_stats_pool : RelaySwitchMgr → Map Bytes StatsConf → ℤ → RelaySwitchMgr
init_service_stats_pool m conf now =
    if m.is_service_init
    then m
    else record m { service_stats_pool = init_pool m.service_stats_pool conf now }

unfoldable init_site_stats_pool : RelaySwitchMgr → Map ℤ StatsConf → ℤ → RelaySwitchMgr
init_site_stats_pool m conf now =
    if m.is_site_init
    then m
    else record m { site_stats_pool = init_pool m.site_stats_pool conf now }

-- `init`, behind the assertion on its pointers.
unfoldable pub init : RelaySwitchMgr → Map Bytes StatsConf → Map ℤ StatsConf → ℤ → RelaySwitchMgr
unfolding init_service_stats_pool init_site_stats_pool
init m service_conf site_conf now =
    let m1 = record (init_service_stats_pool m service_conf now) { is_service_init = true } in
    record (init_site_stats_pool m1 site_conf now) { is_site_init = true }

-- `re_init`: both pools are emptied and read again.
unfoldable re_init : RelaySwitchMgr → Map Bytes StatsConf → Map ℤ StatsConf → ℤ → RelaySwitchMgr
unfolding init
re_init m service_conf site_conf now =
    init
      (record m {
        service_stats_pool = [];
        is_service_init = false;
        site_stats_pool = [];
        is_site_init = false;
      })
      service_conf site_conf now

unfoldable pub incr_request : RelaySwitchMgr → ℤ → Bytes → ℤ → RelaySwitchMgr
incr_request m site_no service now =
    let m1 =
      if m.is_service_init && is_switch_key m.service_stats_pool service
      then record m {
        service_stats_pool = pool_increment_requests m.service_stats_pool service now;
      }
      else m in
    (if m1.is_site_init && is_switch_key m1.site_stats_pool site_no
      then record m1 { site_stats_pool = pool_increment_requests m1.site_stats_pool site_no now }
      else m1)

-- The middle of both `try_…_switch` functions: the names are looked up, and unless the current IDC is
-- the last one the connection pool of the site is told to switch. `server_name` may throw.
unfoldable pub request_switch : RelaySwitchMgr → ℤ → Result RelaySwitchMgr
request_switch m site_no = elim (find site_no m.server_names) [
  | none ↦ throw (config_exception trpc_info_pool_invalid)
  | some server ↦
      let (conf1, current_idc) = get_current_idc m.hasite_conf server in
      let (conf2, next_idc) = get_next_idc conf1 server in
      let m' = record m { hasite_conf = conf2 } in
      ok (
        if not (eqb next_idc []) && m.is_switch_on
        then record m' { api_pools = modify site_no set_switch_on m.api_pools }
        else m')
]

abbrev reset_service : Bytes → ℤ → RelaySwitchMgr → RelaySwitchMgr
reset_service service now m = record m {
  service_stats_pool = pool_reset m.service_stats_pool service now;
}

abbrev reset_site : ℤ → ℤ → RelaySwitchMgr → RelaySwitchMgr
reset_site site_no now m = record m { site_stats_pool = pool_reset m.site_stats_pool site_no now }

-- A result of `try_service_switch` or `try_site_switch` in which a switch was due: both statistics
-- are reset and 1 is returned, or `server_name` threw.
abbrev pub switched :
    RelaySwitchMgr → ℤ → Bytes → ℤ → Result RelaySwitchMgr → RelaySwitchMgr × Result ℤ
switched m site_no service now (ok m') =
    (reset_site site_no now (reset_service service now m'), ok (pos 1))
switched m site_no service now (throw e) = (m, throw e)

-- What `try_service_switch` does on an error that counts.
unfoldable pub count_service_error :
    FloatOps → RelaySwitchMgr → ℤ → Bytes → ℤ → RelaySwitchMgr × Result ℤ
unfolding switched
count_service_error fl m site_no service now =
    let m' = record m {
      service_stats_pool = pool_increment_errors fl m.service_stats_pool service now;
    } in
    (if pool_need_switch m'.service_stats_pool service
      then switched m' site_no service now (request_switch m' site_no)
      else (m', ok (pos 0)))

-- An error counts for a service unless it is in the list of the service.
unfoldable pub try_service_switch :
    FloatOps → RelaySwitchMgr → ℤ → Bytes → (error now : ℤ) → RelaySwitchMgr × Result ℤ
try_service_switch fl m site_no service error now =
    if m.is_service_init
      && (is_switch_key m.service_stats_pool service
          && not (pool_is_exist m.service_stats_pool service error))
    then count_service_error fl m site_no service now
    else (m, ok (negsuc 0))

unfoldable pub count_site_error :
    FloatOps → RelaySwitchMgr → ℤ → Bytes → ℤ → RelaySwitchMgr × Result ℤ
unfolding switched
count_site_error fl m site_no service now =
    let m' = record m {
      site_stats_pool = pool_increment_errors fl m.site_stats_pool site_no now;
    } in
    (if pool_need_switch m'.site_stats_pool site_no
      then switched m' site_no service now (request_switch m' site_no)
      else (m', ok (pos 0)))

-- An error counts for a site if it is in the list of the site.
unfoldable pub try_site_switch :
    FloatOps → RelaySwitchMgr → ℤ → Bytes → (error now : ℤ) → RelaySwitchMgr × Result ℤ
try_site_switch fl m site_no service error now =
    if m.is_site_init
      && (is_switch_key m.site_stats_pool site_no && pool_is_exist m.site_stats_pool site_no error)
    then count_site_error fl m site_no service now
    else (m, ok (negsuc 0))

-- The result of `trySwitch` from those of the two attempts, the first of which is not 1.
unfoldable pub combine : (ret ret1 : ℤ) → ℤ
combine ret ret1 =
    if eqb_ℤ ret1 (negsuc 0) && eqb_ℤ ret (negsuc 0)
    then negsuc 0
    else if eqb_ℤ ret1 (pos 1)
    then pos 1
    else pos 0

abbrev pub combined : ℤ → RelaySwitchMgr × Result ℤ → RelaySwitchMgr × Result ℤ
combined ret (m, ok ret1) = (m, ok (combine ret ret1))
combined ret (m, throw e) = (m, throw e)

-- `trySwitch` behind its first attempt.
unfoldable pub then_site :
    FloatOps → ℤ → Bytes → (error now : ℤ) → RelaySwitchMgr × Result ℤ → RelaySwitchMgr × Result ℤ
unfolding combined
then_site fl site_no service error now (m, throw e) = (m, throw e)
then_site fl site_no service error now (m, ok ret) =
    if eqb_ℤ ret (pos 1)
    then (m, ok (pos 1))
    else combined ret (try_site_switch fl m site_no service error now)

unfoldable pub try_switch :
    FloatOps → RelaySwitchMgr → ℤ → Bytes → (error now : ℤ) → RelaySwitchMgr × Result ℤ
try_switch fl m site_no service error now =
    then_site fl site_no service error now (try_service_switch fl m site_no service error now)
