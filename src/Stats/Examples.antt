-- ===== src/Stats/Examples.antt =====
-- Runs and instances for the switch statistics, over exact fractions and sites as keys.
use relay_proxy.Base.{
  ◌-◌, ◌*◌, ◌≡◌, refl, ℤ, pos, ◌-ℤ◌, ◌*ℤ◌, wrap_int, incr, leb, leb_ℤ, codes, List, [], ◌∷◌, Map,
  true, ◌&&◌, int_key, arith,
}
use relay_proxy.Stats.{
  StatsConf, SwitchKeyStats, new_stats, increment_errors, increment_requests, too_many_errors,
  judge, succ_ratio, count_error,
}
use relay_proxy.Stats.Rounding.{exact, exact-IsRounded}
use relay_proxy.Stats.Decision.{increment_errors-switches}
use relay_proxy.Stats.Latch.{Event, request, error, run, apply}

-- Switch at three requests and at most half of them successful, in a minute.
abbrev pub site_conf : StatsConf
site_conf = record {
  key_id = codes "core";
  time_interval = pos 60;
  minimal_success_ratio = pos 50;
  minimal_request_threshold = pos 3;
  errcode_list = pos 1 ∷ pos 7 ∷ [];
}

abbrev pub counting : SwitchKeyStats ℤ
counting = record (new_stats (pos 5) site_conf (pos 100)) { requests = pos 4; errors = pos 1 }

abbrev latched : SwitchKeyStats ℤ
latched = record counting { to_be_switched = true }

increment_errors-switches_example :
    (increment_errors exact counting (pos 110)).to_be_switched
    ≡ leb_ℤ (pos 3) (pos 4) && leb ((4 - 2) * 100) (50 * 4)
unfolding new_stats ◌-ℤ◌
increment_errors-switches_example =
    increment_errors-switches exact exact-IsRounded counting (pos 110) 4 1 50 refl refl refl refl
      refl (omega arith) (omega arith) (omega arith)

abbrev failures : List (Event)
failures =
    request (pos 100)
    ∷ error (pos 101)
    ∷ request (pos 102)
    ∷ request (pos 103)
    ∷ error (pos 104)
    ∷ []

failures_switch : (run exact (new_stats (pos 5) site_conf (pos 100)) failures).to_be_switched ≡ true
unfolding run apply new_stats increment_requests increment_errors count_error judge too_many_errors
    succ_ratio ◌-ℤ◌ ◌*ℤ◌ wrap_int incr
failures_switch = refl

abbrev two_sites : Map ℤ (SwitchKeyStats ℤ)
two_sites = (pos 5, latched) ∷ (pos 6, counting) ∷ []
