-- ===== src/Admin/Examples.antt =====
-- A timed command, on concrete inputs.
use relay_proxy.Base.{ℤ, pos, ◌+ℤ◌, ◌-ℤ◌, leb_ℤ, true, ◌≡◌, refl, List, [], ◌∷◌}
use relay_proxy.Admin.{
  TimedCommand, worker_runs, runs, step, is_due, create_relay_mgr_command,
  latest_expire_command_time, least_time,
}
use relay_proxy.Admin.Intervals.{Close, Paced, last_of, worker_runs-Paced}

abbrev command : TimedCommand
command = record { cmd_type = pos 1; time_out = pos 30; time_stamp = pos 100 }

abbrev times : List ℤ
times = pos 110 ∷ pos 130 ∷ pos 150 ∷ pos 165 ∷ []

runs_test : runs command times ≡ pos 130 ∷ pos 165 ∷ []
unfolding runs step is_due relay_proxy.Base.◌-ℤ◌
runs_test = refl

latest_test :
    latest_expire_command_time (pos 1400000000) (create_relay_mgr_command (pos 1) (pos 0)) ≡ pos 30
unfolding latest_expire_command_time least_time create_relay_mgr_command
latest_test = refl

worker_runs-Paced_example :
    (later : List ℤ) × (worker_runs (pos 101) command times ≡ pos 101 ∷ later)
    × Paced (pos 30) (pos 50) (pos 165) (pos 100) later
unfolding ◌+ℤ◌ ◌-ℤ◌ last_of Close
worker_runs-Paced_example =
    worker_runs-Paced command (pos 101) (pos 20) times refl (refl, (refl, (refl, (refl, tt))))
