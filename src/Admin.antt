-- ===== src/Admin.antt =====
-- The timed commands of the thread of the relay manager: `src/relay_mgr_command.cpp`, and the loop
-- `relay_mgr_worker_i` of `src/relay_server.cpp`. The clock is an argument, and the rounds of the loop
-- are the times at which `select` came back with a time-out; a round reads the clock once for its
-- commands, of which there is one. `process` of that command returns at once, so that running it leaves
-- nothing but its stamp. `RULE_FROM_FILE` is not defined.
mod Intervals
mod Examples
use relay_proxy.Base.{ℕ, ℤ, pos, ◌+ℤ◌, ◌-ℤ◌, leb_ℤ, ltb_ℤ, Bool, if◌then◌else◌, List, [], ◌∷◌}

pub record TimedCommand : Type 0 where
  pub cmd_type : ℤ
  pub time_out : ℤ
  pub time_stamp : ℤ

-- `create_relay_mgr_command`: the table has one command, of 30 seconds.
unfoldable pub create_relay_mgr_command : (cmd_type now : ℤ) → List TimedCommand
create_relay_mgr_command cmd_type now =
    record { cmd_type = cmd_type; time_out = pos 30; time_stamp = now } ∷ []

-- `latest_expire_command_time`: the least of the times and of the clock, which is far above them.
unfoldable pub least_time : ℤ → List TimedCommand → ℤ
least_time t [] = t
least_time t (c ∷ cs) = least_time (if ltb_ℤ c.time_out t then c.time_out else t) cs

unfoldable pub latest_expire_command_time : (now : ℤ) → List TimedCommand → ℤ
latest_expire_command_time now cs = least_time now cs

-- `now - time_stamp >= time_out`.
unfoldable pub is_due : ℤ → TimedCommand → Bool
is_due now c = leb_ℤ c.time_out (now -ℤ c.time_stamp)

-- A command in one round: its new stamp when it runs.
unfoldable pub step : ℤ → TimedCommand → TimedCommand
step now c = if is_due now c then record c { time_stamp = now } else c

unfoldable pub round : ℤ → List TimedCommand → List TimedCommand
round now [] = []
round now (c ∷ cs) = step now c ∷ round now cs

-- The times at which a command runs, in rounds at the times given.
unfoldable pub runs : TimedCommand → List ℤ → List ℤ
runs c [] = []
runs c (now ∷ times) =
    let rest = runs (step now c) times in if is_due now c then now ∷ rest else rest

-- `relay_mgr_worker_i`: each command runs once before the loop, which leaves its stamp as it was made.
unfoldable pub worker_runs : (start : ℤ) → TimedCommand → List ℤ → List ℤ
worker_runs start c times = start ∷ runs c times
