-- ===== src/Env/Restart.antt =====
-- `vzctl2_env_start` and `vzctl2_env_restart` of lib/env.c.
pub mod Paths
use libvzctl.Common.{ℕ, Bool, if◌then◌else◌, ◌==◌}
use libvzctl.Snapshot.Flow.{Run}
use libvzctl.Env.{EnvFlags, EnvOutcome, returns, ◌then_do◌, ◌then_rest◌, m_halt, exec_wrap}
use libvzctl.Env.Chkpnt.{is_run_or_unknown}
use libvzctl.Env.Start.{StartCalls, start_container}
use libvzctl.Env.Stop.{StopCalls, run_stop}

-- `direct` is the flag `VZCTL_FLAG_DONT_USE_WRAP`, and `exec` what the process that starts the
-- container in place of the caller returns.
pub record RestartCalls : Type 0 where
  pub run : Run
  pub first : StopCalls
  pub start : StartCalls
  pub direct : Bool
  pub exec : ℕ

pub run_start : RestartCalls → EnvFlags → EnvOutcome
unfolding start_container
run_start o flags =
    if o.direct then start_container o.start flags else exec_wrap o.exec then_do returns o.exec

pub restart : RestartCalls → EnvFlags → EnvOutcome
unfolding is_run_or_unknown
restart o flags =
    if is_run_or_unknown o.run
    then (let stopped = run_stop o.first m_halt flags in
        if stopped.ret == 0 then stopped then_rest run_start o flags else stopped)
    else run_start o flags
