-- ===== src/Env/Stop.antt =====
-- `do_env_stop`, `do_env_post_stop`, `vzctl_env_stop` and `vzctl2_env_stop` of lib/env.c.
pub mod Paths
use libvzctl.Common.{ℕ, Bool, ◌||◌, if◌then◌else◌, ◌==◌, not}
use libvzctl.Common.Errors.{e_actionscript, e_env_stop}
use libvzctl.Env.{
  StopMode, m_halt, m_reboot, m_kill, m_kill_force, Status, EnvFlags, ActionScript, run_action,
  cpt_resume, env_umount, stop_script, env_stop, unregister_state, exec_wrap, EnvOutcome, returns,
  ◌then_do◌, ◌then_rest◌,
}

-- The results of the calls that `vzctl_env_stop` makes. `exec` is what the process that stops the
-- container in place of the caller returns, `direct` the flag `VZCTL_FLAG_DONT_USE_WRAP`.
pub record StopCalls : Type 0 where
  pub status : Status
  pub resume : ℕ
  pub script : ActionScript
  pub stop : StopMode → ℕ
  pub umount : ℕ
  pub direct : Bool
  pub exec : ℕ

-- One call of `env_stop`, and what comes behind its failure.
try_stop : (StopMode → ℕ) → StopMode → EnvOutcome → EnvOutcome
try_stop stop mode failed =
    env_stop mode (stop mode) then_do (if stop mode == 0 then returns 0 else failed)

-- The labels kill_force and kill.
at_kill_force : (StopMode → ℕ) → EnvOutcome
unfolding try_stop
at_kill_force stop = try_stop stop m_kill_force (returns e_env_stop)

at_kill : (StopMode → ℕ) → EnvOutcome
unfolding try_stop at_kill_force
at_kill stop = try_stop stop m_kill (at_kill_force stop)

stop_from : (StopMode → ℕ) → StopMode → EnvOutcome
unfolding try_stop at_kill at_kill_force
stop_from stop m_kill = at_kill stop
stop_from stop m_kill_force = at_kill_force stop
stop_from stop m_halt = try_stop stop m_halt (at_kill stop)
stop_from stop m_reboot = try_stop stop m_reboot (at_kill stop)

pub do_env_stop : (StopMode → ℕ) → StopMode → EnvOutcome
unfolding stop_from
do_env_stop stop mode = unregister_state then_do stop_from stop mode

unfoldable pub do_env_post_stop : ℕ → EnvFlags → EnvOutcome
do_env_post_stop umount flags =
    if flags.skip_umount
    then stop_script then_do returns 0
    else env_umount umount then_do stop_script then_do returns umount

-- From `do_env_stop` on.
stop_now : StopCalls → StopMode → EnvFlags → EnvOutcome
unfolding do_env_stop do_env_post_stop
stop_now o mode flags =
    let stopped = do_env_stop o.stop mode in
    if stopped.ret == 0 then stopped then_rest do_env_post_stop o.umount flags else stopped

-- From the action script on.
stop_up : StopCalls → StopMode → EnvFlags → EnvOutcome
unfolding stop_now run_action
stop_up o mode flags =
    if flags.skip_action_script
    then stop_now o mode flags
    else run_action o.script (returns e_actionscript) (stop_now o mode flags)

-- `vzctl_env_stop`.
pub stop_container : StopCalls → StopMode → EnvFlags → EnvOutcome
unfolding stop_up do_env_post_stop
stop_container o mode flags =
    if not o.status.is_up
    then if flags.force then do_env_post_stop o.umount flags else returns 0
    else if flags.force
    then returns 0
    else if o.status.is_suspended || o.status.is_undumped
    then cpt_resume o.resume
      then_do (if o.resume == 0 then stop_up o mode flags else returns e_env_stop)
    else stop_up o mode flags

-- `vzctl2_env_stop`.
unfoldable pub run_stop : StopCalls → StopMode → EnvFlags → EnvOutcome
unfolding stop_container
run_stop o mode flags =
    if o.direct then stop_container o mode flags else exec_wrap o.exec then_do returns o.exec
