-- ===== src/Env/Start.antt =====
-- `vzctl_env_start` of lib/env.c.
pub mod Paths
use libvzctl.Common.{ℕ, Bool, true, false, ◌||◌, not, ◌==◌, if◌then◌else◌}
use libvzctl.Common.Errors.{
  e_env_run, e_cpupools, e_system, e_actionscript, e_wait_failed, e_resource,
}
use libvzctl.Snapshot.Flow.{Run, is_running}
use libvzctl.Env.{
  EnvFlags, EnvOutcome, returns, ◌then_do◌, ◌then_rest◌, Status, m_kill, ActionScript, run_action,
  PipeRead, read_p, cpt_resume, env_mount, env_umount, start_script, env_create, apply_param,
  continue_init, close_wait, read_status, wait_init, wait_stopped, register_state, drop_dump, reap,
  init_runtime, deinit_runtime,
}
use libvzctl.Env.Stop.{StopCalls, run_stop}

-- The results of the calls that `vzctl_env_start` makes; `waits` is `env->opts->wait`, `has_pid` says
-- that `env_create` sets `param.pid`, `registered` and `dropped` are 0 if the running state is registered
-- and the dump removed, and the fields `…_after` belong to the error path.
pub record StartCalls : Type 0 where
  pub status : Status
  pub resume : ℕ
  pub cpufeatures : Bool
  pub requires : ℕ
  pub init : ℕ
  pub osrelease : ℕ
  pub is_mounted : Bool
  pub umount : ℕ
  pub mount : ℕ
  pub script : ℕ
  pub create : ℕ
  pub apply : ℕ
  pub action : ActionScript
  pub written : Bool
  pub message : PipeRead
  pub waits : Bool
  pub waited : ℕ
  pub failcnt : Bool
  pub run_after : Run
  pub stop : StopCalls
  pub mounted_after : Bool
  pub umount_after : ℕ
  pub has_pid : Bool
  pub reaped : ℕ
  pub registered : ℕ
  pub dropped : ℕ

-- The label err_pipe.
abbrev at_err_pipe : ℕ → EnvOutcome
at_err_pipe ret = deinit_runtime then_do returns ret

-- The end of the label err: the wait for the process of the container.
end_of_err : StartCalls → ℕ → EnvOutcome
end_of_err o ret = if o.has_pid then reap o.reaped then_do at_err_pipe ret else at_err_pipe ret

-- The umount of the label err.
unfoldable pub umount_of_err : StartCalls → ℕ → EnvOutcome
unfolding end_of_err
umount_of_err o ret =
    if o.mounted_after then env_umount o.umount_after then_do end_of_err o ret else end_of_err o ret

-- The label err with an error, from `wait_env_state` on.
stop_of_err : StartCalls → EnvFlags → ℕ → EnvOutcome
unfolding is_running
stop_of_err o flags ret =
    wait_stopped
    then_do (if is_running o.run_after
        then run_stop o.stop m_kill flags then_rest umount_of_err o ret
        else umount_of_err o ret)

-- The label err with an error; `is_open` says that `wait_p[1]` is still open.
unfoldable pub err_of_start : StartCalls → EnvFlags → Bool → ℕ → EnvOutcome
unfolding stop_of_err
err_of_start o flags is_open ret =
    let code = if o.failcnt then e_resource else ret in
    if is_open then close_wait then_do stop_of_err o flags code else stop_of_err o flags code

-- From `vzctl2_register_running_state` on, whose result is not used, as that of
-- `drop_dump_state`.
start_done : StartCalls → EnvOutcome
unfolding end_of_err
start_done o = register_state o.registered then_do drop_dump o.dropped then_do end_of_err o 0

-- From `read_p` on.
start_wait : StartCalls → EnvFlags → EnvOutcome
unfolding start_done read_p
start_wait o flags =
    read_status (read_p o.message)
    then_do (if not (read_p o.message == 0)
        then err_of_start o flags false (read_p o.message)
        else if flags.to_wait || o.waits
        then wait_init o.waited
          then_do (if o.waited == 0 then start_done o else err_of_start o flags false e_wait_failed)
        else start_done o)

-- From the write to the wait pipe on.
start_continue : StartCalls → EnvFlags → EnvOutcome
unfolding start_wait
start_continue o flags =
    continue_init o.written
    then_do (if o.written then start_wait o flags else err_of_start o flags true e_system)

-- From the action script on.
start_action : StartCalls → EnvFlags → EnvOutcome
unfolding start_continue run_action
start_action o flags =
    if flags.skip_action_script
    then start_continue o flags
    else run_action o.action (err_of_start o flags true e_actionscript) (start_continue o flags)

-- From `vzctl2_apply_param` on.
start_apply : StartCalls → EnvFlags → EnvOutcome
unfolding start_action
start_apply o flags =
    if flags.skip_setup
    then start_action o flags
    else apply_param o.apply
      then_do (if o.apply == 0 then start_action o flags else err_of_start o flags true o.apply)

-- From `env_create` on.
unfoldable pub start_create : StartCalls → EnvFlags → EnvOutcome
unfolding start_apply
start_create o flags =
    env_create o.create
    then_do (if o.create == 0 then start_apply o flags else err_of_start o flags true o.create)

-- From `run_start_script` on.
start_setup : StartCalls → EnvFlags → EnvOutcome
start_setup o flags =
    if flags.skip_setup
    then start_create o flags
    else start_script o.script
      then_do (if o.script == 0 then start_create o flags else at_err_pipe o.script)

-- From `vzctl2_env_mount` on.
start_mount : StartCalls → EnvFlags → EnvOutcome
unfolding start_setup
start_mount o flags =
    env_mount o.mount then_do (if o.mount == 0 then start_setup o flags else at_err_pipe o.mount)

-- From `get_virt_osrelease` on.
start_inited : StartCalls → EnvFlags → EnvOutcome
unfolding start_mount start_setup
start_inited o flags =
    if not (o.osrelease == 0)
    then at_err_pipe o.osrelease
    else if flags.skip_mount
    then start_setup o flags
    else if o.is_mounted
    then env_umount o.umount
      then_do (if o.umount == 0 then start_mount o flags else at_err_pipe o.umount)
    else start_mount o flags

-- From `cpufeatures_sync` on, for a container that is down.
start_down : StartCalls → EnvFlags → EnvOutcome
unfolding start_inited
start_down o flags =
    if not o.cpufeatures
    then returns e_cpupools
    else if not (o.requires == 0)
    then returns o.requires
    else if not (o.init == 0)
    then returns o.init
    else init_runtime then_do start_inited o flags

-- `vzctl_env_start`.
unfoldable pub start_container : StartCalls → EnvFlags → EnvOutcome
unfolding start_down
start_container o flags =
    if o.status.is_up
    then if o.status.is_suspended
      then cpt_resume o.resume then_do returns o.resume
      else returns e_env_run
    else start_down o flags
