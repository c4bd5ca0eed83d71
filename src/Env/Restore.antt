-- ===== src/Env/Restore.antt =====
-- `vzctl_env_restore` of lib/env.c.
pub mod Paths
use libvzctl.Common.{ℕ, Bool, true, false, not, ◌==◌, if◌then◌else◌}
use libvzctl.Common.Errors.{e_env_run, e_restore, e_cpupools, e_system, e_actionscript, e_resource}
use libvzctl.Snapshot.Flow.{Run, Stat, is_there}
use libvzctl.Env.{
  EnvFlags, EnvOutcome, returns, ◌then_do◌, ActionScript, run_action, PipeRead, read_p, CptEffect,
  cpt_other, env_mount, env_umount, start_script, env_restore, apply_param, continue_init,
  close_wait, read_status, drop_dump, reap, init_runtime, deinit_runtime, announce_ips,
}
use libvzctl.Env.Chkpnt.{is_run_or_unknown}

-- The results of the calls that `vzctl_env_restore` makes; `own_file` says that `param->dumpfile` is
-- NULL, `still_mounted` answers `vzctl2_env_is_mounted` behind the first umount, `has_pid` says
-- that `env_restore` sets `start_param.pid`, and `exit_code` is what `env_wait` stores.
pub record RestoreCalls : Type 0 where
  pub other : CptEffect
  pub run : Run
  pub dump_file : Stat
  pub own_file : Bool
  pub cpufeatures : Bool
  pub requires : ℕ
  pub init : ℕ
  pub is_mounted : Bool
  pub umount : ℕ
  pub still_mounted : Bool
  pub mount : ℕ
  pub script : ℕ
  pub restore : ℕ
  pub apply : ℕ
  pub action : ActionScript
  pub written : Bool
  pub message : PipeRead
  pub failcnt : Bool
  pub has_pid : Bool
  pub reaped : ℕ
  pub dropped : ℕ
  pub exit_code : ℕ
  pub mounted_after : Bool
  pub umount_after : ℕ

-- The label err_pipe.
end_of_restore : ℕ → EnvOutcome
end_of_restore ret = deinit_runtime then_do returns ret

-- The label err, from the second test of `ret` on.
umount_restored : RestoreCalls → ℕ → EnvOutcome
unfolding end_of_restore
umount_restored o ret =
    if ret == 0
    then end_of_restore 0
    else if o.mounted_after
    then env_umount o.umount_after then_do end_of_restore ret
    else end_of_restore ret

-- The result, from the wait for criu.
pub reaped_ret : RestoreCalls → ℕ → ℕ
reaped_ret o ret =
    if not (o.reaped == 0) then e_system else if o.exit_code == 0 then ret else e_resource

-- The label err, from the wait for criu on.
reap_restored : RestoreCalls → ℕ → EnvOutcome
unfolding umount_restored reaped_ret
reap_restored o ret =
    if o.has_pid
    then reap o.reaped then_do umount_restored o (reaped_ret o ret)
    else umount_restored o ret

-- The label err with an error; `is_open` says that `wait_p[1]` is still open.
unfoldable pub err_of_restore : RestoreCalls → Bool → ℕ → EnvOutcome
unfolding reap_restored
err_of_restore o is_open ret =
    let code = if o.failcnt then e_resource else ret in
    if is_open then close_wait then_do reap_restored o code else reap_restored o code

-- From the end of the error pipe on.
restore_done : RestoreCalls → EnvOutcome
unfolding reap_restored
restore_done o =
    if o.own_file
    then drop_dump o.dropped then_do announce_ips then_do reap_restored o 0
    else announce_ips then_do reap_restored o 0

-- From the write to the wait pipe on.
restore_continue : RestoreCalls → EnvOutcome
unfolding restore_done read_p
restore_continue o =
    continue_init o.written
    then_do (if not o.written
        then err_of_restore o true e_system
        else read_status (read_p o.message)
          then_do (if read_p o.message == 0
              then restore_done o
              else err_of_restore o false (read_p o.message)))

-- From the action script on.
restore_action : RestoreCalls → EnvFlags → EnvOutcome
unfolding restore_continue run_action
restore_action o flags =
    if flags.skip_action_script
    then restore_continue o
    else run_action o.action (err_of_restore o true e_actionscript) (restore_continue o)

-- From `vzctl2_apply_param` on.
restore_apply : RestoreCalls → EnvFlags → EnvOutcome
unfolding restore_action
restore_apply o flags =
    if flags.skip_setup
    then restore_action o flags
    else apply_param o.apply
      then_do (if o.apply == 0 then restore_action o flags else err_of_restore o true o.apply)

-- From `env_restore` on.
unfoldable pub restore_now : RestoreCalls → EnvFlags → EnvOutcome
unfolding restore_apply
restore_now o flags =
    env_restore o.restore
    then_do (if o.restore == 0 then restore_apply o flags else err_of_restore o true o.restore)

-- From `run_start_script` on.
unfoldable pub restore_setup : RestoreCalls → EnvFlags → EnvOutcome
unfolding end_of_restore
restore_setup o flags =
    if flags.skip_setup
    then restore_now o flags
    else start_script o.script
      then_do (if o.script == 0 then restore_now o flags else end_of_restore o.script)

-- From `vzctl2_env_mount` on; `is_mounted` says that it is not called.
restore_mount : RestoreCalls → EnvFlags → Bool → EnvOutcome
unfolding end_of_restore
restore_mount o flags is_mounted =
    if is_mounted
    then restore_setup o flags
    else env_mount o.mount
      then_do (if o.mount == 0 then restore_setup o flags else end_of_restore o.mount)

-- From the first `vzctl2_env_is_mounted` on.
restore_inited : RestoreCalls → EnvFlags → EnvOutcome
unfolding restore_mount
restore_inited o flags =
    if o.is_mounted
    then env_umount o.umount then_do restore_mount o flags o.still_mounted
    else restore_mount o flags false

-- `vzctl_env_restore`; `restores` says that `param->cmd` is `VZCTL_CMD_RESTORE`.
unfoldable pub restore_container : RestoreCalls → (restores : Bool) → EnvFlags → EnvOutcome
unfolding restore_inited is_run_or_unknown is_there
restore_container o restores flags =
    if not restores
    then cpt_other o.other then_do returns o.other.code
    else if is_run_or_unknown o.run
    then returns e_env_run
    else if not (is_there o.dump_file)
    then returns e_restore
    else if not o.cpufeatures
    then returns e_cpupools
    else if not (o.requires == 0)
    then returns o.requires
    else if not (o.init == 0)
    then returns o.init
    else init_runtime then_do restore_inited o flags
