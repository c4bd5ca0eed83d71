-- ===== src/Env/Chkpnt.antt =====
-- `vzctl_env_chkpnt` of lib/env.c.
pub mod Paths
use libvzctl.Common.{ℕ, Bool, true, false, ◌||◌, not, ◌==◌, if◌then◌else◌}
use libvzctl.Common.Errors.{e_env_not_run}
use libvzctl.Snapshot.Flow.{Run, running, stopped, unknown}
use libvzctl.Env.{
  EnvFlags, EnvOutcome, returns, ◌then_do◌, ◌then_rest◌, CptEffect, cpt_other, enter_lock,
  release_lock, env_dump, unregister_state, wait_stopped, send_suspended,
}
use libvzctl.Env.Stop.{do_env_post_stop}

-- The results of the calls that `vzctl_env_chkpnt` makes; `unlinked` says that `env_chkpnt` removes
-- an old dump file before it fails.
pub record ChkpntCalls : Type 0 where
  pub run : Run
  pub other : CptEffect
  pub locked : Bool
  pub dump : ℕ
  pub unlinked : Bool
  pub umount : ℕ

-- `is_env_run(h)` used as a condition: -1 counts as true.
unfoldable pub is_run_or_unknown : Run → Bool
is_run_or_unknown stopped = false
is_run_or_unknown running = true
is_run_or_unknown unknown = true

-- `release_enter_lock(lfd)`, and the end.
unlock : Bool → ℕ → EnvOutcome
unlock locked ret = if locked then release_lock then_do returns ret else returns ret

-- From `env_chkpnt` on.
dump_locked : ChkpntCalls → EnvFlags → EnvOutcome
unfolding unlock do_env_post_stop
dump_locked o flags =
    env_dump o.dump o.unlinked
    then_do (if not (o.dump == 0)
        then unlock o.locked o.dump
        else unregister_state
          then_do wait_stopped
          then_do do_env_post_stop o.umount flags
          then_rest send_suspended
          then_do unlock o.locked 0)

-- `vzctl_env_chkpnt`; `checkpoints` says that `cmd` is `VZCTL_CMD_CHKPNT`, and `devmap` that
-- `VZCTL_CPT_CREATE_DEVMAP` is set.
unfoldable pub chkpnt_container : ChkpntCalls → (checkpoints devmap : Bool) → EnvFlags → EnvOutcome
unfolding dump_locked is_run_or_unknown
chkpnt_container o checkpoints devmap flags =
    if not (is_run_or_unknown o.run)
    then returns e_env_not_run
    else if not checkpoints || devmap
    then cpt_other o.other then_do returns o.other.code
    else enter_lock o.locked then_do dump_locked o flags
