-- ===== src/Env/Restore/Paths.antt =====
-- What restoring a container leaves behind.
use libvzctl.Common.{ℕ, ◌≡◌, ◌≢◌, Bool, true, false, arith, if◌then◌else◌, ◌&&◌, ◌==◌}
use libvzctl.Common.Errors.{e_system, e_actionscript, e_resource}
use libvzctl.Env.{EnvFlags, read_p}
use libvzctl.Env.Left
use libvzctl.Env.Restore.{
  RestoreCalls, err_of_restore, reaped_ret, restore_now, restore_setup, restore_container,
}

err_of_restore_fails :
    (o : RestoreCalls) (is_open : Bool) (ret : ℕ) (u d m : Bool)
    → ret ≢ 0
    → ((err_of_restore o is_open ret).ret ≢ 0)
      × (Left.dumped d (err_of_restore o is_open ret).trace ≡ d)
      × (Left.up u (err_of_restore o is_open ret).trace ≡ u)
      × (Left.pipes true (err_of_restore o is_open ret).trace ≡ false)
unfolding err_of_restore
err_of_restore_fails o is_open ret u d m h = ground arith

restore_now_success :
    (o : RestoreCalls) (flags : EnvFlags) (m : Bool)
    → (restore_now o flags).ret ≡ 0
    → (Left.up false (restore_now o flags).trace ≡ true)
      × (Left.mounted m (restore_now o flags).trace ≡ m)
      × (Left.dumped true (restore_now o flags).trace
          ≡ (if o.own_file && o.dropped == 0 then false else true))
      × (Left.pipes true (restore_now o flags).trace ≡ false)
unfolding restore_now
restore_now_success o flags m h = ground (
  arith,
  err_of_restore_fails o false (read_p o.message) true true true,
  err_of_restore_fails o true e_system true true true,
  err_of_restore_fails o true e_actionscript true true true,
  err_of_restore_fails o true o.apply true true true,
  err_of_restore_fails o true o.restore true true true,
)

restore_now_failure :
    (o : RestoreCalls) (flags : EnvFlags)
    → reaped_ret o 0 ≡ 0
    → (restore_now o flags).ret ≢ 0
    → Left.dumped true (restore_now o flags).trace ≡ true
unfolding restore_now
restore_now_failure o flags c h = ground (
  arith,
  err_of_restore_fails o false (read_p o.message) true true true,
  err_of_restore_fails o true e_system true true true,
  err_of_restore_fails o true e_actionscript true true true,
  err_of_restore_fails o true o.apply true true true,
  err_of_restore_fails o true o.restore true true true,
)

-- When restoring a container returns 0, and a first umount that works leaves it unmounted, the
-- container runs, is mounted, its own dump is dropped, if that works, while a dump that the caller names is
-- kept, and the pipes are closed.
pub restore_container_success :
    (o : RestoreCalls) (flags : EnvFlags)
    → (o.umount ≡ 0 → o.still_mounted ≡ false)
    → (restore_container o true flags).ret ≡ 0
    → (Left.up false (restore_container o true flags).trace ≡ true)
      × (Left.mounted o.is_mounted (restore_container o true flags).trace ≡ true)
      × (Left.dumped true (restore_container o true flags).trace
          ≡ (if o.own_file && o.dropped == 0 then false else true))
      × (Left.pipes false (restore_container o true flags).trace ≡ false)
unfolding restore_container restore_setup
restore_container_success o flags m h =
    ground (arith, restore_now_success o flags true, restore_now_success o flags o.is_mounted)

-- When restoring a container returns an error, and criu, if it is waited for, exits with 0, the
-- dump is still there.
pub restore_container_failure :
    (o : RestoreCalls) (flags : EnvFlags)
    → reaped_ret o 0 ≡ 0
    → (restore_container o true flags).ret ≢ 0
    → Left.dumped true (restore_container o true flags).trace ≡ true
unfolding restore_container restore_setup
restore_container_failure o flags c h = ground (arith, restore_now_failure o flags c)

-- Without setup and action script, every call up to the message of the error pipe succeeds, and then criu exits with an error.
pub record IsCriuFailing (o : RestoreCalls) (flags : EnvFlags) : Type 0 where
  pub skips_setup : flags.skip_setup ≡ true
  pub skips_script : flags.skip_action_script ≡ true
  pub restored : o.restore ≡ 0
  pub continued : o.written ≡ true
  pub answered : read_p o.message ≡ 0
  pub own : o.own_file ≡ true
  pub dump_dropped : o.dropped ≡ 0
  pub waited_for : o.has_pid ≡ true
  pub collected : o.reaped ≡ 0
  pub criu_fails : o.exit_code ≢ 0

-- When criu exits with an error behind a restore whose calls all worked, VZCTL_E_RESOURCE is
-- returned although the dump is gone and the container was not stopped.
pub restore_now_loses :
    (o : RestoreCalls) (flags : EnvFlags) (u : Bool)
    → IsCriuFailing o flags
    → ((restore_now o flags).ret ≡ e_resource)
      × (Left.dumped true (restore_now o flags).trace ≡ false)
      × (Left.up u (restore_now o flags).trace ≡ true)
unfolding restore_now
restore_now_loses o flags u f = ground arith
