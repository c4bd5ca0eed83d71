-- ===== src/Env/Chkpnt/Paths.antt =====
-- What suspending a container leaves behind.
use libvzctl.Common.{◌≡◌, ◌≢◌, ◌==◌, ◌&&◌, Bool, true, false, arith, if◌then◌else◌}
use libvzctl.Env.{EnvFlags}
use libvzctl.Env.Left
use libvzctl.Env.Chkpnt.{ChkpntCalls, is_run_or_unknown, chkpnt_container}

-- When a checkpoint of the whole container returns an error, and an `env_chkpnt` that fails has
-- changed nothing but an old dump, the container runs, is registered and mounted as before, the
-- only dump that can be there is the old one, which is gone if `env_chkpnt` has removed it, and
-- the enter lock is free.
pub chkpnt_container_failure :
    (o : ChkpntCalls) (flags : EnvFlags) (u r m d : Bool)
    → (chkpnt_container o true false flags).ret ≢ 0
    → (Left.up u (chkpnt_container o true false flags).trace ≡ u)
      × (Left.registered r (chkpnt_container o true false flags).trace ≡ r)
      × (Left.mounted m (chkpnt_container o true false flags).trace ≡ m)
      × (Left.dumped d (chkpnt_container o true false flags).trace
          ≡ (if is_run_or_unknown o.run && o.unlinked then false else d))
      × (Left.locked false (chkpnt_container o true false flags).trace ≡ false)
unfolding chkpnt_container
chkpnt_container_failure o flags u r m d h = ground arith

-- When a checkpoint of the whole container returns 0, the container is down with a dump, is not
-- registered, and the enter lock is free. It is unmounted unless the umount fails, an error that
-- is not returned, or is skipped.
pub chkpnt_container_success :
    (o : ChkpntCalls) (flags : EnvFlags)
    → (chkpnt_container o true false flags).ret ≡ 0
    → (Left.up true (chkpnt_container o true false flags).trace ≡ false)
      × (Left.dumped false (chkpnt_container o true false flags).trace ≡ true)
      × (Left.registered true (chkpnt_container o true false flags).trace ≡ false)
      × (Left.locked false (chkpnt_container o true false flags).trace ≡ false)
      × (Left.mounted true (chkpnt_container o true false flags).trace
          ≡ (if flags.skip_umount then true else if o.umount == 0 then false else true))
unfolding chkpnt_container
chkpnt_container_success o flags h = ground arith
