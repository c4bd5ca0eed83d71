-- ===== src/Env/Start/Paths.antt =====
-- What starting a container leaves behind.
use libvzctl.Common.{ℕ, ◌≡◌, ◌≢◌, Bool, true, false, arith, if◌then◌else◌, ◌==◌}
use libvzctl.Common.Errors.{e_system, e_actionscript, e_wait_failed, e_resource}
use libvzctl.Env.{EnvFlags, read_p, m_kill}
use libvzctl.Snapshot.Flow.{running}
use libvzctl.Env.Left
use libvzctl.Env.Stop.{run_stop}
use libvzctl.Env.Stop.Paths.{run_stop_keeps, run_stop_success}
use libvzctl.Env.Start.{StartCalls, umount_of_err, err_of_start, start_create, start_container}

err_of_start_fails :
    (o : StartCalls) (flags : EnvFlags) (is_open : Bool) (ret : ℕ)
    → (err_of_start o flags is_open ret).ret ≡ (if o.failcnt then e_resource else ret)
unfolding err_of_start umount_of_err
err_of_start_fails o flags is_open ret = ground arith

start_create_success :
    (o : StartCalls) (flags : EnvFlags) (u r d m : Bool)
    → (start_create o flags).ret ≡ 0
    → (Left.up u (start_create o flags).trace ≡ true)
      × (Left.registered r (start_create o flags).trace ≡ (if o.registered == 0 then true else r))
      × (Left.mounted m (start_create o flags).trace ≡ m)
      × (Left.dumped d (start_create o flags).trace ≡ (if o.dropped == 0 then false else d))
      × (Left.pipes true (start_create o flags).trace ≡ false)
unfolding start_create
start_create_success o flags u r d m h = ground (
  arith,
  err_of_start_fails o flags false (read_p o.message),
  err_of_start_fails o flags false e_wait_failed,
  err_of_start_fails o flags true e_system,
  err_of_start_fails o flags true e_actionscript,
  err_of_start_fails o flags true o.apply,
  err_of_start_fails o flags true o.create,
)

pub start_container_success :
    (o : StartCalls) (flags : EnvFlags) (u r d m : Bool)
    → o.status.is_up ≡ false
    → (start_container o flags).ret ≡ 0
    → (Left.up u (start_container o flags).trace ≡ true)
      × (Left.registered r (start_container o flags).trace
          ≡ (if o.registered == 0 then true else r))
      × (Left.mounted m (start_container o flags).trace ≡ (if flags.skip_mount then m else true))
      × (Left.dumped d (start_container o flags).trace ≡ (if o.dropped == 0 then false else d))
      × (Left.pipes false (start_container o flags).trace ≡ false)
unfolding start_container
start_container_success o flags u r d m s h =
    ground (arith, start_create_success o flags u r d m, start_create_success o flags u r d true)

-- On the error path the container is found running, and stopping it works.
pub record IsStopping (o : StartCalls) (flags : EnvFlags) : Type 0 where
  pub found_running : o.run_after ≡ running
  pub stop_direct : o.stop.direct ≡ true
  pub stop_is_up : o.stop.status.is_up ≡ true
  pub stop_works : (run_stop o.stop m_kill flags).ret ≡ 0

umount_of_err_leaves :
    (o : StartCalls) (ret : ℕ) (m : Bool)
    → (Left.registered false (umount_of_err o ret).trace ≡ false)
      × (Left.pipes true (umount_of_err o ret).trace ≡ false)
      × (Left.up false (umount_of_err o ret).trace ≡ false)
      × (o.mounted_after ≡ true
          → o.umount_after ≡ 0
          → Left.mounted m (umount_of_err o ret).trace ≡ false)
unfolding umount_of_err
umount_of_err_leaves o ret m = ground arith

-- What the label err leaves behind, when it is reached with an error.
err_of_start_leaves :
    (o : StartCalls) (flags : EnvFlags) (is_open : Bool) (ret : ℕ) (m : Bool)
    → (Left.registered false (err_of_start o flags is_open ret).trace ≡ false)
      × (Left.pipes true (err_of_start o flags is_open ret).trace ≡ false)
      × (o.mounted_after ≡ true
          → o.umount_after ≡ 0
          → Left.mounted m (err_of_start o flags is_open ret).trace ≡ false)
unfolding err_of_start
err_of_start_leaves o flags is_open ret m =
    let code = if o.failcnt then e_resource else ret in
    let stopped = (run_stop o.stop m_kill flags).trace in
    let rest = (umount_of_err o code).trace in
    ground (
      arith,
      run_stop_keeps o.stop flags true,
      umount_of_err_leaves o code m,
      umount_of_err_leaves o code (Left.mounted m stopped),
      Left.after-append Left.registered_by false stopped rest,
      Left.after-append Left.pipes_by true stopped rest,
      Left.after-append Left.mounted_by m stopped rest,
    )

start_create_failure :
    (o : StartCalls) (flags : EnvFlags) (m : Bool)
    → (start_create o flags).ret ≢ 0
    → (Left.registered false (start_create o flags).trace ≡ false)
      × (Left.pipes true (start_create o flags).trace ≡ false)
      × (o.mounted_after ≡ true
          → o.umount_after ≡ 0
          → Left.mounted m (start_create o flags).trace ≡ false)
unfolding start_create
start_create_failure o flags m h = ground (
  arith,
  err_of_start_leaves o flags false (read_p o.message) m,
  err_of_start_leaves o flags false e_wait_failed m,
  err_of_start_leaves o flags true e_system m,
  err_of_start_leaves o flags true e_actionscript m,
  err_of_start_leaves o flags true o.apply m,
  err_of_start_leaves o flags true o.create m,
)

-- When it returns an error for a container that is down, the container is not registered and the
-- pipes are closed.
pub start_container_failure :
    (o : StartCalls) (flags : EnvFlags)
    → o.status.is_up ≡ false
    → (start_container o flags).ret ≢ 0
    → (Left.registered false (start_container o flags).trace ≡ false)
      × (Left.pipes false (start_container o flags).trace ≡ false)
unfolding start_container
start_container_failure o flags d h =
    ground (arith, start_create_failure o flags false, start_create_failure o flags true)

-- When it returns an error for a container that is down and unmounted, its start script does not
-- fail, and the container, if it is found mounted at the end, can be unmounted, it is unmounted.
pub start_container_unmounts :
    (o : StartCalls) (flags : EnvFlags)
    → o.status.is_up ≡ false
    → (start_container o flags).ret ≢ 0
    → o.script ≡ 0
    → o.mounted_after ≡ true
    → o.umount_after ≡ 0
    → Left.mounted false (start_container o flags).trace ≡ false
unfolding start_container
start_container_unmounts o flags d h s m u =
    ground (arith, start_create_failure o flags false, start_create_failure o flags true)

-- The label err, when the container is found running and killing it works.
err_of_start_stops :
    (o : StartCalls) (flags : EnvFlags) (is_open : Bool) (ret : ℕ) (u : Bool)
    → flags.force ≡ false
    → IsStopping o flags
    → Left.up u (err_of_start o flags is_open ret).trace ≡ false
unfolding err_of_start
err_of_start_stops o flags is_open ret true f s =
    let code = if o.failcnt then e_resource else ret in
    let stopped = (run_stop o.stop m_kill flags).trace in
    ground (
      arith,
      run_stop_success o.stop flags f s.stop_direct s.stop_is_up s.stop_works,
      umount_of_err_leaves o code false,
      Left.after-append Left.up_by true stopped (umount_of_err o code).trace,
    )
err_of_start_stops o flags is_open ret false f s =
    let code = if o.failcnt then e_resource else ret in
    let stopped = (run_stop o.stop m_kill flags).trace in
    ground (
      arith,
      run_stop_keeps o.stop flags true,
      umount_of_err_leaves o code false,
      Left.after-append Left.up_by false stopped (umount_of_err o code).trace,
    )

start_create_stops :
    (o : StartCalls) (flags : EnvFlags)
    → flags.force ≡ false
    → IsStopping o flags
    → (start_create o flags).ret ≢ 0
    → Left.up false (start_create o flags).trace ≡ false
unfolding start_create
start_create_stops o flags f s h = ground (
  arith,
  err_of_start_stops o flags false (read_p o.message) true f s,
  err_of_start_stops o flags false e_wait_failed true f s,
  err_of_start_stops o flags true e_system true f s,
  err_of_start_stops o flags true e_actionscript true f s,
  err_of_start_stops o flags true o.apply true f s,
  err_of_start_stops o flags true o.create false f s,
)

-- When it returns an error for a container that is down, without VZCTL_FORCE, and the container
-- that is found running at the end can be stopped, the container does not run.
pub start_container_stops :
    (o : StartCalls) (flags : EnvFlags)
    → o.status.is_up ≡ false
    → flags.force ≡ false
    → IsStopping o flags
    → (start_container o flags).ret ≢ 0
    → Left.up false (start_container o flags).trace ≡ false
unfolding start_container
start_container_stops o flags d f s h = ground (arith, start_create_stops o flags f s)

-- The calls up to the start script succeed, and the start script fails.
pub record IsScriptFailing (o : StartCalls) (flags : EnvFlags) : Type 0 where
  pub is_down : o.status.is_up ≡ false
  pub synced : o.cpufeatures ≡ true
  pub allowed : o.requires ≡ 0
  pub inited : o.init ≡ 0
  pub known : o.osrelease ≡ 0
  pub mounts : flags.skip_mount ≡ false
  pub umounted : o.umount ≡ 0
  pub was_mounted : o.mount ≡ 0
  pub runs_setup : flags.skip_setup ≡ false
  pub script_fails : o.script ≢ 0

-- When only the start script fails, its code is returned and the container stays mounted.
pub start_container_leak :
    (o : StartCalls) (flags : EnvFlags) (m : Bool)
    → IsScriptFailing o flags
    → ((start_container o flags).ret ≡ o.script)
      × (Left.mounted m (start_container o flags).trace ≡ true)
unfolding start_container
start_container_leak o flags m f = ground arith
