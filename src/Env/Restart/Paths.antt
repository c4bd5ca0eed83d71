-- ===== src/Env/Restart/Paths.antt =====
-- What restarting a container does.
use libvzctl.Common.{◌≡◌, true, false, Bool, arith}
use libvzctl.Common.Errors.{e_env_run}
use libvzctl.Snapshot.Flow.{running}
use libvzctl.Env.{EnvFlags, m_halt, returns}
use libvzctl.Env.Left
use libvzctl.Env.Restart.{RestartCalls, run_start, restart}
use libvzctl.Env.Start.{start_container}
use libvzctl.Env.Start.Paths.{start_container_success}
use libvzctl.Env.Stop.{run_stop}

-- When a restart returns 0, in the process itself, for a container that is down once it is stopped,
-- and registering it and dropping the dump work, the container runs, is registered as running, and has no old dump.
pub restart_success :
    (o : RestartCalls) (flags : EnvFlags) (u r d : Bool)
    → o.direct ≡ true
    → o.start.status.is_up ≡ false
    → o.start.registered ≡ 0
    → o.start.dropped ≡ 0
    → (restart o flags).ret ≡ 0
    → (Left.up u (restart o flags).trace ≡ true)
      × (Left.registered r (restart o flags).trace ≡ true)
      × (Left.dumped d (restart o flags).trace ≡ false)
unfolding restart run_start
restart_success o flags u r d g s registers drops h =
    let first = (run_stop o.first m_halt flags).trace in
    let next = (start_container o.start flags).trace in
    ground (
      arith,
      start_container_success o.start flags u r d true s,
      start_container_success o.start flags (Left.up u first) (Left.registered r first)
          (Left.dumped d first) true s,
      Left.after-append Left.up_by u first next,
      Left.after-append Left.registered_by r first next,
      Left.after-append Left.dumped_by d first next,
    )

-- With VZCTL_FORCE a running container is not stopped, and the restart returns VZCTL_E_ENV_RUN
-- without a call that changes it.
pub restart_force :
    (o : RestartCalls) (flags : EnvFlags)
    → flags.force ≡ true
    → o.run ≡ running
    → o.direct ≡ true
    → o.first.direct ≡ true
    → o.first.status.is_up ≡ true
    → o.start.status.is_up ≡ true
    → o.start.status.is_suspended ≡ false
    → restart o flags ≡ returns e_env_run
unfolding restart run_start run_stop start_container
restart_force o flags f r d g u s p = ground arith
