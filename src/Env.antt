-- ===== src/Env.antt =====
-- The life cycle of a container, lib/env.c: start, stop, pause, checkpoint, restore and restart, as
-- the value returned and the sequence of the calls that were made. The results of the calls are
-- arguments. Log messages are left out.
pub mod Chkpnt
pub mod Left
pub mod Pause
pub mod Restart
pub mod Restore
pub mod Start
pub mod State
pub mod Stop
mod Tests
use libvzctl.Common.{ℕ, Bool, true, false, List, [], ◌∷◌, ◌++◌, ◌==◌, if◌then◌else◌}
use libvzctl.Common.Errors.{e_system}
use libvzctl.Snapshot.Flow.{Stat, is_nonzero}

-- `stop_mode_e`.
pub data StopMode : Type 0 where
  m_halt m_reboot m_kill m_kill_force : StopMode

-- `env_status.mask`: `ENV_STATUS_RUNNING`, `ENV_STATUS_CPT_SUSPENDED`, `ENV_STATUS_CPT_UNDUMPED`.
pub record Status : Type 0 where
  pub is_up : Bool
  pub is_suspended : Bool
  pub is_undumped : Bool

-- The bits of `flags` that the functions test.
pub record EnvFlags : Type 0 where
  pub skip_setup : Bool
  pub skip_action_script : Bool
  pub to_wait : Bool
  pub force : Bool
  pub skip_umount : Bool
  pub skip_mount : Bool

-- `stat_file(buf)` and the exit code of the script.
pub record ActionScript : Type 0 where
  pub there : Stat
  pub code : ℕ

-- What `vzctl2_cpt_cmd` does: its result, and how it changes whether the container runs and whether it
-- is registered. It kills or resumes the container by ioctls, and can fail behind them.
pub record CptEffect : Type 0 where
  pub code : ℕ
  pub runs : Bool → Bool
  pub registers : Bool → Bool

-- The calls that change the state of the container, with their results. `unlinked` says that a dump
-- which fails has removed the dump file that was there.
pub data EnvEvent : Type 0 where
  cpt_resume cpt_suspend : ℕ → EnvEvent
  cpt_other : CptEffect → EnvEvent
  env_mount env_umount : ℕ → EnvEvent
  start_script : ℕ → EnvEvent
  stop_script : EnvEvent
  action_script : ℕ → EnvEvent
  env_create env_restore : ℕ → EnvEvent
  env_dump : ℕ → (unlinked : Bool) → EnvEvent
  env_stop : StopMode → ℕ → EnvEvent
  apply_param : ℕ → EnvEvent
  continue_init : Bool → EnvEvent
  close_wait : EnvEvent
  read_status : ℕ → EnvEvent
  wait_init : ℕ → EnvEvent
  wait_stopped : EnvEvent
  register_state drop_dump : ℕ → EnvEvent
  unregister_state : EnvEvent
  reap : ℕ → EnvEvent
  init_runtime deinit_runtime : EnvEvent
  enter_lock : Bool → EnvEvent
  release_lock : EnvEvent
  send_suspended : EnvEvent
  announce_ips : EnvEvent
  exec_wrap : ℕ → EnvEvent

-- The value returned, and the calls made.
pub record EnvOutcome : Type 0 where
  pub ret : ℕ
  pub trace : List EnvEvent

abbrev pub returns : ℕ → EnvOutcome
returns n = record { ret = n; trace = [] }

-- A call, then the rest of the function.
infixr 6 ◌then_do◌
abbrev pub ◌then_do◌ : EnvEvent → EnvOutcome → EnvOutcome
e then_do o = record o { trace = e ∷ o.trace }

-- All calls of an outcome whose value is not used, then the rest of the function.
infixr 6 ◌then_rest◌
abbrev pub ◌then_rest◌ : EnvOutcome → EnvOutcome → EnvOutcome
p then_rest o = record o { trace = p.trace ++ o.trace }

-- `stat_file(buf) && vzctl2_wrap_env_exec_script(…)`: what to do if the script is there and fails,
-- and otherwise.
pub run_action : ActionScript → EnvOutcome → EnvOutcome → EnvOutcome
unfolding is_nonzero
run_action s failed passed =
    if is_nonzero s.there
    then action_script s.code then_do (if s.code == 0 then passed else failed)
    else passed

-- What `read(fd, &errcode, sizeof(errcode))` yields.
pub data PipeRead : Type 0 where
  broken closed : PipeRead
  message : ℕ → PipeRead

-- `read_p`.
pub read_p : PipeRead → ℕ
read_p broken = e_system
read_p closed = e_system
read_p (message code) = code
