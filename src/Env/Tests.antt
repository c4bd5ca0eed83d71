-- ===== src/Env/Tests.antt =====
-- The life cycle at concrete inputs.
use libvzctl.Common.{ℕ, ◌≡◌, ◌≤◌, refl, true, false, some, arith, [], ◌∷◌, ◌==◌, if◌then◌else◌}
use libvzctl.Common.Errors.{e_env_run}
use libvzctl.Snapshot.Flow.{Run, running, stopped, unknown, exists}
use libvzctl.Env.{
  CptEffect, StopMode, m_halt, m_kill, m_kill_force, Status, EnvFlags, ActionScript, message,
  returns, env_stop, unregister_state,
}
use libvzctl.Env.Chkpnt.{ChkpntCalls, is_run_or_unknown, chkpnt_container}
use libvzctl.Env.Chkpnt.Paths.{chkpnt_container_failure}
use libvzctl.Env.Left
use libvzctl.Env.Pause.{pause}
use libvzctl.Env.Restart.{RestartCalls}
use libvzctl.Env.Restore.{
  RestoreCalls, err_of_restore, restore_container, restore_now, restore_setup,
}
use libvzctl.Env.Restore.Paths.{restore_container_failure}
use libvzctl.Env.Start.{StartCalls, err_of_start, start_container, start_create, umount_of_err}
use libvzctl.Env.Start.Paths.{start_container_stops}
use libvzctl.Env.State.{ended, is_reached, wait_env_state, wait_env_state-ends}
use libvzctl.Env.Stop.{StopCalls, do_env_stop, run_stop}
use libvzctl.Env.Stop.Paths.{do_env_stop-escalates}

abbrev plain : EnvFlags
plain = record {
  skip_setup = false;
  skip_action_script = false;
  to_wait = false;
  force = false;
  skip_umount = false;
  skip_mount = false;
}

abbrev forced : EnvFlags
forced = record plain { force = true }

abbrev bare : EnvFlags
bare = record plain { skip_setup = true; skip_action_script = true }

abbrev down : Status
down = record { is_up = false; is_suspended = false; is_undumped = false }

abbrev alive : Status
alive = record { is_up = true; is_suspended = false; is_undumped = false }

abbrev passing : ActionScript
passing = record { there = exists; code = 0 }

-- Only the most forceful way works.
abbrev stubborn : StopMode → ℕ
stubborn m_kill_force = 0
stubborn _ = 33

abbrev stop_calls : StopCalls
stop_calls = record {
  status = alive;
  resume = 0;
  script = passing;
  stop = stubborn;
  umount = 0;
  direct = true;
  exec = 0;
}

abbrev start_calls : StartCalls
start_calls = record {
  status = down;
  resume = 0;
  cpufeatures = true;
  requires = 0;
  init = 0;
  osrelease = 0;
  is_mounted = false;
  umount = 0;
  mount = 0;
  script = 0;
  create = 0;
  apply = 0;
  action = passing;
  written = true;
  message = message 0;
  waits = true;
  waited = 0;
  failcnt = false;
  run_after = running;
  stop = stop_calls;
  mounted_after = true;
  umount_after = 0;
  has_pid = true;
  reaped = 0;
  registered = 0;
  dropped = 0;
}

-- The container's init reports the error 3.
abbrev broken_init : StartCalls
broken_init = record start_calls { message = message 3 }

abbrev broken_script : StartCalls
broken_script = record start_calls { script = 79 }

abbrev no_effect : CptEffect
no_effect = record { code = 0; runs = λ b. b; registers = λ b. b }

abbrev restore_calls : RestoreCalls
restore_calls = record {
  other = no_effect;
  run = stopped;
  dump_file = exists;
  own_file = true;
  cpufeatures = true;
  requires = 0;
  init = 0;
  is_mounted = true;
  umount = 0;
  still_mounted = false;
  mount = 0;
  script = 0;
  restore = 0;
  apply = 0;
  action = passing;
  written = true;
  message = message 0;
  failcnt = false;
  has_pid = true;
  reaped = 0;
  dropped = 0;
  exit_code = 0;
  mounted_after = true;
  umount_after = 0;
}

abbrev chkpnt_calls : ChkpntCalls
chkpnt_calls = record {
  run = running;
  other = no_effect;
  locked = true;
  dump = 0;
  unlinked = true;
  umount = 0;
}

abbrev restart_calls : RestartCalls
restart_calls = record {
  run = running;
  first = stop_calls;
  start = start_calls;
  direct = true;
  exec = 0;
}

-- A container that is down from the third poll on.
abbrev dying : ℕ → Run
dying n = if n == 0 then running else if n == 1 then unknown else stopped

pause_twice : pause (record alive { is_suspended = true }) 0 ≡ returns e_env_run
unfolding pause
pause_twice = refl

wait_env_state-ends_example : (m : ℕ) × (wait_env_state dying ended 5 ≡ some m) × (m ≤ 4)
unfolding is_reached
wait_env_state-ends_example = wait_env_state-ends dying ended 5 4 (omega arith) refl

do_env_stop-escalates_example :
    ((do_env_stop stubborn m_halt).trace
      ≡ unregister_state ∷ env_stop m_halt 33 ∷ env_stop m_kill 33 ∷ env_stop m_kill_force 0 ∷ [])
    × ((do_env_stop stubborn m_halt).ret ≡ 0)
do_env_stop-escalates_example = do_env_stop-escalates stubborn m_halt

chkpnt_container_failure_example :
    let o = record chkpnt_calls { dump = 16 } in
    (Left.up true (chkpnt_container o true false plain).trace ≡ true)
    × (Left.registered true (chkpnt_container o true false plain).trace ≡ true)
    × (Left.mounted true (chkpnt_container o true false plain).trace ≡ true)
    × (Left.dumped false (chkpnt_container o true false plain).trace ≡ false)
    × (Left.locked false (chkpnt_container o true false plain).trace ≡ false)
unfolding chkpnt_container is_run_or_unknown
chkpnt_container_failure_example =
    chkpnt_container_failure (record chkpnt_calls { dump = 16 }) plain true true true false
      (ground arith)

start_container_stops_example : Left.up false (start_container broken_init plain).trace ≡ false
unfolding start_container start_create err_of_start umount_of_err run_stop
start_container_stops_example =
    start_container_stops broken_init plain refl refl
      record { found_running = refl; stop_direct = refl; stop_is_up = refl; stop_works = refl }
      (ground arith)

restore_container_failure_example :
    Left.dumped true (restore_container (record restore_calls { apply = 3 }) true plain).trace
    ≡ true
unfolding restore_container restore_setup restore_now err_of_restore
restore_container_failure_example =
    restore_container_failure (record restore_calls { apply = 3 }) plain refl (ground arith)
