-- ===== src/Env/Stop/Paths.antt =====
-- What stopping a container leaves behind.
use libvzctl.Common.{ℕ, ◌≡◌, ◌==◌, Bool, true, false, List, [], ◌∷◌, arith, if◌then◌else◌}
use libvzctl.Common.Errors.{e_env_stop}
use libvzctl.Env.{
  StopMode, m_halt, m_reboot, m_kill, m_kill_force, EnvFlags, EnvEvent, env_stop, unregister_state,
}
use libvzctl.Env.Left
use libvzctl.Env.Stop.{StopCalls, do_env_stop, stop_container, run_stop}

-- The ways to stop, from the one that is asked for to the most forceful one.
abbrev escalation : StopMode → List StopMode
escalation m_halt = m_halt ∷ m_kill ∷ m_kill_force ∷ []
escalation m_reboot = m_reboot ∷ m_kill ∷ m_kill_force ∷ []
escalation m_kill = m_kill ∷ m_kill_force ∷ []
escalation m_kill_force = m_kill_force ∷ []

-- The calls of `env_stop` up to the first that succeeds, and whether one does.
abbrev first_success : (StopMode → ℕ) → List StopMode → List EnvEvent × Bool
first_success stop [] = ([], false)
first_success stop (m ∷ ms) =
    let rest = first_success stop ms in
    if stop m == 0 then (env_stop m 0 ∷ [], true) else (env_stop m (stop m) ∷ rest.0, rest.1)

-- Stopping removes the registration first, and then tries the way that is asked for and the more
-- forceful ones in turn, up to the first that works. It returns 0 if one works, and
-- VZCTL_E_ENV_STOP if none does.
pub do_env_stop-escalates :
    (stop : StopMode → ℕ) (mode : StopMode)
    → ((do_env_stop stop mode).trace ≡ unregister_state ∷ (first_success stop (escalation mode)).0)
      × ((do_env_stop stop mode).ret
          ≡ (if (first_success stop (escalation mode)).1 then 0 else e_env_stop))
unfolding do_env_stop
do_env_stop-escalates stop m_halt = ground arith
do_env_stop-escalates stop m_reboot = ground arith
do_env_stop-escalates stop m_kill = ground arith
do_env_stop-escalates stop m_kill_force = ground arith

-- When stopping a running container without VZCTL_FORCE returns 0, it is down, it is not registered
-- as running, and it is unmounted unless VZCTL_SKIP_UMOUNT is set.
pub stop_container_success :
    (o : StopCalls) (mode : StopMode) (flags : EnvFlags) (b : Bool)
    → flags.force ≡ false
    → o.status.is_up ≡ true
    → (stop_container o mode flags).ret ≡ 0
    → (Left.up true (stop_container o mode flags).trace ≡ false)
      × (Left.registered true (stop_container o mode flags).trace ≡ false)
      × (Left.mounted b (stop_container o mode flags).trace
          ≡ (if flags.skip_umount then b else false))
unfolding stop_container
stop_container_success o m_halt flags b f u r = ground arith
stop_container_success o m_reboot flags b f u r = ground arith
stop_container_success o m_kill flags b f u r = ground arith
stop_container_success o m_kill_force flags b f u r = ground arith

-- Stopping registers and starts nothing, and leaves the pipes alone.
pub run_stop_keeps :
    (o : StopCalls) (flags : EnvFlags) (p : Bool)
    → (Left.registered false (run_stop o m_kill flags).trace ≡ false)
      × (Left.pipes p (run_stop o m_kill flags).trace ≡ p)
      × (Left.up false (run_stop o m_kill flags).trace ≡ false)
unfolding run_stop
run_stop_keeps o flags p = ground arith

pub run_stop_success :
    (o : StopCalls) (flags : EnvFlags)
    → flags.force ≡ false
    → o.direct ≡ true
    → o.status.is_up ≡ true
    → (run_stop o m_kill flags).ret ≡ 0
    → Left.up true (run_stop o m_kill flags).trace ≡ false
unfolding run_stop
run_stop_success o flags f d u r = ground (arith, stop_container_success o m_kill flags true f u)
