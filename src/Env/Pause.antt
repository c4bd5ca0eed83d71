-- ===== src/Env/Pause.antt =====
-- `vzctl2_env_pause` of lib/env.c.
use libvzctl.Common.{ℕ, not, if◌then◌else◌}
use libvzctl.Common.Errors.{e_env_not_run, e_env_run}
use libvzctl.Env.{Status, cpt_suspend, EnvOutcome, returns, ◌then_do◌}

-- `suspend` is what `vzctl2_cpt_cmd` returns.
unfoldable pub pause : Status → (suspend : ℕ) → EnvOutcome
pause status suspend =
    if not status.is_up
    then returns e_env_not_run
    else if status.is_suspended
    then returns e_env_run
    else cpt_suspend suspend then_do returns suspend
