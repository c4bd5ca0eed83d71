-- ===== src/Env/Left.antt =====
-- What the calls of the life cycle leave behind. A command acts if it returns 0.
pub use libvzctl.Common.{after_calls, after-append}
use libvzctl.Common.{zero, Bool, true, false, List, ◌==◌, if◌then◌else◌}
use libvzctl.Env.{
  EnvEvent, cpt_other, env_mount, env_umount, env_create, env_restore, env_dump, env_stop,
  register_state, unregister_state, drop_dump, init_runtime, deinit_runtime, enter_lock,
  release_lock,
}

abbrev pub up_by : Bool → EnvEvent → Bool
up_by b (env_create zero) = true
up_by b (env_restore zero) = true
up_by b (env_dump zero u) = false
up_by b (cpt_other c) = c.runs b
up_by b (env_stop m zero) = false
up_by b e = b

abbrev pub mounted_by : Bool → EnvEvent → Bool
mounted_by b (env_mount zero) = true
mounted_by b (env_umount zero) = false
mounted_by b e = b

abbrev pub registered_by : Bool → EnvEvent → Bool
registered_by b (register_state zero) = true
registered_by b unregister_state = false
registered_by b (cpt_other c) = c.registers b
registered_by b e = b

abbrev pub pipes_by : Bool → EnvEvent → Bool
pipes_by b init_runtime = true
pipes_by b deinit_runtime = false
pipes_by b e = b

abbrev pub locked_by : Bool → EnvEvent → Bool
locked_by b (enter_lock true) = true
locked_by b release_lock = false
locked_by b e = b

abbrev pub dumped_by : Bool → EnvEvent → Bool
dumped_by b (env_dump n u) = if n == 0 then true else if u then false else b
dumped_by b (drop_dump zero) = false
dumped_by b e = b

-- Whether the container's processes run.
abbrev pub up : Bool → List EnvEvent → Bool
up = after_calls up_by

abbrev pub mounted : Bool → List EnvEvent → Bool
mounted = after_calls mounted_by

-- Whether the container is registered as running.
abbrev pub registered : Bool → List EnvEvent → Bool
registered = after_calls registered_by

-- Whether the runtime context holds its pipes.
abbrev pub pipes : Bool → List EnvEvent → Bool
pipes = after_calls pipes_by

-- Whether the enter lock is held.
abbrev pub locked : Bool → List EnvEvent → Bool
locked = after_calls locked_by

-- Whether the dump file of a suspended container is there.
abbrev pub dumped : Bool → List EnvEvent → Bool
dumped = after_calls dumped_by
