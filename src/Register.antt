-- ===== src/Register.antt =====
-- Registering and unregistering a container, lib/vz.c: the owner check, `validate_eid`,
-- `vzctl2_env_register` and `vzctl2_env_unreg`, as the value returned and the calls that were made.
-- The results of the calls are arguments. Log messages and closed handles are left out.
pub mod Owner
pub mod Enter
pub mod Leave
pub mod Paths
mod Tests
use libvzctl.Common.{ℕ, Bool, true, false, List, [], ◌∷◌, Str}

-- The calls that change something, with their results.
pub data RegEvent : Type 0 where
  revoke : ℕ → RegEvent
  del_everywhere : RegEvent
  add_resource del_resource : ℕ → RegEvent
  write_owner put_serverid : Bool → RegEvent
  renew_private : RegEvent
  unlink_owner : RegEvent
  set_name : Str → RegEvent
  unlink_name : Str → RegEvent
  link_name : Str → Bool → RegEvent
  set_ids clear_veid : RegEvent
  save_conf : ℕ → RegEvent
  unlink_conf link_conf : Bool → RegEvent
  unlink_lock : RegEvent
  umount : ℕ → RegEvent
  destroy_stat : RegEvent
  send_registered send_unregistered : RegEvent

-- The value returned, and the calls made.
pub record RegOutcome : Type 0 where
  pub ret : ℕ
  pub trace : List RegEvent

abbrev pub reg_returns : ℕ → RegOutcome
reg_returns n = record { ret = n; trace = [] }

infixr 6 ◌and_then◌
abbrev pub ◌and_then◌ : RegEvent → RegOutcome → RegOutcome
e and_then o = record o { trace = e ∷ o.trace }

-- The bits of `flags` that the functions test.
pub record RegFlags : Type 0 where
  pub force : Bool
  pub renew : Bool
  pub skip_cluster : Bool
  pub skip_ha_cluster : Bool
  pub skip_owner : Bool
  pub preserve : Bool
