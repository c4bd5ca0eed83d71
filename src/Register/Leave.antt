-- ===== src/Register/Leave.antt =====
-- `unregister_env_conf` and `vzctl2_env_unreg` of lib/vz.c.
use libvzctl.Common.{
  ℕ, Bool, true, false, not, ◌||◌, ◌&&◌, Option, none, some, Str, ◌==◌, if◌then◌else◌,
}
use libvzctl.Common.Errors.{e_system, e_env_run, e_fs_mounted, e_unregister, e_env_manage_disabled}
use libvzctl.Register.{
  RegFlags, RegOutcome, reg_returns, ◌and_then◌, del_resource, unlink_owner, unlink_name,
  clear_veid, save_conf, unlink_conf, unlink_lock, umount, destroy_stat, send_unregistered,
}
use libvzctl.Register.Owner.{OwnerCalls, check_owner, is_shared}
use libvzctl.Register.Enter.{is_new_layout}

-- The `unlink` of the link to the configuration.
pub data Unlinked : Type 0 where
  gone was_absent refused : Unlinked

-- `same_file` says that the link of the name leads to the configuration.
pub record UnregCalls : Type 0 where
  pub is_run : Bool
  pub has_private : Bool
  pub layout : Option ℕ
  pub owner : OwnerCalls
  pub is_mounted : Bool
  pub umounted : ℕ
  pub saved : ℕ
  pub name : Option Str
  pub same_file : Bool
  pub link : Unlinked
  pub deleted : ℕ

pub is_unlinked : Unlinked → Bool
is_unlinked gone = true
is_unlinked was_absent = false
is_unlinked refused = false

-- `unregister_env_conf(h) == 0`.
pub is_unregistered : Unlinked → Bool
is_unregistered gone = true
is_unregistered was_absent = true
is_unregistered refused = false

-- The label out.
pub unreg_out : RegOutcome
unreg_out = destroy_stat and_then send_unregistered and_then reg_returns 0

-- `ret = unregister_env_conf(h); if (ret) return ret; goto out;`.
unfoldable pub unreg_conf_only : UnregCalls → RegOutcome
unfolding is_unlinked is_unregistered unreg_out
unreg_conf_only o =
    unlink_lock
    and_then unlink_conf (is_unlinked o.link)
    and_then (if is_unregistered o.link then unreg_out else reg_returns e_system)

-- From `unregister_env_conf` on, whose result is not read.
pub unreg_last : UnregCalls → RegFlags → RegOutcome
unfolding is_unlinked unreg_out is_shared
unreg_last o flags =
    unlink_lock
    and_then unlink_conf (is_unlinked o.link)
    and_then (if not (flags.skip_cluster || flags.skip_ha_cluster) && is_shared o.owner.fs
        then del_resource o.deleted and_then unreg_out
        else unreg_out)

-- From the cleanup of the name on.
unfoldable pub unreg_name : UnregCalls → RegFlags → RegOutcome
unfolding unreg_last
unreg_name o flags = elim o.name [
  | none ↦ unreg_last o flags
  | some name ↦
      if o.same_file then unlink_name name and_then unreg_last o flags else unreg_last o flags
]

-- From the test of VZ_UNREG_PRESERVE on.
unfoldable pub unreg_save : UnregCalls → RegFlags → RegOutcome
unfolding unreg_name
unreg_save o flags =
    if flags.preserve
    then unreg_name o flags
    else clear_veid
      and_then save_conf o.saved
      and_then (if o.saved == 0
          then unlink_owner and_then unreg_name o flags
          else reg_returns e_unregister)

-- From the umount on.
unfoldable pub unreg_owned : UnregCalls → RegFlags → RegOutcome
unfolding unreg_save
unreg_owned o flags =
    if o.is_mounted
    then umount o.umounted
      and_then (if o.umounted == 0 then unreg_save o flags else reg_returns e_fs_mounted)
    else unreg_save o flags

-- `vzctl2_env_unreg`.
unfoldable pub env_unreg : UnregCalls → RegFlags → RegOutcome
unfolding unreg_owned unreg_conf_only is_new_layout
env_unreg o flags =
    if o.is_run
    then reg_returns e_env_run
    else if not o.has_private
    then unreg_conf_only o
    else if not (is_new_layout o.layout)
    then reg_returns 0
    else if check_owner o.owner == e_env_manage_disabled
    then unreg_conf_only o
    else if not (check_owner o.owner == 0)
    then reg_returns (check_owner o.owner)
    else unreg_owned o flags
