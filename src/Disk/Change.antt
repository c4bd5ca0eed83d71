-- ===== src/Disk/Change.antt =====
-- `del_disk`, `vzctl2_del_disk`, `vzctl2_resize_disk` and `vzctl2_set_disk` of lib/disk.c.
pub mod Paths
use libvzctl.Common.{
  ℕ, Bool, true, false, not, ◌&&◌, ◌||◌, Option, none, some, List, [], ◌∷◌, ◌++◌, Str, ltb, leb,
  ◌==◌, if◌then◌else◌,
}
use libvzctl.Common.Errors.{e_inval, e_system, e_del_image}
use libvzctl.Snapshot.Flow.{
  Stat, exists, missing, unreadable, Run, running, stopped, unknown, is_running,
}
use libvzctl.Numbers.{long_max}
use libvzctl.Disk.{VzDisk, Switch}
use libvzctl.Disk.Table.{
  EnvDisk, DiskParam, is_root_disk, is_root_mnt, find_disk, remove_disk, change_disk,
}
use libvzctl.Disk.Add.{
  DiskOutcome, disk_returns, ◌then_disk◌, destroy_dir, remove_bundle, guest_umount, drop_perm,
  drop_sysfs_perm, umount_image, resize_image, set_diskspace, DiskFlags, AddCalls, enable_disk,
  enable_ret, is_disabled,
}

abbrev e_fs_not_mounted : ℕ
e_fs_not_mounted = 40

-- `is_env_run(h)` used as a condition: -1 counts as true.
pub is_run_or_error : Run → Bool
is_run_or_error running = true
is_run_or_error stopped = false
is_run_or_error unknown = true

-- `info` is the result of `update_disk_info`, `init_pid` that of `cg_env_get_init_pid`.
pub record DiskCalls : Type 0 where
  pub image : Stat
  pub info : ℕ
  pub run : Run
  pub guest : Bool
  pub perm : ℕ
  pub sysfs : ℕ
  pub umounted : ℕ
  pub destroyed : Bool
  pub init_pid : ℕ
  pub resized : ℕ
  pub diskspace : ℕ
  pub max_fs_size : ℕ
  pub add : AddCalls

-- What `del_disk` returns.
pub detach_ret : DiskCalls → ℕ
unfolding is_run_or_error
detach_ret o =
    if o.info == e_fs_not_mounted
    then 0
    else if not (o.info == 0)
    then o.info
    else if is_run_or_error o.run && not (o.perm == 0)
    then o.perm
    else if is_run_or_error o.run && not (o.sysfs == 0)
    then o.sysfs
    else o.umounted

-- The calls of `del_disk`, then the rest of the function.
pub detach_disk : DiskCalls → DiskOutcome → DiskOutcome
unfolding is_run_or_error
detach_disk o rest =
    if not (o.info == 0)
    then rest
    else if is_run_or_error o.run
    then guest_umount o.guest
      then_disk drop_perm o.perm
      then_disk (if not (o.perm == 0)
          then rest
          else drop_sysfs_perm o.sysfs
            then_disk (if o.sysfs == 0 then umount_image o.umounted then_disk rest else rest))
    else umount_image o.umounted then_disk rest

-- The end of `vzctl2_del_disk`.
pub del_done : EnvDisk → VzDisk → Str → DiskOutcome
unfolding is_root_disk
del_done env d guid = disk_returns 0 (record {
  disks = remove_disk env.disks guid;
  root = if is_root_disk d then some false else env.root;
})

-- From the test of VZCTL_DISK_DETACH on.
pub del_image : DiskCalls → DiskFlags → EnvDisk → VzDisk → Str → DiskOutcome
unfolding del_done
del_image o flags env d guid =
    if not d.use_device && not flags.disk_detach
    then destroy_dir o.destroyed
      then_disk (if o.destroyed
          then remove_bundle then_disk del_done env d guid
          else disk_returns e_del_image env)
    else del_done env d guid

unfoldable pub del_disk_found : DiskCalls → DiskFlags → EnvDisk → VzDisk → Str → Stat → DiskOutcome
unfolding del_image detach_disk detach_ret del_done
del_disk_found o flags env d guid unreadable = disk_returns e_system env
del_disk_found o flags env d guid missing = del_done env d guid
del_disk_found o flags env d guid exists =
    if flags.skip_configure
    then del_image o flags env d guid
    else detach_disk o (
        if detach_ret o == 0 then del_image o flags env d guid else disk_returns (detach_ret o) env)

-- `vzctl2_del_disk`.
unfoldable pub vz_del_disk : DiskCalls → DiskFlags → EnvDisk → Str → DiskOutcome
vz_del_disk o flags env guid = elim (find_disk env.disks guid) [
  | none ↦ disk_returns e_inval env
  | some d ↦ del_disk_found o flags env d guid o.image
]

-- `get_disk_size`; `max` is PLOOP_MAX_FS_SIZE >> 10.
pub get_disk_size : (max size : ℕ) → ℕ
get_disk_size max size = if ltb size long_max then size else max

abbrev pub with_size : ℕ → VzDisk → VzDisk
with_size size d = record d { size = size }

-- From `resize_disk_image` on.
resize_image_of : DiskCalls → EnvDisk → VzDisk → Str → ℕ → DiskOutcome
resize_image_of o env d guid size =
    let done =
      disk_returns 0 (record env { disks = change_disk (with_size size) env.disks guid }) in
    resize_image o.resized
    then_disk (if not (o.resized == 0)
        then disk_returns o.resized env
        else if is_root_disk d
        then set_diskspace size then_disk done
        else done)

-- `vzctl2_resize_disk`.
pub vz_resize_disk : DiskCalls → EnvDisk → Str → ℕ → DiskOutcome
unfolding resize_image_of is_run_or_error get_disk_size is_root_disk
vz_resize_disk o env guid size = elim (find_disk env.disks guid) [
  | none ↦ disk_returns e_inval env
  | some d ↦
      if not (is_root_disk d) && is_run_or_error o.run && not (o.init_pid == 0)
      then disk_returns o.init_pid env
      else resize_image_of o env d guid (get_disk_size o.max_fs_size size)
]

-- The value of a parameter that is given, else the old one.
abbrev pub or_old {ℓ} : {A : Type ℓ} → Option A → Option A → Option A
or_old none old = old
or_old (some v) old = some v

-- The changes of `vzctl2_set_disk` behind the resizing that cannot fail.
unfoldable pub set_mnt : DiskParam → VzDisk → VzDisk
set_mnt param d = record d { mnt = or_old param.mnt d.mnt }

has_path : Option Str → Bool
has_path none = false
has_path (some p) = true

unfoldable pub set_rest : DiskParam → VzDisk → VzDisk
unfolding has_path
set_rest param d = record d {
  enabled = or_old param.enabled d.enabled;
  autocompact = or_old param.autocompact d.autocompact;
  path = or_old param.path d.path;
  use_device = if has_path param.path then param.use_device else d.use_device;
  storage_url = or_old param.storage_url d.storage_url;
}

-- `h->env_param->disk->root` when the mount point changes.
root_after : Option Str → VzDisk → Switch → Switch
root_after none d root = root
root_after (some mnt) d root =
    if is_root_disk d && not (is_root_mnt (some mnt))
    then some false
    else if not (is_root_disk d) && is_root_mnt (some mnt)
    then some true
    else root

is_given : Switch → Bool
is_given none = false
is_given (some b) = true

-- From the test of `param->mnt` on, for the disk that is found.
unfoldable pub set_mounted : DiskCalls → EnvDisk → DiskParam → VzDisk → DiskOutcome
unfolding root_after is_given is_disabled is_running enable_ret is_root_disk is_root_mnt
set_mounted o env param d =
    let env' : EnvDisk = record {
      disks = change_disk (set_mnt param) env.disks param.uuid;
      root = root_after param.mnt d env.root;
    } in
    let done =
      disk_returns 0 (record env' { disks = change_disk (set_rest param) env'.disks param.uuid }) in
    if is_given param.enabled && (is_running o.run && not (is_disabled param.enabled))
    then enable_disk o.add (set_mnt param d) (
        if enable_ret o.add (set_mnt param d) == 0
        then done
        else disk_returns (enable_ret o.add (set_mnt param d)) env')
    else done

-- The disk of the list behind the resizing, which changes nothing but its size.
set_after : DiskCalls → EnvDisk → DiskParam → Option VzDisk → DiskOutcome
set_after o env param none = disk_returns e_inval env
set_after o env param (some d) = set_mounted o env param d

-- All calls of an outcome, then what follows if it returned 0.
abbrev if_ok : DiskOutcome → (EnvDisk → DiskOutcome) → DiskOutcome
if_ok r next =
    if r.ret == 0
    then record {
      ret = (next r.env).ret;
      env = (next r.env).env;
      trace = r.trace ++ (next r.env).trace;
    }
    else r

abbrev pub touch : VzDisk → VzDisk
touch d = record d { updated = true }

-- `vzctl2_set_disk`.
unfoldable pub vz_set_disk : DiskCalls → EnvDisk → DiskParam → DiskOutcome
unfolding set_after
vz_set_disk o env param = elim (find_disk env.disks param.uuid) [
  | none ↦ disk_returns e_inval env
  | some d ↦
      let env' = record env { disks = change_disk touch env.disks param.uuid } in
      if param.size == 0
      then set_after o env' param (find_disk env'.disks param.uuid)
      else if_ok (vz_resize_disk o env' param.uuid param.size)
          (λ e. set_after o e param (find_disk e.disks param.uuid))
]
