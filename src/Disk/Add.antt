-- ===== src/Disk/Add.antt =====
-- `vzctl2_add_disk` and `enable_disk` of lib/disk.c, as the value returned, the list of disks behind
-- it and the calls that were made. The results of the calls are arguments.
pub mod Paths
use libvzctl.Common.{
  ℕ, ◌*◌, ◌/◌, Bool, true, false, not, ◌&&◌, ◌||◌, Option, none, some, List, [], ◌∷◌, ◌++◌, Str,
  ◌==◌, if◌then◌else◌,
}
use libvzctl.Common.Errors.{e_add_image}
use libvzctl.Snapshot.Flow.{Stat, exists, missing, unreadable, Run, is_running}
use libvzctl.Disk.{VzDisk, Switch}
use libvzctl.Disk.Table.{EnvDisk, DiskParam, is_root_disk, is_text, check_new_disk, disk_param2disk}

-- The calls that change something, with their results.
pub data DiskEvent : Type 0 where
  recreate_image : Bool → DiskEvent
  make_dir : Bool → DiskEvent
  create_image : ℕ → DiskEvent
  unlink_path : DiskEvent
  destroy_dir : Bool → DiskEvent
  remove_bundle : DiskEvent
  mount_image setup_disk : ℕ → DiskEvent
  umount_image : ℕ → DiskEvent
  guest_umount : Bool → DiskEvent
  drop_perm drop_sysfs_perm : ℕ → DiskEvent
  resize_image : ℕ → DiskEvent
  set_diskspace : ℕ → DiskEvent

pub record DiskOutcome : Type 0 where
  pub ret : ℕ
  pub env : EnvDisk
  pub trace : List DiskEvent

abbrev pub disk_returns : ℕ → EnvDisk → DiskOutcome
disk_returns ret env = record { ret = ret; env = env; trace = [] }

infixr 6 ◌then_disk◌
abbrev pub ◌then_disk◌ : DiskEvent → DiskOutcome → DiskOutcome
e then_disk o = record o { trace = e ∷ o.trace }

-- VZCTL_DISK_RECREATE, VZCTL_DISK_SKIP_CREATE, VZCTL_DISK_SKIP_CONFIGURE and VZCTL_DISK_DETACH.
pub record DiskFlags : Type 0 where
  pub recreate : Bool
  pub skip_create : Bool
  pub skip_configure : Bool
  pub disk_detach : Bool

-- `ploop_uuid_generate`; whether the image is an external one of a cluster; `stat_file` of the
-- image and of its descriptor; `info` is the size of the file system in blocks and their size, when
-- ploop knows it, and `sectors` that of the device.
pub record AddCalls : Type 0 where
  pub new_uuid : Option Str
  pub is_denied : Bool
  pub image : Stat
  pub descriptor : Stat
  pub descriptor_read : Bool
  pub recreated : Bool
  pub info : Option (ℕ × ℕ)
  pub sectors : ℕ
  pub dir_made : Bool
  pub created : ℕ
  pub run : Run
  pub is_mounted : Bool
  pub mounted : ℕ
  pub setup : ℕ
  pub umounted : ℕ
  pub destroyed : Bool

-- What `enable_disk` returns.
unfoldable pub enable_ret : AddCalls → VzDisk → ℕ
enable_ret o d =
    if not d.use_device && o.is_mounted
    then 0
    else if not d.use_device && not (o.mounted == 0)
    then o.mounted
    else o.setup

-- The calls of `enable_disk`, then the rest of the function.
unfoldable pub enable_disk : AddCalls → VzDisk → DiskOutcome → DiskOutcome
enable_disk o d rest =
    if d.use_device
    then setup_disk o.setup then_disk rest
    else if o.is_mounted
    then rest
    else mount_image o.mounted
      then_disk (if not (o.mounted == 0)
          then rest
          else setup_disk o.setup
            then_disk (if o.setup == 0 then rest else umount_image o.umounted then_disk rest))

-- The label err.
pub add_err : AddCalls → EnvDisk → (created : Bool) → ℕ → DiskOutcome
add_err o env created ret =
    if created then destroy_dir o.destroyed then_disk disk_returns ret env else disk_returns ret env

-- The label out.
unfoldable pub add_out : EnvDisk → VzDisk → DiskOutcome
unfolding is_root_disk
add_out env d =
    disk_returns 0 (record {
      disks = env.disks ++ d ∷ [];
      root = if is_root_disk d then some true else env.root;
    })

unfoldable pub is_disabled : Switch → Bool
is_disabled none = false
is_disabled (some b) = not b

-- The label skip_create.
unfoldable pub add_enable : AddCalls → DiskFlags → EnvDisk → (created : Bool) → VzDisk → DiskOutcome
unfolding enable_disk enable_ret add_err is_disabled is_running
add_enable o flags env created d =
    if not flags.skip_configure && (is_running o.run && not (is_disabled d.enabled))
    then enable_disk o d
        (if enable_ret o d == 0 then add_out env d else add_err o env created (enable_ret o d))
    else add_out env d

-- The size of an image that is registered.
pub registered_size : AddCalls → Option (ℕ × ℕ) → ℕ
registered_size o none = o.sectors / 2
registered_size o (some (blocks, size)) = blocks * size / 1024

-- The registration of an image that exists, from `stat_file` of its descriptor on.
pub add_register : AddCalls → DiskFlags → EnvDisk → VzDisk → Stat → DiskOutcome
unfolding registered_size add_err
add_register o flags env d unreadable = add_err o env false e_add_image
add_register o flags env d missing = add_err o env false e_add_image
add_register o flags env d exists =
    let sized = record d { size = registered_size o o.info } in
    if not o.descriptor_read
    then add_err o env false e_add_image
    else if flags.recreate
    then recreate_image o.recreated
      then_disk (if o.recreated
          then add_enable o flags env false sized
          else add_err o env false e_add_image)
    else add_enable o flags env false sized

-- The creation of an image.
unfoldable pub add_create : AddCalls → DiskFlags → EnvDisk → VzDisk → DiskOutcome
unfolding add_err
add_create o flags env d =
    if flags.skip_create
    then add_out env d
    else if d.size == 0
    then add_err o env false e_add_image
    else make_dir o.dir_made
      then_disk (if not o.dir_made
          then add_err o env false e_add_image
          else create_image o.created
            then_disk (if o.created == 0
                then add_enable o flags env true d
                else unlink_path then_disk add_err o env false o.created))

unfoldable pub add_image : AddCalls → DiskFlags → EnvDisk → VzDisk → Stat → DiskOutcome
unfolding add_err
add_image o flags env d unreadable = add_err o env false e_add_image
add_image o flags env d exists = add_register o flags env d o.descriptor
add_image o flags env d missing = add_create o flags env d

pub is_set : Option Str → Bool
is_set none = false
is_set (some s) = true

-- From `disk_param2disk` on.
unfoldable pub add_disk : AddCalls → DiskFlags → EnvDisk → VzDisk → DiskOutcome
unfolding is_set add_err
add_disk o flags env d =
    if d.use_device || is_set d.storage_url
    then add_enable o flags env false d
    else if o.is_denied
    then add_err o env false e_add_image
    else add_image o flags env d o.image

-- From the test of the image on, with the uuid that the parameter then has.
unfoldable pub add_checked :
    AddCalls → DiskFlags → (private : Option Str) → EnvDisk → DiskParam → DiskOutcome
unfolding is_set
add_checked o flags private env param =
    if not (is_set param.path) && not (is_set param.storage_url)
    then disk_returns e_add_image env
    else if check_new_disk env.disks param
    then add_disk o flags env (disk_param2disk private param)
    else disk_returns e_add_image env

-- `vzctl2_add_disk`.
unfoldable pub vz_add_disk :
    AddCalls → DiskFlags → (private : Option Str) → EnvDisk → DiskParam → DiskOutcome
unfolding is_text
vz_add_disk o flags private env param =
    if is_text param.uuid then add_checked o flags private env param else elim o.new_uuid [
      | none ↦ disk_returns e_add_image env
      | some uuid ↦ add_checked o flags private env (record param { uuid = uuid })
    ]
