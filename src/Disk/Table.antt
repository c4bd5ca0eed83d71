-- ===== src/Disk/Table.antt =====
-- The list of disks: `find_disk`, `find_root_disk`, `check_new_disk`, `disk_param2disk` and the
-- default root disk of `set_disk_param` in lib/disk.c.
pub mod Unique
use libvzctl.Common.{
  ℕ, Bool, true, false, not, ◌&&◌, ◌||◌, Option, none, some, List, [], ◌∷◌, ◌++◌, Str, codes,
  str_eq, if◌then◌else◌,
}
use libvzctl.Disk.{VzDisk, Switch, empty_disk}
use libvzctl.Disk.Text.{get_abs_path, disk_root_uuid}

-- `struct vzctl_env_disk`.
pub record EnvDisk : Type 0 where
  pub disks : List VzDisk
  pub root : Switch

-- `struct vzctl_disk_param`, as far as it is read.
pub record DiskParam : Type 0 where
  pub uuid : Str
  pub enabled : Switch
  pub size : ℕ
  pub path : Option Str
  pub mnt : Option Str
  pub autocompact : Switch
  pub storage_url : Option Str
  pub use_device : Bool

unfoldable pub is_root_mnt : Option Str → Bool
is_root_mnt none = false
is_root_mnt (some mnt) = str_eq mnt (codes "/")

unfoldable pub is_root_disk : VzDisk → Bool
unfolding is_root_mnt
is_root_disk d = is_root_mnt d.mnt

unfoldable pub find_root_disk : List VzDisk → Option VzDisk
find_root_disk [] = none
find_root_disk (d ∷ disks) = if is_root_disk d then some d else find_root_disk disks

unfoldable pub is_secondary_disk_present : List VzDisk → Bool
is_secondary_disk_present [] = false
is_secondary_disk_present (d ∷ disks) = not (is_root_disk d) || is_secondary_disk_present disks

unfoldable pub find_disk : List VzDisk → Str → Option VzDisk
find_disk [] uuid = none
find_disk (d ∷ disks) uuid = if str_eq d.uuid uuid then some d else find_disk disks uuid

-- Two strings that are both there and equal.
pub both_equal : Option Str → Option Str → Bool
both_equal none b = false
both_equal (some a) none = false
both_equal (some a) (some b) = str_eq a b

unfoldable pub is_text : Str → Bool
is_text [] = false
is_text (c ∷ s) = true

-- `check_new_disk`: 0 is true.
unfoldable pub check_new_disk : List VzDisk → DiskParam → Bool
unfolding both_equal is_text
check_new_disk [] param = true
check_new_disk (d ∷ disks) param =
    if both_equal d.path param.path
    then false
    else if both_equal d.mnt param.mnt
    then false
    else if is_text param.uuid && str_eq d.uuid param.uuid
    then false
    else check_new_disk disks param

-- The path without a path in the parameter.
default_path : (private : Option Str) → (uuid : Str) → Str
default_path none uuid = codes "disk-" ++ uuid ++ codes ".hdd"
default_path (some dir) uuid = dir ++ codes "/disk-" ++ uuid ++ codes ".hdd"

path_of_param : (private : Option Str) → (uuid : Str) → Option Str → Str
path_of_param private uuid none = default_path private uuid
path_of_param private uuid (some path) = get_abs_path private path

unfoldable pub disk_param2disk : (private : Option Str) → DiskParam → VzDisk
unfolding path_of_param default_path
disk_param2disk private param = record empty_disk {
  uuid = param.uuid;
  enabled = param.enabled;
  size = param.size;
  use_device = param.use_device;
  path = some (path_of_param private param.uuid param.path);
  mnt = param.mnt;
  storage_url = param.storage_url;
}

is_off : Switch → Bool
is_off none = false
is_off (some b) = not b

is_none : Option VzDisk → Bool
is_none none = true
is_none (some d) = false

-- The default root disk of `set_disk_param`, for a layout from VZCTL_LAYOUT_5 on; `size` is 0 without
-- DISKSPACE.
unfoldable pub with_root_disk : (size : ℕ) → (mnt_opts : Option Str) → EnvDisk → EnvDisk
unfolding is_off is_none
with_root_disk size mnt_opts e =
    if not (is_off e.root) && is_none (find_root_disk e.disks)
    then record e {
      disks =
          record empty_disk {
            uuid = disk_root_uuid;
            enabled = some true;
            size = size;
            path = some (codes "root.hdd");
            mnt = some (codes "/");
            mnt_opts = mnt_opts;
          }
          ∷ e.disks;
    }
    else e

-- `list_del` of the disk that `find_disk` has found.
unfoldable pub remove_disk : List VzDisk → Str → List VzDisk
remove_disk [] uuid = []
remove_disk (d ∷ disks) uuid = if str_eq d.uuid uuid then disks else d ∷ remove_disk disks uuid

-- A change of the disk that `find_disk` has found.
pub change_disk : (VzDisk → VzDisk) → List VzDisk → Str → List VzDisk
change_disk f [] uuid = []
change_disk f (d ∷ disks) uuid =
    if str_eq d.uuid uuid then f d ∷ disks else d ∷ change_disk f disks uuid
