-- ===== src/Disk.antt =====
-- The disks of a container, lib/disk.c: the list of disks, the parameter DISK, and adding, deleting,
-- resizing and changing a disk. Allocations work, and paths fit their buffers.
pub mod Text
pub mod Table
pub mod Add
pub mod Change
mod Tests
use libvzctl.Common.{ℕ, Bool, true, false, Option, none, some, [], Str}

-- VZCTL_PARAM_ON and VZCTL_PARAM_OFF; 0 is `none`, and so is the -1 of a bad `autocompact`.
abbrev pub Switch : Type 0
Switch = Option Bool

-- `struct vzctl_disk`, without what is read from the device; a NULL is none.
pub record VzDisk : Type 0 where
  pub uuid : Str
  pub enabled : Switch
  pub size : ℕ
  pub path : Option Str
  pub mnt : Option Str
  pub mnt_opts : Option Str
  pub autocompact : Switch
  pub storage_url : Option Str
  pub use_device : Bool
  pub updated : Bool

-- `calloc(1, sizeof(struct vzctl_disk))`.
abbrev pub empty_disk : VzDisk
empty_disk = record {
  uuid = [];
  enabled = none;
  size = 0;
  path = none;
  mnt = none;
  mnt_opts = none;
  autocompact = none;
  storage_url = none;
  use_device = false;
  updated = false;
}
