-- ===== src/Disk/Change/Paths.antt =====
-- What deleting and resizing a disk leaves in the list.
use libvzctl.Common.{
  ℕ, ◌≡◌, refl, ap, ◌∙◌, none, List, Str, str_eq, arith, ◌==◌, if◌then◌else◌, inl, inr,
  Option-cases, Bool-cases,
}
use mathlib.Core.Option
use libvzctl.Snapshot.Flow.{Stat, exists, missing, unreadable}
use libvzctl.Disk.{VzDisk}
use libvzctl.Disk.Table.{EnvDisk, find_disk, remove_disk, change_disk}
use libvzctl.Disk.Table.Unique.{
  IsUnique, remove_disk-IsUnique, find_disk-remove_disk, find_disk-change_disk,
}
use libvzctl.Disk.Add.{DiskFlags}
use libvzctl.Disk.Change.{
  DiskCalls, del_disk_found, vz_del_disk, get_disk_size, with_size, vz_resize_disk,
}

-- A deletion removes the disk from the list if it returns 0, and else leaves the list alone.
del_disk_found-disks :
    (o : DiskCalls) (flags : DiskFlags) (env : EnvDisk) (d : VzDisk) (guid : Str) (s : Stat)
    → (del_disk_found o flags env d guid s).env.disks ≡ (
        if (del_disk_found o flags env d guid s).ret == 0
        then remove_disk env.disks guid
        else env.disks)
unfolding del_disk_found
del_disk_found-disks o flags env d guid unreadable = refl
del_disk_found-disks o flags env d guid missing = refl
del_disk_found-disks o flags env d guid exists = ground arith

vz_del_disk-result :
    (o : DiskCalls) (flags : DiskFlags) (env : EnvDisk) (guid : Str)
    → (vz_del_disk o flags env guid).env.disks
      ≡ (if (vz_del_disk o flags env guid).ret == 0 then remove_disk env.disks guid else env.disks)
unfolding vz_del_disk
vz_del_disk-result o flags env guid = elim (Option-cases (find_disk env.disks guid)) [
  | inl e ↦ ground (arith, e)
  | inr (d, e) ↦ ground (arith, e, del_disk_found-disks o flags env d guid o.image)
]

removed_or_kept :
    (disks : List VzDisk) (guid other : Str) (after : List VzDisk) (ret : ℕ)
    → IsUnique disks
    → after ≡ (if ret == 0 then remove_disk disks guid else disks)
    → IsUnique after
      × (find_disk after other ≡ (
          if ret == 0
          then (if str_eq guid other then none else find_disk disks other)
          else find_disk disks other))
removed_or_kept disks guid other after ret u e = elim (Bool-cases (ret == 0)) [
  | inl z ↦ rw (e, z) (remove_disk-IsUnique disks guid u, find_disk-remove_disk disks guid other u)
  | inr z ↦ rw (e, z) (u, refl)
]

-- When it returns 0, the disk is no longer found, every other disk is found as before, and all are
-- still unique; else the list is as before.
pub vz_del_disk-disks :
    (o : DiskCalls) (flags : DiskFlags) (env : EnvDisk) (guid other : Str)
    → IsUnique env.disks
    → IsUnique (vz_del_disk o flags env guid).env.disks
      × (find_disk (vz_del_disk o flags env guid).env.disks other ≡ (
          if (vz_del_disk o flags env guid).ret == 0
          then (if str_eq guid other then none else find_disk env.disks other)
          else find_disk env.disks other))
vz_del_disk-disks o flags env guid other u =
    removed_or_kept env.disks guid other _ _ u (vz_del_disk-result o flags env guid)

vz_resize_disk-result :
    (o : DiskCalls) (env : EnvDisk) (guid : Str) (size : ℕ)
    → (vz_resize_disk o env guid size).ret ≡ 0
    → (vz_resize_disk o env guid size).env.disks
      ≡ change_disk (with_size (get_disk_size o.max_fs_size size)) env.disks guid
unfolding vz_resize_disk
vz_resize_disk-result o env guid size h = ground (arith, Option-cases (find_disk env.disks guid))

-- When it returns 0, the disk has the new size, which for a size from LONG_MAX on is the largest one
-- that there is, and every other disk is as before.
pub vz_resize_disk_success :
    (o : DiskCalls) (env : EnvDisk) (guid other : Str) (size : ℕ)
    → (vz_resize_disk o env guid size).ret ≡ 0
    → find_disk (vz_resize_disk o env guid size).env.disks other ≡ (
        if str_eq guid other
        then Option.map (with_size (get_disk_size o.max_fs_size size)) (find_disk env.disks other)
        else find_disk env.disks other)
vz_resize_disk_success o env guid other size h =
    ap (λ l. find_disk l other) (vz_resize_disk-result o env guid size h)
    ∙ find_disk-change_disk (with_size (get_disk_size o.max_fs_size size)) env.disks guid other
        (λ d. refl)
