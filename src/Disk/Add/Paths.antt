-- ===== src/Disk/Add/Paths.antt =====
-- What adding a disk leaves behind.
use libvzctl.Common.{
  ℕ, ◌⊎◌, zero, ◌≡◌, ◌≢◌, refl, Bool, true, false, Option, some, List, [], ◌∷◌, ◌++◌, Str, arith,
  ◌||◌, sym, subst, ◌∙◌, if◌then◌else◌, after_calls, inl, inr, Bool-cases, Option-cases,
}
use libvzctl.Snapshot.Flow.{Stat, exists, missing, unreadable}
use libvzctl.Disk.{VzDisk}
use libvzctl.Disk.Table.{EnvDisk, DiskParam, is_text, check_new_disk, disk_param2disk}
use libvzctl.Disk.Table.Unique.{IsUnique, add-IsUnique}
use libvzctl.Disk.Add.{
  DiskEvent, create_image, destroy_dir, mount_image, umount_image, DiskOutcome, DiskFlags, AddCalls,
  registered_size, is_set, add_err, add_out, add_enable, add_register, add_create, add_image,
  add_disk, add_checked, vz_add_disk,
}

abbrev image_by : Bool → DiskEvent → Bool
image_by b (create_image zero) = true
image_by b (destroy_dir true) = false
image_by b e = b

abbrev mounted_by : Bool → DiskEvent → Bool
mounted_by b (mount_image zero) = true
mounted_by b (umount_image zero) = false
mounted_by b e = b

-- Whether there is an image that was created.
abbrev pub image : Bool → List DiskEvent → Bool
image = after_calls image_by

-- Whether an image is mounted.
abbrev pub mounted : Bool → List DiskEvent → Bool
mounted = after_calls mounted_by

-- An error leaves the list alone, no image that was created and nothing mounted, if removing and
-- unmounting work.
abbrev pub IsUndone : AddCalls → EnvDisk → DiskOutcome → Type 0
IsUndone o env r =
    (r.env ≡ env)
    × (o.destroyed ≡ true → image false r.trace ≡ false)
    × (o.umounted ≡ 0 → mounted false r.trace ≡ false)

Stat-cases : (s : Stat) → (s ≡ exists) ⊎ ((s ≡ missing) ⊎ (s ≡ unreadable))
Stat-cases exists = inl refl
Stat-cases missing = inr (inl refl)
Stat-cases unreadable = inr (inr refl)

add_enable_failure :
    (o : AddCalls) (flags : DiskFlags) (env : EnvDisk) (created : Bool) (d : VzDisk)
    → (add_enable o flags env created d).ret ≢ 0
    → ((add_enable o flags env created d).env ≡ env)
      × (o.destroyed ≡ true → image created (add_enable o flags env created d).trace ≡ false)
      × (o.umounted ≡ 0 → mounted false (add_enable o flags env created d).trace ≡ false)
unfolding add_enable add_out
add_enable_failure o flags env created d h = ground arith

add_enable_success :
    (o : AddCalls) (flags : DiskFlags) (env : EnvDisk) (created : Bool) (d : VzDisk)
    → (add_enable o flags env created d).ret ≡ 0
    → (add_enable o flags env created d).env.disks ≡ env.disks ++ d ∷ []
unfolding add_enable add_out
add_enable_success o flags env created d h = ground arith

-- The size of the disk that is added.
added_size : AddCalls → VzDisk → Stat → ℕ
added_size o d exists = registered_size o o.info
added_size o d missing = d.size
added_size o d unreadable = d.size

size_of_added : AddCalls → VzDisk → ℕ
unfolding added_size
size_of_added o d = if d.use_device || is_set d.storage_url then d.size else added_size o d o.image

add_image_success :
    (o : AddCalls) (flags : DiskFlags) (env : EnvDisk) (d : VzDisk) (s : Stat)
    → (add_image o flags env d s).ret ≡ 0
    → (add_image o flags env d s).env.disks ≡ env.disks ++ record d { size = added_size o d s } ∷ []
unfolding add_image add_register add_create add_err add_out added_size
add_image_success o flags env d unreadable h = cc
add_image_success o flags env d exists h = ground (
  arith,
  Stat-cases o.descriptor,
  add_enable_success o flags env false (record d { size = registered_size o o.info }),
)
add_image_success o flags env d missing h = ground (arith, add_enable_success o flags env true d)

add_disk_success :
    (o : AddCalls) (flags : DiskFlags) (env : EnvDisk) (d : VzDisk)
    → (add_disk o flags env d).ret ≡ 0
    → (add_disk o flags env d).env.disks ≡ env.disks ++ record d { size = size_of_added o d } ∷ []
unfolding add_disk add_err size_of_added
add_disk_success o flags env d h =
    ground (arith, add_enable_success o flags env false d, add_image_success o flags env d o.image)

add_image_failure :
    (o : AddCalls) (flags : DiskFlags) (env : EnvDisk) (d : VzDisk) (s : Stat)
    → (add_image o flags env d s).ret ≢ 0
    → IsUndone o env (add_image o flags env d s)
unfolding add_image add_register add_create add_err add_out
add_image_failure o flags env d unreadable h = ground arith
add_image_failure o flags env d exists h = ground (
  arith,
  Stat-cases o.descriptor,
  add_enable_failure o flags env false (record d { size = registered_size o o.info }),
)
add_image_failure o flags env d missing h = ground (arith, add_enable_failure o flags env true d)

add_disk_failure :
    (o : AddCalls) (flags : DiskFlags) (env : EnvDisk) (d : VzDisk)
    → (add_disk o flags env d).ret ≢ 0
    → IsUndone o env (add_disk o flags env d)
unfolding add_disk add_err
add_disk_failure o flags env d h =
    ground (arith, add_enable_failure o flags env false d, add_image_failure o flags env d o.image)

vz_add_disk-IsUndone :
    (o : AddCalls) (flags : DiskFlags) (private : Option Str) (env : EnvDisk) (param : DiskParam)
    → (vz_add_disk o flags private env param).ret ≢ 0
    → IsUndone o env (vz_add_disk o flags private env param)
unfolding vz_add_disk add_checked
vz_add_disk-IsUndone o flags private env param h = elim (Option-cases o.new_uuid) [
  | inl e ↦ ground (arith, e, add_disk_failure o flags env (disk_param2disk private param))
  | inr (u, e) ↦ ground (
    arith,
    add_disk_failure o flags env (disk_param2disk private param),
    add_disk_failure o flags env (disk_param2disk private (record param { uuid = u })),
  )
]

-- When it returns an error, and removing an image and unmounting it work, the list of disks is as
-- before, and no image that was created or mounted stays so.
pub vz_add_disk_failure :
    (o : AddCalls) (flags : DiskFlags) (private : Option Str) (env : EnvDisk) (param : DiskParam)
    → o.destroyed ≡ true
    → o.umounted ≡ 0
    → (vz_add_disk o flags private env param).ret ≢ 0
    → ((vz_add_disk o flags private env param).env ≡ env)
      × (image false (vz_add_disk o flags private env param).trace ≡ false)
      × (mounted false (vz_add_disk o flags private env param).trace ≡ false)
vz_add_disk_failure o flags private env param d u h =
    let r = vz_add_disk-IsUndone o flags private env param h in (r.0, r.1 d, r.2 u)

disk_param2disk-size :
    (private : Option Str) (param : DiskParam) (n : ℕ)
    → record (disk_param2disk private param) { size = n }
      ≡ disk_param2disk private (record param { size = n })
unfolding disk_param2disk
disk_param2disk-size private param n = refl

check_new_disk-size :
    (disks : List VzDisk) (param : DiskParam) (n : ℕ)
    → check_new_disk disks (record param { size = n }) ≡ check_new_disk disks param
unfolding check_new_disk
check_new_disk-size [] param n = refl
check_new_disk-size (d ∷ disks) param n = ground (arith, check_new_disk-size disks param n)

add_checked-IsUnique :
    (o : AddCalls) (flags : DiskFlags) (private : Option Str) (env : EnvDisk) (param : DiskParam)
    → IsUnique env.disks
    → is_text param.uuid ≡ true
    → (add_checked o flags private env param).ret ≡ 0
    → IsUnique (add_checked o flags private env param).env.disks
unfolding add_checked
add_checked-IsUnique o flags private env param u t h =
    elim (Bool-cases (check_new_disk env.disks param)) [
      | inl c ↦
          let n = size_of_added o (disk_param2disk private param) in
          let e : (add_checked o flags private env param).env.disks
              ≡ env.disks ++ disk_param2disk private (record param { size = n }) ∷ [] =
            ground (
              arith,
              disk_param2disk-size private param n,
              add_disk_success o flags env (disk_param2disk private param),
            ) in
          subst IsUnique (sym e) (
            add-IsUnique private env.disks (record param { size = n }) u t
              (check_new_disk-size env.disks param n ∙ c))
      | inr c ↦ absurd (ground arith)
    ]

-- When it returns 0, no two disks of the list share a uuid or a mount point, if none did before.
pub vz_add_disk-IsUnique :
    (o : AddCalls) (flags : DiskFlags) (private : Option Str) (env : EnvDisk) (param : DiskParam)
    → IsUnique env.disks
    → ((uuid : Str) → o.new_uuid ≡ some uuid → is_text uuid ≡ true)
    → (vz_add_disk o flags private env param).ret ≡ 0
    → IsUnique (vz_add_disk o flags private env param).env.disks
unfolding vz_add_disk
vz_add_disk-IsUnique o flags private env param u g h = elim (Bool-cases (is_text param.uuid)) [
  | inl t ↦ rw t (add_checked-IsUnique o flags private env param u t (ground arith))
  | inr t ↦ elim (Option-cases o.new_uuid) [
    | inl e ↦ absurd (ground arith)
    | inr (uuid, e) ↦
        rw (t, e)
          (add_checked-IsUnique o flags private env (record param { uuid = uuid }) u (g uuid e)
            (ground arith))
  ]
]
