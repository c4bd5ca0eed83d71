-- ===== src/Disk/Table/Unique.antt =====
-- Each disk of the list has its own uuid, and its own mount point.
use libvzctl.Common.{
  ◌≡◌, refl, Bool, true, false, ◌||◌, Option, none, some, List, [], ◌∷◌, ◌++◌, Str, str_eq,
  str_eq_iff, arith, if◌then◌else◌, All, Bool-cases, inl, inr,
}
use mathlib.Core.Option
use libvzctl.Disk.{VzDisk}
use libvzctl.Disk.Table.{
  DiskParam, find_disk, both_equal, is_text, check_new_disk, disk_param2disk, remove_disk,
  change_disk,
}

-- A disk shares neither its uuid nor its mount point with another one.
abbrev pub IsApart : VzDisk → VzDisk → Type 0
IsApart d e = (str_eq d.uuid e.uuid ≡ false) × (both_equal d.mnt e.mnt ≡ false)

abbrev pub IsUnique : List VzDisk → Type 0
IsUnique [] = Unit
IsUnique (d ∷ disks) = All (IsApart d) disks × IsUnique disks

-- Whether a disk has a uuid.
pub has_uuid : List VzDisk → Str → Bool
has_uuid [] uuid = false
has_uuid (d ∷ disks) uuid = str_eq d.uuid uuid || has_uuid disks uuid

check_new_disk-IsApart :
    (private : Option Str) (disks : List VzDisk) (param : DiskParam)
    → is_text param.uuid ≡ true
    → check_new_disk disks param ≡ true
    → All (λ d. IsApart d (disk_param2disk private param)) disks
unfolding check_new_disk disk_param2disk
check_new_disk-IsApart private [] param t h = tt
check_new_disk-IsApart private (d ∷ disks) param t h =
    ground (arith, check_new_disk-IsApart private disks param t)

IsUnique-snoc :
    (disks : List VzDisk) (e : VzDisk)
    → IsUnique disks
    → All (λ d. IsApart d e) disks
    → IsUnique (disks ++ e ∷ [])
IsUnique-snoc [] e u h = (tt, tt)
IsUnique-snoc (d ∷ disks) e u h = (All-snoc d disks e u.0 h.0, IsUnique-snoc disks e u.1 h.1)
  where
    All-snoc :
        (d : VzDisk) (disks : List VzDisk) (e : VzDisk)
        → All (IsApart d) disks
        → IsApart d e
        → All (IsApart d) (disks ++ e ∷ [])
    All-snoc d [] e a h = (h, tt)
    All-snoc d (c ∷ disks) e a h = (a.0, All-snoc d disks e a.1 h)

-- A disk that passes `check_new_disk` may be added.
pub add-IsUnique :
    (private : Option Str) (disks : List VzDisk) (param : DiskParam)
    → IsUnique disks
    → is_text param.uuid ≡ true
    → check_new_disk disks param ≡ true
    → IsUnique (disks ++ disk_param2disk private param ∷ [])
add-IsUnique private disks param u t h =
    IsUnique-snoc disks (disk_param2disk private param) u
      (check_new_disk-IsApart private disks param t h)

pub find_disk-snoc :
    (disks : List VzDisk) (e : VzDisk) (uuid : Str)
    → find_disk (disks ++ e ∷ []) uuid ≡ elim (find_disk disks uuid) [
      | none ↦ (if str_eq e.uuid uuid then some e else none)
      | some d ↦ some d
    ]
unfolding find_disk
find_disk-snoc [] e uuid = refl
find_disk-snoc (d ∷ disks) e uuid = ground (arith, find_disk-snoc disks e uuid)

remove_disk-All :
    (P : VzDisk → Type 0) (disks : List VzDisk) (uuid : Str)
    → All P disks
    → All P (remove_disk disks uuid)
unfolding remove_disk
remove_disk-All P [] uuid h = tt
remove_disk-All P (d ∷ disks) uuid h = elim (Bool-cases (str_eq d.uuid uuid)) [
  | inl e ↦ rw e (h.1)
  | inr e ↦ rw e (h.0, remove_disk-All P disks uuid h.1)
]

pub remove_disk-IsUnique :
    (disks : List VzDisk) (uuid : Str) → IsUnique disks → IsUnique (remove_disk disks uuid)
unfolding remove_disk
remove_disk-IsUnique [] uuid h = tt
remove_disk-IsUnique (d ∷ disks) uuid h = elim (Bool-cases (str_eq d.uuid uuid)) [
  | inl e ↦ rw e (h.1)
  | inr e ↦ rw e (remove_disk-All (IsApart d) disks uuid h.0, remove_disk-IsUnique disks uuid h.1)
]

not_found :
    (disks : List VzDisk) (d : VzDisk) → All (IsApart d) disks → find_disk disks d.uuid ≡ none
unfolding find_disk
not_found [] d h = refl
not_found (e ∷ disks) d h =
    ground (arith, str_eq_iff d.uuid e.uuid, str_eq_iff e.uuid d.uuid, not_found disks d)

-- Removing a disk removes it and no other.
pub find_disk-remove_disk :
    (disks : List VzDisk) (uuid other : Str)
    → IsUnique disks
    → find_disk (remove_disk disks uuid) other
      ≡ (if str_eq uuid other then none else find_disk disks other)
unfolding find_disk remove_disk
find_disk-remove_disk [] uuid other h = ground arith
find_disk-remove_disk (d ∷ disks) uuid other h = ground (
  arith,
  find_disk-remove_disk disks uuid other h.1,
  not_found disks d h.0,
  str_eq_iff d.uuid uuid,
  str_eq_iff d.uuid other,
  str_eq_iff uuid other,
)

-- A change that keeps the uuid changes the disk that is found, and no other.
pub find_disk-change_disk :
    (f : VzDisk → VzDisk) (disks : List VzDisk) (uuid other : Str)
    → ((d : VzDisk) → (f d).uuid ≡ d.uuid)
    → find_disk (change_disk f disks uuid) other
      ≡ (if str_eq uuid other then Option.map f (find_disk disks other) else find_disk disks other)
unfolding find_disk change_disk
find_disk-change_disk f [] uuid other k = ground arith
find_disk-change_disk f (d ∷ disks) uuid other k = ground (
  arith,
  k d,
  find_disk-change_disk f disks uuid other k,
  str_eq_iff d.uuid uuid,
  str_eq_iff d.uuid other,
  str_eq_iff uuid other,
)
