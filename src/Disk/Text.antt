-- ===== src/Disk/Text.antt =====
-- `parse_disk_str`, `parse_disk` and `disk2str` of lib/disk.c.
pub mod Fields
pub mod Split
pub mod Trip
use libvzctl.Common.{
  ℕ, ◌-◌, Bool, true, false, not, ◌&&◌, Option, none, some, List, [], ◌∷◌, ◌++◌, Str, codes, str_eq,
  length, take, drop, ltb, ◌==◌, if◌then◌else◌,
}
use libvzctl.Common.Errors.{e_inval}
use libvzctl.Bitmap.Text.{decimal}
use libvzctl.Disk.{VzDisk, Switch, empty_disk}
use libvzctl.Names.{yesno2id, id2yesno}
use libvzctl.Numbers.{parse_ul}

-- The keys of the parameter.
pub data DiskKey : Type 0 where
  k_uuid k_enabled k_size k_image k_device k_mnt k_mnt_opts k_autocompact k_storage_url k_unknown :
      DiskKey

-- The rest behind a prefix that `strncmp` finds.
pub strip_prefix : Str → Str → Option Str
strip_prefix [] s = some s
strip_prefix (p ∷ ps) [] = none
strip_prefix (p ∷ ps) (c ∷ s) = if p == c then strip_prefix ps s else none

-- The first prefix of a list that fits, with the key and the value behind it.
first_key : List (DiskKey × Str) → Str → DiskKey × Str
first_key [] s = (k_unknown, s)
first_key ((key, name) ∷ keys) s = elim (strip_prefix name s) [
  | some v ↦ (key, v)
  | none ↦ first_key keys s
]

abbrev disk_keys : List (DiskKey × Str)
disk_keys =
    (k_uuid, codes "uuid=")
    ∷ (k_enabled, codes "enabled=")
    ∷ (k_size, codes "size=")
    ∷ (k_image, codes "image=")
    ∷ (k_device, codes "device=")
    ∷ (k_mnt, codes "mnt=")
    ∷ (k_mnt_opts, codes "mnt_opts=")
    ∷ (k_autocompact, codes "autocompact=")
    ∷ (k_storage_url, codes "storage_url=")
    ∷ []

unfoldable pub read_key : Str → DiskKey × Str
unfolding first_key strip_prefix
read_key s = first_key disk_keys s

-- `guid` is `vzctl2_get_normalized_guid`. VZCTL_E_INVAL is none.
pub set_key : (guid : Str → Option Str) → DiskKey → Str → VzDisk → Option VzDisk
set_key guid k_uuid v d = elim (guid v) [ none ↦ none | some u ↦ some (record d { uuid = u }) ]
set_key guid k_enabled v d = elim (yesno2id (some v)) [
  | none ↦ none
  | some b ↦ some (record d { enabled = some b })
]
set_key guid k_size v d = elim (parse_ul v) [ none ↦ none | some n ↦ some (record d { size = n }) ]
set_key guid k_image v d = some (record d { path = some v; use_device = false })
set_key guid k_device v d = some (record d { path = some v; use_device = true })
set_key guid k_mnt v d = some (record d { mnt = some v })
set_key guid k_mnt_opts v d = some (record d { mnt_opts = some v })
set_key guid k_autocompact v d = some (record d { autocompact = yesno2id (some v) })
set_key guid k_storage_url v d = some (record d { storage_url = some v })
set_key guid k_unknown v d = some d

abbrev pub path_max : ℕ
path_max = 4096

-- The block of GET_PARAM_VAL and what follows it.
unfoldable pub set_value : (guid : Str → Option Str) → DiskKey → Str → VzDisk → Option VzDisk
unfolding set_key
set_value guid key [] d = some d
set_value guid key (c ∷ v) d =
    if ltb (length (c ∷ v)) path_max then set_key guid key (c ∷ v) d else none

pub push : ℕ → List Str → List Str
push c [] = (c ∷ []) ∷ []
push c (t ∷ ts) = (c ∷ t) ∷ ts

-- The parts between separators; a part may be empty.
pub split : (sep : ℕ) → Str → List Str
unfolding push
split sep [] = [] ∷ []
split sep (c ∷ s) = if c == sep then [] ∷ split sep s else push c (split sep s)

-- The loop of `parse_disk_str`, which does nothing for an empty part.
unfoldable pub set_parts : (guid : Str → Option Str) → List Str → VzDisk → Option VzDisk
set_parts guid [] d = some d
set_parts guid (t ∷ ts) d = elim (set_value guid (read_key t).0 (read_key t).1 d) [
  | none ↦ none
  | some e ↦ set_parts guid ts e
]

has_text : Str → Bool
has_text [] = false
has_text (c ∷ s) = true

has_path : Option Str → Bool
has_path none = false
has_path (some s) = true

-- The tests of `parse_disk_str` behind its loop.
pub checked : VzDisk → Option VzDisk
unfolding has_text has_path
checked d = if has_path d.path && has_text d.uuid then some d else none

unfoldable pub parse_disk_str : (guid : Str → Option Str) → Str → Option VzDisk
unfolding set_parts split checked
parse_disk_str guid str = elim (set_parts guid (split b',' str) empty_disk) [
  | none ↦ none
  | some d ↦ checked d
]

-- The `strtok_r` loop of `parse_disk`, over the parts that are not empty: its result, and the disks.
pub parse_disks : (guid : Str → Option Str) → List Str → List VzDisk → ℕ × List VzDisk
parse_disks guid [] disks = (0, disks)
parse_disks guid ([] ∷ ts) disks = parse_disks guid ts disks
parse_disks guid ((c ∷ t) ∷ ts) disks = elim (parse_disk_str guid (c ∷ t)) [
  | none ↦ (e_inval, disks)
  | some d ↦ parse_disks guid ts (disks ++ d ∷ [])
]

unfoldable pub parse_disk : (guid : Str → Option Str) → Str → List VzDisk → ℕ × List VzDisk
unfolding parse_disks split
parse_disk guid str disks = parse_disks guid (split b';' str) disks

-- `get_rel_path`.
unfoldable pub get_rel_path : (basedir : Option Str) → Str → Str
unfolding strip_prefix
get_rel_path none fname = fname
get_rel_path (some dir) fname = elim (strip_prefix dir fname) [
  | none ↦ fname
  | some rest ↦ drop 1 rest
]

-- `get_abs_path`.
unfoldable pub get_abs_path : (basedir : Option Str) → Str → Str
get_abs_path none fname = fname
get_abs_path (some dir) [] = dir ++ b'/' ∷ []
get_abs_path (some dir) (c ∷ s) = if c == b'/' then c ∷ s else dir ++ b'/' ∷ c ∷ s

abbrev pub opt_field : Str → Option Str → List Str
opt_field name none = []
opt_field name (some v) = (name ++ v) ∷ []

abbrev pub switch_field : Str → Switch → List Str
switch_field name none = []
switch_field name (some b) = (name ++ id2yesno b) ∷ []

-- What the loop of `disk2str` prints in front of the path.
pub disk_fields : VzDisk → List Str
disk_fields d =
    (codes "uuid=" ++ d.uuid)
      ∷ (codes "size=" ++ decimal d.size)
      ∷ switch_field (codes "enabled=") d.enabled
    ++ opt_field (codes "mnt=") d.mnt
    ++ switch_field (codes "autocompact=") d.autocompact
    ++ opt_field (codes "storage_url=") d.storage_url

-- The path; it is not NULL in a disk of the list.
pub path_field : (private : Option Str) → Bool → Option Str → Str
path_field private true none = codes "device="
path_field private true (some p) = codes "device=" ++ p
path_field private false none = codes "image="
path_field private false (some p) = codes "image=" ++ get_rel_path private p

pub with_commas : List Str → List Str
with_commas [] = []
with_commas (f ∷ fs) = (f ++ b',' ∷ []) ∷ with_commas fs

-- The calls of `snprintf` for a disk.
unfoldable pub disk_parts : (private : Option Str) → VzDisk → List Str
unfolding path_field disk_fields with_commas
disk_parts private d =
    with_commas (disk_fields d) ++ (path_field private d.use_device d.path ++ b';' ∷ []) ∷ []

abbrev pub disk_root_uuid : Str
disk_root_uuid = codes "{00000000-0000-0000-0000-000000000000}"

-- The disks that are printed: all but a default root disk.
unfoldable pub all_parts : (private : Option Str) → List VzDisk → List Str
unfolding disk_parts
all_parts private [] = []
all_parts private (d ∷ disks) =
    if str_eq d.uuid disk_root_uuid && not d.updated
    then all_parts private disks
    else disk_parts private d ++ all_parts private disks

abbrev pub buf_size : ℕ
buf_size = 4095

-- The calls of `snprintf` until one reaches the end of the buffer, and whether none does.
pub emit : Str → List Str → Str × Bool
emit buf [] = (buf, true)
emit buf (p ∷ ps) =
    let more = emit (buf ++ p) ps in
    if ltb (length (buf ++ p)) buf_size then more else (take (buf_size - 1) (buf ++ p), false)

-- `if (*(sp - 1) == ';') *(sp - 1) = 0`.
pub drop_last : Str → Str
drop_last [] = []
drop_last (c ∷ []) = if c == b';' then [] else c ∷ []
drop_last (c ∷ e ∷ s) = c ∷ drop_last (e ∷ s)

-- `disk2str`: NULL is none. What stands outside of the buffer is not modelled: the byte in front of
-- it when no disk is printed, and those behind it when the text does not fit.
unfoldable pub disk2str : (private : Option Str) → List VzDisk → Option Str
unfolding all_parts emit drop_last
disk2str private [] = none
disk2str private (d ∷ disks) =
    let (buf, fits) = emit [] (all_parts private (d ∷ disks)) in
    some (if fits then drop_last buf else buf)
