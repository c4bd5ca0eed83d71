-- ===== src/Disk/Text/Fields.antt =====
-- The parts of the parameter DISK, printed and read for one disk.
use libvzctl.Common.{
  ℕ, ◌<◌, ◌^◌, ◌≡◌, refl, ap, ◌∙◌, Bool, true, false, not, ◌&&◌, Option, none, some, List, [], ◌∷◌,
  ◌++◌, Str, codes, str_eq, length, Option-cases, inl, inr, arith, if◌then◌else◌, leb, ltb,
}
use libvzctl.Bitmap.Text.{decimal, starts_digit, is_decimal}
use libvzctl.Bitmap.Text.Digits.{starts-decimal}
use libvzctl.Numbers.{parse_ul, max_ulong}
use libvzctl.Numbers.Trip.{parse_ul-decimal}
use libvzctl.Names.{has_byte, yesno2id, id2yesno}
use libvzctl.Disk.{VzDisk, Switch, empty_disk}
use libvzctl.Disk.Text.{
  set_parts, set_value, set_key, read_key, DiskKey, k_uuid, k_size, k_image, k_device, k_mnt,
  k_storage_url, get_rel_path, opt_field, switch_field, disk_fields, path_field, with_commas,
  disk_root_uuid, path_max,
}
use libvzctl.Disk.Text.Split.{concat, no_byte-decimal, length-decimal}

-- A value that can be printed: it is not empty, fits the buffer of the parser, and holds no separator.
pub record IsValue (v : Str) : Type 0 where
  pub not_empty : ltb 0 (length v) ≡ true
  pub fits_tmp : ltb (length v) path_max ≡ true
  pub no_comma : has_byte v b',' ≡ false
  pub no_semicolon : has_byte v b';' ≡ false

abbrev pub IsOptValue : Option Str → Type 0
IsOptValue none = Unit
IsOptValue (some v) = IsValue v

set_value-key :
    (guid : Str → Option Str) (key : DiskKey) (v : Str) (d : VzDisk)
    → IsValue v
    → set_value guid key v d ≡ set_key guid key v d
unfolding set_value
set_value-key guid key [] d h = absurd (unfold set_value in (cc h.not_empty))
set_value-key guid key (c ∷ v) d h = rw (h.fits_tmp) refl

not_nil : (s : Str) → starts_digit (s ++ []) ≡ true → ltb 0 (length s) ≡ true
unfolding starts_digit
not_nil [] h = cc
not_nil (c ∷ s) h = ground arith

IsValue-decimal : (n : ℕ) → n < 2 ^ 64 → IsValue (decimal n)
unfolding is_decimal
IsValue-decimal n h = record {
  not_empty = not_nil (decimal n) (starts-decimal n []);
  fits_tmp = ground (arith, length-decimal n h);
  no_comma = no_byte-decimal n b',' refl;
  no_semicolon = no_byte-decimal n b';' refl;
}

IsValue-yesno : (b : Bool) → IsValue (id2yesno b)
unfolding id2yesno has_byte
IsValue-yesno true = record {
  not_empty = refl;
  fits_tmp = refl;
  no_comma = refl;
  no_semicolon = refl;
}
IsValue-yesno false = record {
  not_empty = refl;
  fits_tmp = refl;
  no_comma = refl;
  no_semicolon = refl;
}

some_eq : {d e : VzDisk} → some d ≡ some e → d ≡ e
some_eq h = cc

set_parts-append :
    (guid : Str → Option Str) (xs ys : List Str) (d e : VzDisk)
    → set_parts guid xs d ≡ some e
    → set_parts guid (xs ++ ys) d ≡ set_parts guid ys e
unfolding set_parts
set_parts-append guid [] ys d e h = ap (set_parts guid ys) (some_eq h)
set_parts-append guid (t ∷ xs) ys d e h =
    elim (Option-cases (set_value guid (read_key t).0 (read_key t).1 d)) [
      | inl n ↦ absurd (cc)
      | inr (m, s) ↦ ground (arith, set_parts-append guid xs ys m e)
    ]

-- One part whose key is read and set.
set_parts-key :
    (guid : Str → Option Str) (key : DiskKey) (name v : Str) (d e : VzDisk) (ts : List Str)
    → read_key (name ++ v) ≡ (key, v)
    → IsValue v
    → set_key guid key v d ≡ some e
    → set_parts guid ((name ++ v) ∷ ts) d ≡ set_parts guid ts e
unfolding set_parts
set_parts-key guid key name v d e ts r h k =
    ground (arith, ap (λ p. set_value guid p.0 p.1 d) r ∙ set_value-key guid key v d h ∙ k)

-- A disk while its parts are read.
abbrev read_disk : Str → ℕ → Switch → Option Str → Switch → Option Str → VzDisk
read_disk uuid size enabled mnt autocompact url = record empty_disk {
  uuid = uuid;
  size = size;
  enabled = enabled;
  mnt = mnt;
  autocompact = autocompact;
  storage_url = url;
}

set-uuid :
    (guid : Str → Option Str) (u : Str)
    → guid u ≡ some u
    → set_key guid k_uuid u empty_disk ≡ some (record empty_disk { uuid = u })
unfolding set_key
set-uuid guid u h = ground (arith, h)

set-size :
    (guid : Str → Option Str) (t : Str) (n : ℕ) (d : VzDisk)
    → parse_ul t ≡ some n
    → set_key guid k_size t d ≡ some (record d { size = n })
unfolding set_key
set-size guid t n d h = ground (arith, h)

module _ (guid : Str → Option Str) (u : Str) (n : ℕ) where
  set-enabled :
      (b : Switch)
      → set_parts guid (switch_field (codes "enabled=") b) (read_disk u n none none none none)
        ≡ some (read_disk u n b none none none)
  unfolding set_parts read_key set_value id2yesno yesno2id str_eq
  set-enabled none = refl
  set-enabled (some true) = refl
  set-enabled (some false) = refl

  set-mnt :
      (b : Switch) (m : Option Str)
      → IsOptValue m
      → set_parts guid (opt_field (codes "mnt=") m) (read_disk u n b none none none)
        ≡ some (read_disk u n b m none none)
  unfolding read_key set_key
  set-mnt b none h = unfold set_parts in refl
  set-mnt b (some v) h =
      set_parts-key guid k_mnt (codes "mnt=") v _ _ [] refl h refl ∙ unfold set_parts in refl

  set-autocompact :
      (b : Switch) (m : Option Str) (a : Switch)
      → set_parts guid (switch_field (codes "autocompact=") a) (read_disk u n b m none none)
        ≡ some (read_disk u n b m a none)
  unfolding set_parts read_key set_value id2yesno yesno2id str_eq
  set-autocompact b m none = refl
  set-autocompact b m (some true) = refl
  set-autocompact b m (some false) = refl

  set-storage_url :
      (b : Switch) (m : Option Str) (a : Switch) (l : Option Str)
      → IsOptValue l
      → set_parts guid (opt_field (codes "storage_url=") l) (read_disk u n b m a none)
        ≡ some (read_disk u n b m a l)
  unfolding read_key set_key
  set-storage_url b m a none h = unfold set_parts in refl
  set-storage_url b m a (some v) h =
      set_parts-key guid k_storage_url (codes "storage_url=") v _ _ [] refl h refl
      ∙ unfold set_parts in refl

read_path :
    (guid : Str → Option Str) (device : Bool) (path : Str) (d : VzDisk)
    → IsValue path
    → set_parts guid ((if device then codes "device=" ++ path else codes "image=" ++ path) ∷ []) d
      ≡ some (record d { path = some path; use_device = device })
unfolding read_key set_key
read_path guid true path d h =
    set_parts-key guid k_device (codes "device=") path d _ [] refl h refl ∙ unfold set_parts in refl
read_path guid false path d h =
    set_parts-key guid k_image (codes "image=") path d _ [] refl h refl ∙ unfold set_parts in refl

abbrev pub path_of : (private : Option Str) → Bool → Str → Str
path_of private true path = path
path_of private false path = get_rel_path private path

-- What is read of a disk that is printed: its image is relative to the private area, and its mount
-- options and whether it was updated are not kept.
unfoldable pub reread : (private : Option Str) → VzDisk → Str → VzDisk
reread private d path = record d {
  path = some (path_of private d.use_device path);
  mnt_opts = none;
  updated = false;
}

-- A disk that can be printed: its values can, its uuid is in the normal form, and it is not a default
-- root disk.
pub record IsPrintable (guid : Str → Option Str) (private : Option Str) (d : VzDisk) : Type 0 where
  pub path : Str
  pub has_path : d.path ≡ some path
  pub path_value : IsValue (path_of private d.use_device path)
  pub uuid_value : IsValue d.uuid
  pub uuid_normal : guid d.uuid ≡ some d.uuid
  pub size_range : d.size < 2 ^ 64
  pub mnt_value : IsOptValue d.mnt
  pub url_value : IsOptValue d.storage_url
  pub printed : (str_eq d.uuid disk_root_uuid && not d.updated) ≡ false

-- The text of a disk without the semicolon behind it.
abbrev pub body : (private : Option Str) → VzDisk → Str → Str
body private d path =
    concat (with_commas (disk_fields d)) ++ path_field private d.use_device (some path)

pub path_field-path_of :
    (private : Option Str) (device : Bool) (path : Str)
    → path_field private device (some path) ≡ (
        if device
        then codes "device=" ++ path_of private device path
        else codes "image=" ++ path_of private device path)
unfolding path_field
path_field-path_of private true path = refl
path_field-path_of private false path = refl

module _ {guid : Str → Option Str} {private : Option Str} {d : VzDisk}
    (h : IsPrintable guid private d) where
  fields-read :
      set_parts guid (disk_fields d) empty_disk
      ≡ some (read_disk d.uuid d.size d.enabled d.mnt d.autocompact d.storage_url)
  unfolding disk_fields read_key set_key
  fields-read =
      let size = IsValue-decimal d.size h.size_range in
      let uuid_part = codes "uuid=" ++ d.uuid in
      let size_part = codes "size=" ++ decimal d.size in
      let e = switch_field (codes "enabled=") d.enabled in
      let m = opt_field (codes "mnt=") d.mnt in
      let a = switch_field (codes "autocompact=") d.autocompact in
      let l = opt_field (codes "storage_url=") d.storage_url in
      let in_range : leb d.size max_ulong ≡ true = ground (arith, h.size_range) in
      let numbers : parse_ul (decimal d.size) ≡ some d.size =
        parse_ul-decimal d.size ∙ rw in_range refl in
      set_parts-append guid (((uuid_part ∷ size_part ∷ e) ++ m) ++ a) l empty_disk _ (
        set_parts-append guid ((uuid_part ∷ size_part ∷ e) ++ m) a empty_disk _ (
          set_parts-append guid (uuid_part ∷ size_part ∷ e) m empty_disk _ (
            set_parts-key guid k_uuid (codes "uuid=") d.uuid empty_disk
              (record empty_disk { uuid = d.uuid }) (size_part ∷ e) refl h.uuid_value
              (set-uuid guid d.uuid h.uuid_normal)
            ∙ set_parts-key guid k_size (codes "size=") (decimal d.size)
                (record empty_disk { uuid = d.uuid }) (read_disk d.uuid d.size none none none none)
                e refl size
                (set-size guid (decimal d.size) d.size (record empty_disk { uuid = d.uuid })
                  numbers)
            ∙ set-enabled guid d.uuid d.size d.enabled)
          ∙ set-mnt guid d.uuid d.size d.enabled d.mnt h.mnt_value)
        ∙ set-autocompact guid d.uuid d.size d.enabled d.mnt d.autocompact)
      ∙ set-storage_url guid d.uuid d.size d.enabled d.mnt d.autocompact d.storage_url h.url_value

  pub parts-read :
      set_parts guid
        (disk_fields d ++ path_field private d.use_device (some h.path) ∷ [])
        empty_disk
      ≡ some (reread private d h.path)
  unfolding reread
  parts-read =
      set_parts-append guid (disk_fields d) (path_field private d.use_device (some h.path) ∷ [])
        empty_disk _ fields-read
      ∙ ap
          (λ p.
            set_parts guid (p ∷ [])
              (read_disk d.uuid d.size d.enabled d.mnt d.autocompact d.storage_url))
          (path_field-path_of private d.use_device h.path)
      ∙ read_path guid d.use_device (path_of private d.use_device h.path) _ h.path_value
