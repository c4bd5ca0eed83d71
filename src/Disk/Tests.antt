-- ===== src/Disk/Tests.antt =====
-- Disks at concrete values.
use libvzctl.Common.{
  ◌≡◌, refl, true, false, Option, none, some, [], ◌∷◌, Str, codes, arith, str_eq, subst,
}
use libvzctl.Bitmap.Text.{decimal}
use libvzctl.Names.{has_byte, id2yesno}
use libvzctl.Snapshot.Flow.{missing, exists, running, stopped}
use libvzctl.Disk.{VzDisk, empty_disk}
use libvzctl.Disk.Table.{
  EnvDisk, DiskParam, find_disk, remove_disk, check_new_disk, is_text, disk_param2disk,
}
use libvzctl.Disk.Table.Unique.{IsUnique}
use libvzctl.Disk.Text.{
  disk2str, all_parts, disk_parts, get_rel_path, parse_disk, parse_disk_str, set_parts, set_value,
  read_key,
}
use libvzctl.Disk.Text.Split.{concat}
use libvzctl.Disk.Text.Fields.{IsValue, IsPrintable, reread}
use libvzctl.Disk.Text.Trip.{parse_disk-disk2str, reread_disk}
use libvzctl.Disk.Add.{
  AddCalls, DiskFlags, vz_add_disk, add_checked, add_disk, add_image, add_create, add_enable,
  add_out, enable_disk,
}
use libvzctl.Disk.Add.Paths.{image, mounted, vz_add_disk-IsUnique, vz_add_disk_failure}
use libvzctl.Disk.Change.{DiskCalls, vz_del_disk, del_disk_found}
use libvzctl.Disk.Change.Paths.{vz_del_disk-disks}

abbrev any_guid : Str → Option Str
any_guid s = some s

abbrev home : VzDisk
home = record empty_disk {
  uuid = codes "{a}";
  enabled = some true;
  size = 1024;
  path = some (codes "/vz/1/home.hdd");
  mnt = some (codes "/home");
}

abbrev private_area : Option Str
private_area = some (codes "/vz/1")

home_text :
    disk2str private_area (home ∷ [])
    ≡ some (codes "uuid={a},size=1024,enabled=yes,mnt=/home,image=home.hdd")
unfolding disk2str str_eq decimal id2yesno get_rel_path
home_text = refl

-- Mount options are not printed.
no_options :
    disk2str private_area (record home { mnt_opts = some (codes "ro") } ∷ [])
    ≡ disk2str private_area (home ∷ [])
unfolding disk2str str_eq decimal id2yesno get_rel_path
no_options = refl

no_uuid : parse_disk any_guid (codes "image=home.hdd") [] ≡ (21, [])
unfolding parse_disk parse_disk_str set_parts read_key set_value
no_uuid = refl

IsValue-example : IsValue (codes "/home")
unfolding has_byte
IsValue-example = record { not_empty = refl; fits_tmp = refl; no_comma = refl; no_semicolon = refl }

home-IsPrintable : IsPrintable any_guid private_area home
unfolding has_byte get_rel_path str_eq
home-IsPrintable = record {
  path = codes "/vz/1/home.hdd";
  has_path = refl;
  path_value = record { not_empty = refl; fits_tmp = refl; no_comma = refl; no_semicolon = refl };
  uuid_value = record { not_empty = refl; fits_tmp = refl; no_comma = refl; no_semicolon = refl };
  uuid_normal = refl;
  size_range = omega arith;
  mnt_value = IsValue-example;
  url_value = tt;
  printed = refl;
}

parse_disk-disk2str_example :
    (s : Str) × (disk2str private_area (home ∷ []) ≡ some s)
    × (parse_disk any_guid s [] ≡ (0, record home { path = some (codes "home.hdd") } ∷ []))
unfolding reread_disk reread get_rel_path disk_parts all_parts concat decimal id2yesno str_eq
parse_disk-disk2str_example =
    parse_disk-disk2str any_guid private_area home [] [] (home-IsPrintable, tt) (omega arith)

abbrev no_flags : DiskFlags
no_flags = record {
  recreate = false;
  skip_create = false;
  skip_configure = false;
  disk_detach = false;
}

abbrev calls : AddCalls
calls = record {
  new_uuid = some (codes "{b}");
  is_denied = false;
  image = missing;
  descriptor = exists;
  descriptor_read = true;
  recreated = true;
  info = none;
  sectors = 0;
  dir_made = true;
  created = 0;
  run = running;
  is_mounted = false;
  mounted = 0;
  setup = 0;
  umounted = 0;
  destroyed = true;
}

abbrev one_disk : EnvDisk
one_disk = record { disks = home ∷ []; root = none }

abbrev new_disk : DiskParam
new_disk = record {
  uuid = [];
  enabled = none;
  size = 512;
  path = some (codes "data.hdd");
  mnt = some (codes "/data");
  autocompact = none;
  storage_url = none;
  use_device = false;
}

uuid_of : {u : Str} → calls.new_uuid ≡ some u → codes "{b}" ≡ u
uuid_of e = cc

vz_add_disk-IsUnique_example :
    IsUnique (vz_add_disk calls no_flags private_area one_disk new_disk).env.disks
unfolding vz_add_disk add_checked add_disk add_image add_create add_enable enable_disk
    check_new_disk disk_param2disk is_text str_eq add_out
vz_add_disk-IsUnique_example =
    vz_add_disk-IsUnique calls no_flags private_area one_disk new_disk (tt, tt)
      (λ uuid e. subst (λ u. is_text u ≡ true) (uuid_of e) refl) refl

-- Setting the disk up fails.
abbrev no_setup : AddCalls
no_setup = record calls { setup = 5 }

vz_add_disk_failure_example :
    ((vz_add_disk no_setup no_flags private_area one_disk new_disk).env ≡ one_disk)
    × (image false (vz_add_disk no_setup no_flags private_area one_disk new_disk).trace ≡ false)
    × (mounted false (vz_add_disk no_setup no_flags private_area one_disk new_disk).trace ≡ false)
unfolding vz_add_disk add_checked add_disk add_image add_create add_enable enable_disk
    check_new_disk disk_param2disk is_text str_eq add_out
vz_add_disk_failure_example =
    vz_add_disk_failure no_setup no_flags private_area one_disk new_disk refl refl (ground arith)

abbrev del_calls : DiskCalls
del_calls = record {
  image = exists;
  info = 0;
  run = stopped;
  guest = true;
  perm = 0;
  sysfs = 0;
  umounted = 0;
  destroyed = true;
  init_pid = 0;
  resized = 0;
  diskspace = 0;
  max_fs_size = 17179869184;
  add = calls;
}

vz_del_disk-disks_example :
    let r = vz_del_disk del_calls no_flags one_disk (codes "{a}") in
    IsUnique r.env.disks × (find_disk r.env.disks (codes "{a}") ≡ none)
unfolding vz_del_disk find_disk remove_disk str_eq del_disk_found
vz_del_disk-disks_example =
    vz_del_disk-disks del_calls no_flags one_disk (codes "{a}") (codes "{a}") (tt, tt)
