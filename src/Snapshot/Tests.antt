-- ===== src/Snapshot/Tests.antt =====
-- The theorems on snapshots at concrete inputs.
use mathlib.Core.Option
use libvzctl.Common.{
  contains, suc, ℕ, ◌≡◌, ◌≢◌, ◌⊎◌, inl, inr, refl, Bool, true, false, Option, none, some, List, [],
  ◌∷◌, arith, Str, codes, str_eq, if◌then◌else◌,
}
use libvzctl.Snapshot.{
  add_snapshot_tree_entry, Snap, Tree, SnapshotParam, add_snapshot, tree_set_current,
  find_snapshot_by_guid, del_snapshot_tree_entry,
}
use libvzctl.Snapshot.Forest.{IsForest}
use libvzctl.Snapshot.Delete.{parent_of, parent_of-del}
use libvzctl.Snapshot.Keep.{del-IsForest}
use libvzctl.Snapshot.Flow.{
  exists, missing, running, frozen_from, locked_from, tmp_from, xml_from, DisksFrozen,
}
use libvzctl.Snapshot.Create.{
  copy_snapshot_config, CreateCalls, Disk, create_snapshot, old_tree, chosen_guid,
}
use libvzctl.Snapshot.Create.Paths.{
  create_snapshot_success, create_snapshot_failure, create_snapshot-DisksFrozen, IsDumping,
}
use libvzctl.Snapshot.Switch.{SwitchCalls, switch_snapshot}
use libvzctl.Snapshot.Switch.Paths.{switch_snapshot_success}
use libvzctl.Snapshot.Remove.{mount_snapshot, umount_snapshot, RemoveCalls}

abbrev entry : Bool → Str → Str → Snap
entry current guid parent_guid = record {
  current = current;
  guid = guid;
  parent_guid = parent_guid;
  name = [];
  date = [];
  desc = [];
}

abbrev tree : Tree
tree =
    entry false (codes "a") []
    ∷ entry true (codes "b") (codes "a")
    ∷ entry false (codes "c") (codes "b")
    ∷ []

tree-IsForest : IsForest tree
unfolding contains str_eq
tree-IsForest = record {
  ordered = (inl refl, refl, (cc), (inr refl, refl, (cc), (inr refl, refl, (cc), tt)));
  one_current = omega arith;
}

abbrev param : SnapshotParam
param = record {
  param_guid = some (codes "d");
  param_name = none;
  param_desc = none;
  skip_dump = false;
}

del-IsForest_example : IsForest (del_snapshot_tree_entry tree (codes "b"))
del-IsForest_example = del-IsForest (codes "b") tree-IsForest

parent_of-del_example : parent_of (del_snapshot_tree_entry tree (codes "b")) (codes "c") ≡ (
    if str_eq (codes "b") (codes "c")
    then none
    else Option.map
        (λ q. if str_eq q (codes "b") then codes "a" else q)
        (parent_of tree (codes "c")))
unfolding str_eq
parent_of-del_example = parent_of-del (codes "b") (codes "c") (codes "a") tree-IsForest refl

-- Every call succeeds, for a running container with a tree.
abbrev good : CreateCalls
good = record {
  layout = 5;
  uuid = none;
  tree_alloc = true;
  xml = exists;
  read = some tree;
  mem = true;
  date = [];
  store = true;
  make_dir = true;
  cp_file = 0;
  opened = true;
  open_err = 0;
  detach = λ _. 0;
  run = running;
  frozen = true;
  ctx = true;
  dumped = true;
  disk = 0;
  resumed = true;
  resumed_on_error = true;
  renamed = true;
}

abbrev no_ctx : CreateCalls
no_ctx = record good { ctx = false }

abbrev no_dump : CreateCalls
no_dump = record good { dumped = false }

abbrev disks : List Disk
disks = record { uuid = codes "u"; storage_url = some (codes "backup://x") } ∷ []

create_ret :
    ((create_snapshot good disks param).ret ≡ 0) × ((create_snapshot no_dump disks param).ret ≡ 156)
unfolding create_snapshot chosen_guid add_snapshot add_snapshot_tree_entry find_snapshot_by_guid
    str_eq
create_ret = (refl, refl)

create_snapshot_success_example :
    (t : Tree) × (guid : Str) × (old_tree exists (some tree) ≡ some t)
    × (chosen_guid param none ≡ some guid)
    × ((add_snapshot true t guid param []).0 ≡ 0)
    × (xml_from none none (create_snapshot good disks param).trace
        ≡ some (add_snapshot true t guid param []).1)
    × (frozen_from false (create_snapshot good disks param).trace ≡ false)
    × (locked_from false (create_snapshot good disks param).trace ≡ false)
    × (tmp_from none (create_snapshot good disks param).trace ≡ none)
create_snapshot_success_example = create_snapshot_success good disks param none create_ret.0 refl

fails : {a b : ℕ} → a ≡ suc b → a ≢ 0
fails e = λ z. absurd (omega arith)

create_snapshot_failure_example :
    (xml_from none (some tree) (create_snapshot no_dump disks param).trace ≡ some tree)
    ⊎ ((no_dump.run ≡ running) × (no_dump.disk ≡ 0) × (no_dump.resumed ≡ false))
create_snapshot_failure_example =
    create_snapshot_failure no_dump disks param (some tree) (fails create_ret.1)

create_snapshot-DisksFrozen_example : DisksFrozen false (create_snapshot good disks param).trace
create_snapshot-DisksFrozen_example = create_snapshot-DisksFrozen good disks param refl

no_ctx-IsDumping : IsDumping no_ctx disks param tree (codes "d")
unfolding chosen_guid old_tree copy_snapshot_config add_snapshot add_snapshot_tree_entry
    find_snapshot_by_guid str_eq
no_ctx-IsDumping = record {
  layout_five = refl;
  guid_chosen = refl;
  allocated = refl;
  tree_read = refl;
  added = refl;
  stored = refl;
  made = refl;
  copied = refl;
  is_up = refl;
  was_frozen = refl;
  dumps = refl;
}

-- Every call succeeds, for a running container.
abbrev good_switch : SwitchCalls
good_switch = record {
  layout = 5;
  xml = exists;
  run = running;
  uuid = some (codes "t");
  tree_alloc = true;
  read = some tree;
  store = true;
  conf_stat = exists;
  cp_file = true;
  handle = true;
  merged = true;
  saved = true;
  opened = true;
  frozen = true;
  mounted = true;
  umounted = true;
  switched = 0;
  killed = true;
  conf_renamed = true;
  dump_stat = missing;
  restored = true;
  renamed = true;
  deleted = 0;
  resumed = true;
}

abbrev bad_switch : SwitchCalls
bad_switch = record good_switch { killed = false }

abbrev paths : List Str
paths = codes "p" ∷ codes "q" ∷ []

abbrev to_c : Option Str
to_c = some (codes "c")

switch_ret :
    ((switch_snapshot good_switch paths false to_c).ret ≡ 0)
    × ((switch_snapshot bad_switch paths false to_c).ret ≡ 159)
unfolding switch_snapshot find_snapshot_by_guid str_eq
switch_ret = (refl, refl)

switch_snapshot_success_example :
    (t : Tree) × (g : Str) × (id : ℕ) × (to_c ≡ some g)
    × (good_switch.read ≡ some t)
    × (find_snapshot_by_guid t g ≡ some id)
    × (xml_from none none (switch_snapshot good_switch paths false to_c).trace
        ≡ some (tree_set_current t g))
    × (frozen_from false (switch_snapshot good_switch paths false to_c).trace ≡ false)
switch_snapshot_success_example =
    switch_snapshot_success good_switch paths false to_c none switch_ret.0 refl

abbrev good_remove : RemoveCalls
good_remove = record {
  layout = 5;
  xml = exists;
  tree_alloc = true;
  read = some tree;
  store = true;
  disk = 0;
  dump_stat = exists;
  conf_stat = exists;
  renamed = true;
  mounted = true;
  umounted = true;
}

mount_ret :
    ((mount_snapshot good_remove true to_c).ret ≡ 0)
    × ((umount_snapshot good_remove true to_c).ret ≡ 0)
unfolding mount_snapshot umount_snapshot find_snapshot_by_guid str_eq
mount_ret = (refl, refl)
