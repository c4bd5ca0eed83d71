-- ===== src/Snapshot/Create.antt =====
-- `vzctl_env_create_snapshot` of lib/snapshot.c.
pub mod Paths
use libvzctl.Common.{
  ℕ, ◌≡◌, refl, Bool, true, false, ◌&&◌, ◌||◌, not, Option, none, some, List, [], ◌∷◌, ◌++◌, arith,
  Str, codes, ◌==◌, if◌then◌else◌, take,
}
use libvzctl.Common.Errors.{e_nomem, e_create_snapshot}
use libvzctl.Snapshot.{Tree, SnapshotParam, add_snapshot}
use libvzctl.Snapshot.Flow.{
  Cmd, freeze, dump, resume, kill, Stat, exists, missing, unreadable, Run, running, stopped,
  unknown, Event, store_tmp, rename_xml, unlink_tmp, copy_conf, unlink_conf, enter_lock,
  release_lock, chkpnt, disk_snapshot, init_ctx, deinit_ctx, Outcome, is_running, fail_with, ◌▸◌,
  frozen_from, locked_from, tmp_from, xml_from,
}

-- `struct vzctl_disk`: what `copy_snapshot_config` reads of it.
pub record Disk : Type 0 where
  pub uuid : Str
  pub storage_url : Option Str

-- `strncmp(s, prefix, strlen(prefix)) == 0`.
pub starts_with : Str → Str → Bool
starts_with [] s = true
starts_with (c ∷ p) [] = false
starts_with (c ∷ p) (d ∷ s) = c == d && starts_with p s

pub is_permanent_disk : Disk → Bool
unfolding starts_with
is_permanent_disk d = elim d.storage_url [
  | none ↦ true
  | some url ↦ not (starts_with (codes "backup://") url)
]

-- The results of the calls that `vzctl_env_create_snapshot` makes.
pub record CreateCalls : Type 0 where
  pub layout : ℕ
  pub uuid : Option Str
  pub tree_alloc : Bool
  pub xml : Stat
  pub read : Option Tree
  pub mem : Bool
  pub date : Str
  pub store : Bool
  pub make_dir : Bool
  pub cp_file : ℕ
  pub opened : Bool
  pub open_err : ℕ
  pub detach : Str → ℕ
  pub run : Run
  pub frozen : Bool
  pub ctx : Bool
  pub dumped : Bool
  pub disk : ℕ
  pub resumed : Bool
  pub resumed_on_error : Bool
  pub renamed : Bool

-- The loop of `copy_snapshot_config`, with the result so far: disks that are not permanent are
-- detached from the copy, up to the first failure; their uuids are listed.
detach_disks : (Str → ℕ) → ℕ → List Disk → ℕ × List Str
detach_disks detach res [] = (res, [])
detach_disks detach res (d ∷ ds) =
    let skip = detach_disks detach res ds in
    let rest = detach_disks detach 0 ds in
    if is_permanent_disk d
    then skip
    else if detach d.uuid == 0
    then (rest.0, d.uuid ∷ rest.1)
    else (detach d.uuid, d.uuid ∷ [])

unfoldable pub copy_snapshot_config : CreateCalls → List Disk → ℕ × List Str
unfolding detach_disks is_permanent_disk
copy_snapshot_config o disks =
    if not (o.cp_file == 0)
    then (o.cp_file, [])
    else if o.opened
    then detach_disks o.detach o.open_err disks
    else (o.open_err, [])

-- The labels err, err1 and err2.
abbrev at_err : Outcome
at_err = fail_with e_create_snapshot (deinit_ctx ∷ [])

abbrev at_err1 : Outcome
at_err1 = unlink_tmp ▸ unlink_conf ▸ at_err

at_err2 : CreateCalls → Outcome
at_err2 o =
    if is_running o.run then chkpnt resume o.resumed_on_error ▸ release_lock ▸ at_err1 else at_err1

-- From `rename(tmp, fname)` on.
finish : CreateCalls → ℕ → Outcome
finish o ret = rename_xml o.renamed ▸ deinit_ctx ▸ fail_with ret []

-- From `vzctl2_env_create_disk_snapshot` on.
take_disk : CreateCalls → Str → Outcome
unfolding at_err2 finish is_running
take_disk o guid =
    disk_snapshot guid o.disk
    ▸ (if not (o.disk == 0)
        then at_err2 o
        else if is_running o.run
        then chkpnt resume o.resumed
          ▸ release_lock
          ▸ finish o (if o.resumed then 0 else e_create_snapshot)
        else finish o 0)

-- From `init_runtime_ctx` on.
take_dump : CreateCalls → Str → Outcome
unfolding at_err2 take_disk is_running
take_dump o guid =
    init_ctx o.ctx
    ▸ (if not o.ctx
        then at_err
        else chkpnt dump o.dumped ▸ (if not o.dumped then at_err2 o else take_disk o guid))

-- From `is_env_run` on.
take_snapshot : CreateCalls → Bool → Str → Run → Outcome
unfolding take_dump take_disk
take_snapshot o skip_dump guid unknown = at_err1
take_snapshot o skip_dump guid stopped = take_disk o guid
take_snapshot o skip_dump guid running =
    enter_lock
    ▸ chkpnt freeze o.frozen
    ▸ (if not o.frozen then at_err1 else if skip_dump then take_disk o guid else take_dump o guid)

-- From `vzctl_store_snapshot_tree` on; `tree` is the tree with the new entry.
store_tree : CreateCalls → List Disk → Bool → Str → Tree → Outcome
unfolding take_snapshot copy_snapshot_config
store_tree o disks skip_dump guid tree =
    store_tmp tree o.store
    ▸ (if not o.store
        then at_err
        else if not o.make_dir
        then at_err1
        else let copied = copy_snapshot_config o disks in
          copy_conf copied.1 copied.0
          ▸ (if not (copied.0 == 0) then at_err1 else take_snapshot o skip_dump guid o.run))

-- The tree that is read: none if the read fails, empty if there is no Snapshots.xml.
unfoldable pub old_tree : Stat → Option Tree → Option Tree
old_tree missing read = some []
old_tree exists read = read
old_tree unreadable read = read

with_tree : CreateCalls → List Disk → SnapshotParam → Str → Option Tree → Outcome
unfolding store_tree
with_tree o disks param guid none = at_err
with_tree o disks param guid (some tree) =
    let added = add_snapshot o.mem tree guid param o.date in
    if not (added.0 == 0) then at_err else store_tree o disks param.skip_dump guid added.1

with_guid : CreateCalls → List Disk → SnapshotParam → Option Str → Outcome
unfolding with_tree old_tree
with_guid o disks param none = fail_with e_create_snapshot []
with_guid o disks param (some guid) =
    if not o.tree_alloc
    then fail_with e_nomem []
    else with_tree o disks param guid (old_tree o.xml o.read)

-- The guid: the caller's, of which `snprintf` into `guid[39]` takes 38 bytes, or a new one.
unfoldable pub chosen_guid : SnapshotParam → Option Str → Option Str
chosen_guid param uuid = elim param.param_guid [ none ↦ uuid | some g ↦ some (take 38 g) ]

-- `vzctl_env_create_snapshot`.
unfoldable pub create_snapshot : CreateCalls → List Disk → SnapshotParam → Outcome
unfolding with_guid
create_snapshot o disks param =
    if not (o.layout == 5)
    then fail_with e_create_snapshot []
    else with_guid o disks param (chosen_guid param o.uuid)
