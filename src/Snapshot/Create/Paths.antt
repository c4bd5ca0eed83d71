-- ===== src/Snapshot/Create/Paths.antt =====
-- What `vzctl_env_create_snapshot` leaves behind on each of its paths.
use libvzctl.Common.{◌≡◌, ◌≢◌, ◌⊎◌, true, false, Option, none, some, List, arith, Str}
use libvzctl.Common.Errors.{e_create_snapshot}
use libvzctl.Snapshot.{Tree, SnapshotParam, add_snapshot}
use libvzctl.Snapshot.Flow.{running, DisksFrozen, frozen_from, locked_from, tmp_from, xml_from}
use libvzctl.Snapshot.Create.{
  Disk, CreateCalls, copy_snapshot_config, old_tree, chosen_guid, create_snapshot,
}

-- When it returns 0, and its last rename succeeds, Snapshots.xml holds the tree that
-- `vzctl_add_snapshot` makes of the tree that was read, and that call succeeded; nothing is left
-- frozen, locked or in the temporary file.
pub create_snapshot_success :
    (o : CreateCalls) (disks : List Disk) (param : SnapshotParam) (old : Option Tree)
    → (create_snapshot o disks param).ret ≡ 0
    → o.renamed ≡ true
    → (tree : Tree) × (guid : Str) × (old_tree o.xml o.read ≡ some tree)
      × (chosen_guid param o.uuid ≡ some guid)
      × ((add_snapshot o.mem tree guid param o.date).0 ≡ 0)
      × (xml_from none old (create_snapshot o disks param).trace
          ≡ some (add_snapshot o.mem tree guid param o.date).1)
      × (frozen_from false (create_snapshot o disks param).trace ≡ false)
      × (locked_from false (create_snapshot o disks param).trace ≡ false)
      × (tmp_from none (create_snapshot o disks param).trace ≡ none)
unfolding create_snapshot
create_snapshot_success o disks param old h r = ground arith

-- When it returns an error, Snapshots.xml is as before, but for one case: the container was running,
-- its disk snapshot was made, and resuming it failed.
pub create_snapshot_failure :
    (o : CreateCalls) (disks : List Disk) (param : SnapshotParam) (old : Option Tree)
    → (create_snapshot o disks param).ret ≢ 0
    → (xml_from none old (create_snapshot o disks param).trace ≡ old)
      ⊎ ((o.run ≡ running) × (o.disk ≡ 0) × (o.resumed ≡ false))
unfolding create_snapshot
create_snapshot_failure o disks param old h = ground arith

-- When it returns an error although freezing, `init_runtime_ctx` and the resume commands succeed,
-- the container is not frozen, the enter lock is free and the temporary file is gone.
pub create_snapshot_unwinds :
    (o : CreateCalls) (disks : List Disk) (param : SnapshotParam)
    → (create_snapshot o disks param).ret ≢ 0
    → o.frozen ≡ true
    → o.ctx ≡ true
    → o.resumed ≡ true
    → o.resumed_on_error ≡ true
    → (frozen_from false (create_snapshot o disks param).trace ≡ false)
      × (locked_from false (create_snapshot o disks param).trace ≡ false)
      × (tmp_from none (create_snapshot o disks param).trace ≡ none)
unfolding create_snapshot
create_snapshot_unwinds o disks param h f c r s = ground arith

-- If the container is running when the snapshot is made, its disks are snapshotted only while it is
-- frozen.
pub create_snapshot-DisksFrozen :
    (o : CreateCalls) (disks : List Disk) (param : SnapshotParam)
    → o.run ≡ running
    → DisksFrozen false (create_snapshot o disks param).trace
unfolding create_snapshot
create_snapshot-DisksFrozen o disks param h = ground arith

-- The calls before `init_runtime_ctx` succeed for a running container whose memory is to be dumped.
pub record IsDumping (o : CreateCalls) (disks : List Disk) (param : SnapshotParam) (tree : Tree)
    (guid : Str) : Type 0 where
  pub layout_five : o.layout ≡ 5
  pub guid_chosen : chosen_guid param o.uuid ≡ some guid
  pub allocated : o.tree_alloc ≡ true
  pub tree_read : old_tree o.xml o.read ≡ some tree
  pub added : (add_snapshot o.mem tree guid param o.date).0 ≡ 0
  pub stored : o.store ≡ true
  pub made : o.make_dir ≡ true
  pub copied : (copy_snapshot_config o disks).0 ≡ 0
  pub is_up : o.run ≡ running
  pub was_frozen : o.frozen ≡ true
  pub dumps : param.skip_dump ≡ false

-- When `init_runtime_ctx` fails in a snapshot of a running container, after all calls before it
-- succeeded, the function returns its error with the container frozen, the enter lock held and the
-- temporary file in place.
pub create_snapshot_leak :
    (o : CreateCalls) (disks : List Disk) (param : SnapshotParam) (tree : Tree) (guid : Str)
    → IsDumping o disks param tree guid
    → o.ctx ≡ false
    → ((create_snapshot o disks param).ret ≡ e_create_snapshot)
      × (frozen_from false (create_snapshot o disks param).trace ≡ true)
      × (locked_from false (create_snapshot o disks param).trace ≡ true)
      × (tmp_from none (create_snapshot o disks param).trace
          ≡ some (add_snapshot o.mem tree guid param o.date).1)
unfolding create_snapshot
create_snapshot_leak o disks param tree guid d h = ground arith
