-- ===== src/Snapshot/Remove.antt =====
-- `vzctl_env_delete_snapshot`, `vzctl2_env_mount_snapshot` and `vzctl2_env_umount_snapshot` of
-- lib/snapshot.c.
use libvzctl.Common.{
  ◌∷◌, true, ℕ, ◌≡◌, ◌≢◌, ◌⊎◌, Bool, not, Option, none, some, [], Str, ◌==◌, if◌then◌else◌, arith,
}
use libvzctl.Common.Errors.{
  e_nomem, e_inval, e_not_enough_params, e_delete_snapshot, e_mount_snapshot, e_umount_snapshot,
}
use libvzctl.Snapshot.{Tree, find_snapshot_by_guid, del_snapshot_tree_entry}
use libvzctl.Snapshot.Flow.{
  Stat, store_tmp, rename_xml, unlink_tmp, unlink_conf, disk_delete, disk_mount, disk_umount,
  delete_dump, Outcome, is_there, is_nonzero, fail_with, ◌▸◌, tmp_from, xml_from,
}

-- The results of the calls that the three functions make.
pub record RemoveCalls : Type 0 where
  pub layout : ℕ
  pub xml : Stat
  pub tree_alloc : Bool
  pub read : Option Tree
  pub store : Bool
  pub disk : ℕ
  pub dump_stat : Stat
  pub conf_stat : Stat
  pub renamed : Bool
  pub mounted : Bool
  pub umounted : Bool

-- The labels err and err1 of the deletion.
abbrev at_err : Outcome
at_err = fail_with e_delete_snapshot []

abbrev at_err1 : Outcome
at_err1 = unlink_tmp ▸ at_err

clean_conf : RemoveCalls → Outcome
unfolding is_nonzero
clean_conf o =
    if is_nonzero o.conf_stat
    then unlink_conf ▸ rename_xml o.renamed ▸ fail_with 0 []
    else rename_xml o.renamed ▸ fail_with 0 []

clean_dump : RemoveCalls → Outcome
unfolding clean_conf is_nonzero
clean_dump o = if is_nonzero o.dump_stat then delete_dump ▸ clean_conf o else clean_conf o

delete_disk : RemoveCalls → Str → Tree → Outcome
unfolding clean_dump
delete_disk o guid tree =
    store_tmp tree o.store
    ▸ (if not o.store
        then at_err
        else disk_delete guid o.disk ▸ (if not (o.disk == 0) then at_err1 else clean_dump o))

delete_in : RemoveCalls → Str → Option Tree → Outcome
unfolding delete_disk
delete_in o guid none = at_err
delete_in o guid (some tree) = elim (find_snapshot_by_guid tree guid) [
  | none ↦ at_err
  | some id ↦ delete_disk o guid (del_snapshot_tree_entry tree guid)
]

-- `vzctl_env_delete_snapshot`.
pub delete_snapshot : RemoveCalls → Option Str → Outcome
unfolding delete_in is_there
delete_snapshot o none = fail_with e_inval []
delete_snapshot o (some guid) =
    if not (o.layout == 5)
    then at_err
    else if not (is_there o.xml)
    then at_err
    else if not o.tree_alloc
    then at_err
    else delete_in o guid o.read

mount_in : RemoveCalls → Str → Option Tree → Outcome
mount_in o guid none = fail_with e_mount_snapshot []
mount_in o guid (some tree) = elim (find_snapshot_by_guid tree guid) [
  | none ↦ fail_with e_mount_snapshot []
  | some id ↦ disk_mount guid o.mounted ▸ fail_with (if o.mounted then 0 else e_mount_snapshot) []
]

-- `vzctl2_env_mount_snapshot`; `private` tells whether the container's private area is known.
unfoldable pub mount_snapshot : RemoveCalls → Bool → Option Str → Outcome
unfolding mount_in is_there
mount_snapshot o private none = fail_with e_not_enough_params []
mount_snapshot o private (some guid) =
    if not private
    then fail_with e_not_enough_params []
    else if not (o.layout == 5)
    then fail_with e_mount_snapshot []
    else if not (is_there o.xml)
    then fail_with e_mount_snapshot []
    else if not o.tree_alloc
    then fail_with e_nomem []
    else mount_in o guid o.read

-- `vzctl2_env_umount_snapshot`.
unfoldable pub umount_snapshot : RemoveCalls → Bool → Option Str → Outcome
umount_snapshot o private none = fail_with e_not_enough_params []
umount_snapshot o private (some guid) =
    if not private
    then fail_with e_not_enough_params []
    else if not (o.layout == 5)
    then fail_with e_umount_snapshot []
    else disk_umount guid o.umounted ▸ fail_with (if o.umounted then 0 else e_umount_snapshot) []

-- When the deletion returns 0, the disks' snapshot was deleted, the tree that was read has the guid,
-- and Snapshots.xml holds that tree without the entry, if its rename succeeds. When it returns an
-- error, Snapshots.xml is as before and the temporary file is gone.
pub delete_snapshot_outcome :
    (o : RemoveCalls) (guid : Option Str) (old : Option Tree)
    → ((delete_snapshot o guid).ret ≢ 0)
        × (xml_from none old (delete_snapshot o guid).trace ≡ old)
        × (tmp_from none (delete_snapshot o guid).trace ≡ none)
      ⊎ ((delete_snapshot o guid).ret ≡ 0)
        × ((tree : Tree) × (g : Str) × (id : ℕ) × (guid ≡ some g)
            × (o.read ≡ some tree)
            × (find_snapshot_by_guid tree g ≡ some id)
            × (o.disk ≡ 0)
            × (xml_from none old (delete_snapshot o guid).trace
                ≡ (if o.renamed then some (del_snapshot_tree_entry tree g) else old)))
unfolding delete_snapshot
delete_snapshot_outcome o guid old = ground arith

-- When `vzctl2_env_mount_snapshot` returns 0, the tree that was read has the guid, and its disks'
-- snapshot was mounted.
pub mount_snapshot_success :
    (o : RemoveCalls) (private : Bool) (guid : Option Str)
    → (mount_snapshot o private guid).ret ≡ 0
    → (tree : Tree) × (g : Str) × (id : ℕ) × (guid ≡ some g)
      × (o.read ≡ some tree)
      × (find_snapshot_by_guid tree g ≡ some id)
      × ((mount_snapshot o private guid).trace ≡ disk_mount g true ∷ [])
unfolding mount_snapshot
mount_snapshot_success o private guid e = ground arith

-- When `vzctl2_env_umount_snapshot` returns 0, the snapshot's disks were unmounted.
pub umount_snapshot_success :
    (o : RemoveCalls) (private : Bool) (guid : Option Str)
    → (umount_snapshot o private guid).ret ≡ 0
    → (g : Str) × (guid ≡ some g)
      × ((umount_snapshot o private guid).trace ≡ disk_umount g true ∷ [])
unfolding umount_snapshot
umount_snapshot_success o private guid e = ground arith
