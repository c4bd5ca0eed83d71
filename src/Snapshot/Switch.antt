-- ===== src/Snapshot/Switch.antt =====
-- `vzctl_env_switch_snapshot` of lib/snapshot.c.
pub mod Paths
use libvzctl.Common.{
  ℕ, Bool, true, false, ◌&&◌, ◌||◌, not, Option, none, some, List, [], ◌∷◌, ◌++◌, Str, ◌==◌,
  if◌then◌else◌,
}
use libvzctl.Common.Errors.{e_inval, e_switch_snapshot}
use libvzctl.Snapshot.{Tree, find_snapshot_by_guid, tree_set_current}
use libvzctl.Snapshot.Flow.{
  freeze, resume, kill, Stat, exists, missing, unreadable, Run, running, stopped, unknown, Event,
  store_tmp, rename_xml, unlink_tmp, restore_conf, rename_conf, unlink_conf, enter_lock,
  release_lock, chkpnt, disk_switch, disk_rollback, disk_delete, env_umount, env_restore, Outcome,
  is_running, is_there, is_nonzero, fail_with, ◌▸◌,
}

-- The results of the calls that `vzctl_env_switch_snapshot` makes.
pub record SwitchCalls : Type 0 where
  pub layout : ℕ
  pub xml : Stat
  pub run : Run
  pub uuid : Option Str
  pub tree_alloc : Bool
  pub read : Option Tree
  pub store : Bool
  pub conf_stat : Stat
  pub cp_file : Bool
  pub handle : Bool
  pub merged : Bool
  pub saved : Bool
  pub opened : Bool
  pub frozen : Bool
  pub mounted : Bool
  pub umounted : Bool
  pub switched : ℕ
  pub killed : Bool
  pub conf_renamed : Bool
  pub dump_stat : Stat
  pub restored : Bool
  pub renamed : Bool
  pub deleted : ℕ
  pub resumed : Bool

-- `restore_env_config`: whether it succeeds.
restore_env_config : SwitchCalls → Bool
unfolding is_there
restore_env_config o =
    is_there o.conf_stat && o.cp_file && o.handle && o.merged && o.saved && o.opened

-- The labels err, err1, err2 and err3. `disks` holds the paths of the container's disks.
abbrev at_err : Outcome
at_err = release_lock ▸ fail_with e_switch_snapshot []

abbrev at_err1 : Outcome
at_err1 = unlink_tmp ▸ unlink_conf ▸ at_err

at_err2 : SwitchCalls → Outcome
unfolding is_running
at_err2 o = if is_running o.run then chkpnt resume o.resumed ▸ at_err1 else at_err1

roll_back : List Str → Outcome → Outcome
roll_back [] rest = rest
roll_back (d ∷ ds) rest = disk_rollback d ▸ roll_back ds rest

at_err3 : SwitchCalls → List Str → Option Str → Outcome
unfolding roll_back at_err2
at_err3 o disks none = at_err2 o
at_err3 o disks (some guid_tmp) = roll_back disks (at_err2 o)

-- The end of the function: the temporary snapshot is deleted and the lock released.
drop_tmp : SwitchCalls → Option Str → ℕ → Outcome
drop_tmp o none ret = release_lock ▸ fail_with ret []
drop_tmp o (some guid_tmp) ret = disk_delete guid_tmp o.deleted ▸ release_lock ▸ fail_with ret []

commit : SwitchCalls → Option Str → ℕ → Outcome
unfolding drop_tmp
commit o guid_tmp ret = rename_xml o.renamed ▸ drop_tmp o guid_tmp ret

-- From `rename(ve_conf_tmp, fname)` on.
resume_dump : SwitchCalls → Bool → Option Str → Outcome
unfolding commit is_nonzero
resume_dump o skip_resume guid_tmp =
    rename_conf o.conf_renamed
    ▸ (if not skip_resume && is_nonzero o.dump_stat
        then env_restore o.restored
          ▸ commit o guid_tmp (if o.restored then 0 else e_switch_snapshot)
        else commit o guid_tmp 0)

-- From `vzctl2_switch_snapshot` on.
switch_disks : SwitchCalls → List Str → Bool → Str → Option Str → Outcome
unfolding resume_dump at_err2 at_err3 is_running
switch_disks o disks skip_resume guid guid_tmp =
    disk_switch guid o.switched
    ▸ (if not (o.switched == 0)
        then at_err2 o
        else if is_running o.run
        then chkpnt kill o.killed
          ▸ (if not o.killed
              then at_err3 o disks guid_tmp
              else env_umount o.umounted
                ▸ (if not o.umounted
                    then at_err3 o disks guid_tmp
                    else resume_dump o skip_resume guid_tmp))
        else resume_dump o skip_resume guid_tmp)

-- From the comment "freeze" on.
freeze_or_umount : SwitchCalls → List Str → Bool → Str → Option Str → Outcome
unfolding switch_disks is_running
freeze_or_umount o disks skip_resume guid guid_tmp =
    if is_running o.run
    then enter_lock
      ▸ chkpnt freeze o.frozen
      ▸ (if not o.frozen then at_err1 else switch_disks o disks skip_resume guid guid_tmp)
    else if o.mounted
    then env_umount o.umounted
      ▸ (if not o.umounted then at_err1 else switch_disks o disks skip_resume guid guid_tmp)
    else switch_disks o disks skip_resume guid guid_tmp

-- From `vzctl_snapshot_tree_set_current` on, for a tree that has the guid.
switch_tree : SwitchCalls → List Str → Bool → Str → Option Str → Tree → Outcome
unfolding freeze_or_umount restore_env_config
switch_tree o disks skip_resume guid guid_tmp tree =
    store_tmp (tree_set_current tree guid) o.store
    ▸ (if not o.store
        then at_err
        else restore_conf (restore_env_config o)
          ▸ (if not (restore_env_config o)
              then at_err1
              else freeze_or_umount o disks skip_resume guid guid_tmp))

find_tree : SwitchCalls → List Str → Bool → Str → Option Str → Option Tree → Outcome
unfolding switch_tree
find_tree o disks skip_resume guid guid_tmp none = at_err
find_tree o disks skip_resume guid guid_tmp (some tree) = elim (find_snapshot_by_guid tree guid) [
  | none ↦ at_err
  | some id ↦ switch_tree o disks skip_resume guid guid_tmp tree
]

read_tree : SwitchCalls → List Str → Bool → Str → Option Str → Outcome
unfolding find_tree
read_tree o disks skip_resume guid guid_tmp =
    if not o.tree_alloc
    then fail_with e_switch_snapshot []
    else find_tree o disks skip_resume guid guid_tmp o.read

is_empty : List Str → Bool
is_empty [] = true
is_empty _ = false

-- From the choice of `guid_tmp` on: it is made if the container runs or has disks.
make_tmp : SwitchCalls → List Str → Bool → Str → Outcome
unfolding read_tree is_running is_empty
make_tmp o disks skip_resume guid =
    if is_running o.run || not (is_empty disks)
    then elim o.uuid [
      | none ↦ fail_with e_switch_snapshot []
      | some g ↦ read_tree o disks skip_resume guid (some g)
    ]
    else read_tree o disks skip_resume guid none

on_run : SwitchCalls → List Str → Bool → Str → Run → Outcome
unfolding make_tmp
on_run o disks skip_resume guid unknown = fail_with e_switch_snapshot []
on_run o disks skip_resume guid running = make_tmp o disks skip_resume guid
on_run o disks skip_resume guid stopped = make_tmp o disks skip_resume guid

-- `vzctl_env_switch_snapshot`; `guid` and `skip_resume` are those of its parameter.
unfoldable pub switch_snapshot : SwitchCalls → List Str → Bool → Option Str → Outcome
unfolding on_run is_there
switch_snapshot o disks skip_resume none = fail_with e_inval []
switch_snapshot o disks skip_resume (some guid) =
    if not (o.layout == 5)
    then fail_with e_switch_snapshot []
    else if not (is_there o.xml)
    then fail_with e_switch_snapshot []
    else on_run o disks skip_resume guid o.run
