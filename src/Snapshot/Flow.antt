-- ===== src/Snapshot/Flow.antt =====
-- What the snapshot operations of lib/snapshot.c do outside the tree, as the sequence of their
-- calls. A call whose result matters carries it. Log messages and closed handles are left out.
use libvzctl.Common.{◌≡◌, ℕ, Bool, true, false, Option, none, some, List, [], ◌∷◌, Str}
use libvzctl.Snapshot.{Tree}

-- `VZCTL_CMD_FREEZE`, `_DUMP_LEAVE_FROZEN`, `_RESUME`, `_KILL`.
pub data Cmd : Type 0 where
  freeze dump resume kill : Cmd

-- `stat_file`: 1, 0 and -1.
pub data Stat : Type 0 where
  exists missing unreadable : Stat

-- `is_env_run`: 1, 0 and -1.
pub data Run : Type 0 where
  running stopped unknown : Run

unfoldable pub is_running : Run → Bool
is_running running = true
is_running _ = false

unfoldable pub is_there : Stat → Bool
is_there exists = true
is_there _ = false

-- `stat_file(…)` used as a condition: -1 counts as true.
unfoldable pub is_nonzero : Stat → Bool
is_nonzero missing = false
is_nonzero _ = true

pub data Event : Type 0 where
  store_tmp : Tree → Bool → Event
  rename_xml : Bool → Event
  unlink_tmp : Event
  copy_conf : List Str → ℕ → Event
  restore_conf : Bool → Event
  rename_conf : Bool → Event
  unlink_conf : Event
  enter_lock release_lock : Event
  chkpnt : Cmd → Bool → Event
  disk_snapshot : Str → ℕ → Event
  disk_switch : Str → ℕ → Event
  disk_rollback : Str → Event
  disk_delete : Str → ℕ → Event
  disk_mount : Str → Bool → Event
  disk_umount : Str → Bool → Event
  env_umount : Bool → Event
  env_restore : Bool → Event
  delete_dump : Event
  init_ctx : Bool → Event
  deinit_ctx : Event

-- The value returned, and the calls made.
pub record Outcome : Type 0 where
  pub ret : ℕ
  pub trace : List Event

abbrev pub fail_with : ℕ → List Event → Outcome
fail_with e t = record { ret = e; trace = t }

-- A call, then the rest of the function.
infixr 6 ◌▸◌
abbrev pub ◌▸◌ : Event → Outcome → Outcome
e ▸ o = record o { trace = e ∷ o.trace }

-- Whether the container is frozen after the calls: a checkpoint command acts if it succeeds.
abbrev pub frozen_from : Bool → List Event → Bool
frozen_from b [] = b
frozen_from b (chkpnt freeze true ∷ t) = frozen_from true t
frozen_from b (chkpnt resume true ∷ t) = frozen_from false t
frozen_from b (chkpnt kill true ∷ t) = frozen_from false t
frozen_from b (e ∷ t) = frozen_from b t

-- Whether the enter lock is held after the calls.
abbrev pub locked_from : Bool → List Event → Bool
locked_from b [] = b
locked_from b (enter_lock ∷ t) = locked_from true t
locked_from b (release_lock ∷ t) = locked_from false t
locked_from b (e ∷ t) = locked_from b t

-- The tree that stands in Snapshots.xml.tmp after the calls, if the file was stored whole and is
-- still there.
abbrev pub tmp_from : Option Tree → List Event → Option Tree
tmp_from p [] = p
tmp_from p (store_tmp t true ∷ r) = tmp_from (some t) r
tmp_from p (rename_xml true ∷ r) = tmp_from none r
tmp_from p (unlink_tmp ∷ r) = tmp_from none r
tmp_from p (e ∷ r) = tmp_from p r

-- The tree in Snapshots.xml after the calls, from the one before.
abbrev pub xml_from : Option Tree → Option Tree → List Event → Option Tree
xml_from p x [] = x
xml_from p x (store_tmp t true ∷ r) = xml_from (some t) x r
xml_from p x (rename_xml true ∷ r) = xml_from none p r
xml_from p x (unlink_tmp ∷ r) = xml_from none x r
xml_from p x (e ∷ r) = xml_from p x r

-- Every disk snapshot or switch among the calls is made while the container is frozen.
abbrev pub DisksFrozen : Bool → List Event → Type 0
DisksFrozen b [] = Unit
DisksFrozen b (chkpnt freeze true ∷ t) = DisksFrozen true t
DisksFrozen b (chkpnt resume true ∷ t) = DisksFrozen false t
DisksFrozen b (chkpnt kill true ∷ t) = DisksFrozen false t
DisksFrozen b (disk_snapshot g r ∷ t) = (b ≡ true) × DisksFrozen b t
DisksFrozen b (disk_switch g r ∷ t) = (b ≡ true) × DisksFrozen b t
DisksFrozen b (e ∷ t) = DisksFrozen b t
