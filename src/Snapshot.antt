-- ===== src/Snapshot.antt =====
-- lib/snapshot.c: the snapshot tree of a container, an array of entries that name their parents.
-- The array is a list, `nsnapshots` its length, an index of -1 is `none`.
mod Lookup
mod Forest
mod Delete
mod Keep
mod Tests
pub mod Flow
pub mod Create
pub mod Switch
pub mod Remove
use libvzctl.Common.{
  ℕ, zero, suc, ◌+◌, Bool, true, false, ◌&&◌, Option, none, some, List, [], ◌∷◌, ◌++◌, map, Str,
  str_eq, if◌then◌else◌,
}
use libvzctl.Common.Errors.{e_nomem, e_inval}

-- `struct vzctl_snapshot_data`.
pub record Snap : Type 0 where
  pub current : Bool
  pub guid : Str
  pub parent_guid : Str
  pub name : Str
  pub date : Str
  pub desc : Str

-- `struct vzctl_snapshot_tree`.
abbrev pub Tree : Type 0
Tree = List Snap

-- The loop of `vzctl2_find_snapshot_by_guid` from index `i` on.
find_from : ℕ → Tree → Str → Option ℕ
find_from i [] guid = none
find_from i (s ∷ t) guid = if str_eq s.guid guid then some i else find_from (i + 1) t guid

pub find_snapshot_by_guid : Tree → Str → Option ℕ
unfolding find_from
find_snapshot_by_guid tree guid = find_from 0 tree guid

current_from : ℕ → Tree → Option ℕ
current_from i [] = none
current_from i (s ∷ t) = if s.current then some i else current_from (i + 1) t

pub find_snapshot_current : Tree → Option ℕ
unfolding current_from
find_snapshot_current tree = current_from 0 tree

-- `vzctl_snapshot_tree_set_current`: each entry's flag is cleared, and set again on a match.
pub tree_set_current : Tree → Str → Tree
tree_set_current [] guid = []
tree_set_current (s ∷ t) guid = record s { current = str_eq s.guid guid } ∷ tree_set_current t guid

pub nth : Tree → ℕ → Option Snap
nth [] i = none
nth (s ∷ t) zero = some s
nth (s ∷ t) (suc i) = nth t i

-- `remove_data_from_array` and the `nsnapshots--` behind it: the entries after `id` move down.
remove_at : Tree → ℕ → Tree
remove_at [] id = []
remove_at (s ∷ t) zero = t
remove_at (s ∷ t) (suc id) = s ∷ remove_at t id

-- One round of the loop in `vzctl_del_snapshot_tree_entry`. Its writes leave what later rounds read
-- of `snap` as it was: its flag is set only if it is set, its parent copied only onto itself.
relink : Snap → Str → Snap → Snap
relink snap guid s = record s {
  current = if snap.current && str_eq s.guid snap.parent_guid then true else s.current;
  parent_guid = if str_eq s.parent_guid guid then snap.parent_guid else s.parent_guid;
}

pub relink_all : Snap → Str → Tree → Tree
relink_all snap guid [] = []
relink_all snap guid (s ∷ t) = relink snap guid s ∷ relink_all snap guid t

del_at : Tree → Str → ℕ → Option Snap → Tree
del_at tree guid id none = tree
del_at tree guid id (some snap) = remove_at (relink_all snap guid tree) id

del_found : Tree → Str → Option ℕ → Tree
del_found tree guid none = tree
del_found tree guid (some id) = del_at tree guid id (nth tree id)

-- `vzctl_del_snapshot_tree_entry`.
pub del_snapshot_tree_entry : Tree → Str → Tree
unfolding relink relink_all remove_at nth del_at del_found find_snapshot_by_guid
del_snapshot_tree_entry tree guid = del_found tree guid (find_snapshot_by_guid tree guid)

-- The loop that clears the flags before a new current entry is added.
pub clear_current : Tree → Tree
clear_current [] = []
clear_current (s ∷ t) = record s { current = false } ∷ clear_current t

abbrev str_or_empty : Option Str → Str
str_or_empty none = []
str_or_empty (some s) = s

-- What `vzctl_add_snapshot_tree_entry` does once the guid is known to be new. `mem` is false when
-- one of the allocations that it checks fails; the tree's contents are then as before.
insert_entry : Bool → Tree → Bool → Snap → ℕ × Tree
insert_entry false tree current s = (e_nomem, tree)
insert_entry true tree current s =
    (0, (if current then clear_current tree else tree) ++ record s { current = current } ∷ [])

pub add_snapshot_tree_entry :
    Bool → Tree → Bool → Str → Str → Option Str → Option Str → Option Str → ℕ × Tree
unfolding insert_entry find_snapshot_by_guid
add_snapshot_tree_entry mem tree current guid parent_guid name date desc =
    elim (find_snapshot_by_guid tree guid) [
      | some id ↦ (e_inval, tree)
      | none ↦ insert_entry mem tree current (record {
        current = false;
        guid = guid;
        parent_guid = parent_guid;
        name = str_or_empty name;
        date = str_or_empty date;
        desc = str_or_empty desc;
      })
    ]

-- `struct vzctl_snapshot_param`.
pub record SnapshotParam : Type 0 where
  pub param_guid : Option Str
  pub param_name : Option Str
  pub param_desc : Option Str
  pub skip_dump : Bool

guid_of : Option Snap → Str
guid_of none = []
guid_of (some s) = s.guid

-- The guid of the current entry, "" if there is none.
pub current_guid : Tree → Str
unfolding guid_of nth find_snapshot_current
current_guid tree = elim (find_snapshot_current tree) [ none ↦ [] | some i ↦ guid_of (nth tree i) ]

-- `vzctl_add_snapshot`; `date` is what `get_date` prints.
pub add_snapshot : Bool → Tree → Str → SnapshotParam → Str → ℕ × Tree
add_snapshot mem tree guid param date =
    add_snapshot_tree_entry mem tree true guid (current_guid tree) param.param_name (some date)
      param.param_desc
