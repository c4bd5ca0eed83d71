-- ===== src/Snapshot/Lookup.antt =====
-- Lookups in the tree.
use libvzctl.Common.{ℕ, ◌+◌, ◌≡◌, refl, [], ◌∷◌, arith, Str}
use libvzctl.Snapshot.{
  Tree, find_from, current_from, find_snapshot_by_guid, find_snapshot_current, tree_set_current,
}

current_from-set :
    (i : ℕ) (t : Tree) (g : Str) → current_from i (tree_set_current t g) ≡ find_from i t g
unfolding current_from find_from tree_set_current
current_from-set i [] g = refl
current_from-set i (s ∷ t) g = ground (arith, current_from-set (i + 1) t g)

-- After `vzctl_snapshot_tree_set_current` the current entry is the one that
-- `vzctl2_find_snapshot_by_guid` finds, and there is none if that finds none.
pub current-set_current :
    (t : Tree) (g : Str) → find_snapshot_current (tree_set_current t g) ≡ find_snapshot_by_guid t g
unfolding find_snapshot_current find_snapshot_by_guid
current-set_current t g = current_from-set 0 t g
