-- ===== src/Snapshot/Switch/Paths.antt =====
-- What `vzctl_env_switch_snapshot` leaves behind on each of its paths.
use libvzctl.Common.{
  Option-cases, ℕ, ◌≡◌, ◌≢◌, ◌⊎◌, inl, inr, refl, Bool, true, false, Option, none, some, List, [],
  ◌∷◌, arith, Str,
}
use libvzctl.Snapshot.{Tree, find_snapshot_by_guid, tree_set_current}
use libvzctl.Snapshot.Flow.{
  running, Outcome, frozen_from, locked_from, tmp_from, xml_from, DisksFrozen,
}
use libvzctl.Snapshot.Switch.{SwitchCalls, switch_snapshot, roll_back, at_err2}

-- Rolling the disks back is none of the calls that the views look at.
module _ (rest : Outcome) where
  roll_back-ret : (disks : List Str) → (roll_back disks rest).ret ≡ rest.ret
  unfolding roll_back
  roll_back-ret [] = refl
  roll_back-ret (d ∷ ds) = roll_back-ret ds

  roll_back-frozen :
      (b : Bool) (disks : List Str)
      → frozen_from b (roll_back disks rest).trace ≡ frozen_from b rest.trace
  unfolding roll_back
  roll_back-frozen b [] = refl
  roll_back-frozen b (d ∷ ds) = roll_back-frozen b ds

  roll_back-locked :
      (b : Bool) (disks : List Str)
      → locked_from b (roll_back disks rest).trace ≡ locked_from b rest.trace
  unfolding roll_back
  roll_back-locked b [] = refl
  roll_back-locked b (d ∷ ds) = roll_back-locked b ds

  roll_back-tmp :
      (p : Option Tree) (disks : List Str)
      → tmp_from p (roll_back disks rest).trace ≡ tmp_from p rest.trace
  unfolding roll_back
  roll_back-tmp p [] = refl
  roll_back-tmp p (d ∷ ds) = roll_back-tmp p ds

  roll_back-xml :
      (p x : Option Tree) (disks : List Str)
      → xml_from p x (roll_back disks rest).trace ≡ xml_from p x rest.trace
  unfolding roll_back
  roll_back-xml p x [] = refl
  roll_back-xml p x (d ∷ ds) = roll_back-xml p x ds

at_err2-DisksFrozen :
    (o : SwitchCalls) (disks : List Str) (b : Bool)
    → DisksFrozen b (roll_back disks (at_err2 o)).trace
unfolding roll_back at_err2
at_err2-DisksFrozen o [] b = ground arith
at_err2-DisksFrozen o (d ∷ ds) b = at_err2-DisksFrozen o ds b

-- The enter lock is free whenever the function returns.
pub switch_snapshot_unlocks :
    (o : SwitchCalls) (disks : List Str) (skip_resume : Bool) (guid : Option Str)
    → locked_from false (switch_snapshot o disks skip_resume guid).trace ≡ false
unfolding switch_snapshot
switch_snapshot_unlocks o disks skip_resume guid =
    ground (arith, roll_back-locked (at_err2 o) true disks)

-- When it returns 0, and its rename of Snapshots.xml succeeds, that file holds the tree that was
-- read with the current flag moved to the guid, which the tree has, and the container is not frozen.
pub switch_snapshot_success :
    (o : SwitchCalls) (disks : List Str) (skip_resume : Bool) (guid : Option Str)
    (old : Option Tree)
    → (switch_snapshot o disks skip_resume guid).ret ≡ 0
    → o.renamed ≡ true
    → (tree : Tree) × (g : Str) × (id : ℕ) × (guid ≡ some g)
      × (o.read ≡ some tree)
      × (find_snapshot_by_guid tree g ≡ some id)
      × (xml_from none old (switch_snapshot o disks skip_resume guid).trace
          ≡ some (tree_set_current tree g))
      × (frozen_from false (switch_snapshot o disks skip_resume guid).trace ≡ false)
unfolding switch_snapshot
switch_snapshot_success o disks skip_resume guid old h r =
    ground (arith, roll_back-ret (at_err2 o) disks)

-- When it returns an error, Snapshots.xml is as before, but for one case: the switch was made, and
-- restoring the container from the snapshot's dump failed.
pub switch_snapshot_failure :
    (o : SwitchCalls) (disks : List Str) (skip_resume : Bool) (guid : Option Str)
    (old : Option Tree)
    → (switch_snapshot o disks skip_resume guid).ret ≢ 0
    → (xml_from none old (switch_snapshot o disks skip_resume guid).trace ≡ old)
      ⊎ ((o.switched ≡ 0) × (o.restored ≡ false))
unfolding switch_snapshot
switch_snapshot_failure o disks skip_resume none old h = ground arith
switch_snapshot_failure o disks skip_resume (some g) old h = elim (Option-cases o.read) [
  | inl e ↦ ground arith
  | inr (tree, e) ↦
      ground (arith, roll_back-xml (at_err2 o) (some (tree_set_current tree g)) old disks)
]

-- When it returns an error, the temporary file is gone unless its rename failed, and the container
-- is not frozen unless resuming it failed.
pub switch_snapshot_unwinds :
    (o : SwitchCalls) (disks : List Str) (skip_resume : Bool) (guid : Option Str)
    → (switch_snapshot o disks skip_resume guid).ret ≢ 0
    → o.renamed ≡ true
    → o.resumed ≡ true
    → (tmp_from none (switch_snapshot o disks skip_resume guid).trace ≡ none)
      × (frozen_from false (switch_snapshot o disks skip_resume guid).trace ≡ false)
unfolding switch_snapshot
switch_snapshot_unwinds o disks skip_resume none h r s = ground arith
switch_snapshot_unwinds o disks skip_resume (some g) h r s = elim (Option-cases o.read) [
  | inl e ↦ ground arith
  | inr (tree, e) ↦
      let p = some (tree_set_current tree g) in
      (
        ground (arith, roll_back-tmp (at_err2 o) p disks),
        ground (
          arith,
          roll_back-frozen (at_err2 o) true disks,
          roll_back-frozen (at_err2 o) false disks,
        ),
      )
]

-- The disks of a running container are switched only while it is frozen.
pub switch_snapshot-DisksFrozen :
    (o : SwitchCalls) (disks : List Str) (skip_resume : Bool) (guid : Option Str)
    → o.run ≡ running
    → DisksFrozen false (switch_snapshot o disks skip_resume guid).trace
unfolding switch_snapshot
switch_snapshot-DisksFrozen o disks skip_resume guid h =
    ground (arith, at_err2-DisksFrozen o disks true, at_err2-DisksFrozen o disks false)
