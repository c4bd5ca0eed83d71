-- ===== src/Snapshot/Forest.antt =====
-- The invariant of the tree: every entry names an earlier one as its parent, or none, and the guids
-- differ; at most one entry is current. Adding an entry and moving the current flag keep it.
use libvzctl.Common.{
  ℕ, suc, ◌+◌, ◌≤◌, ◌≡◌, ◌≢◌, ◌⊎◌, inl, inr, refl, Bool, true, false, none, some, List, [], ◌∷◌,
  ◌++◌, arith, Str, str_eq_iff, contains, if◌then◌else◌, Bool-cases, Option-cases, Option-cases,
}
use libvzctl.Snapshot.{
  Snap, Tree, find_from, current_from, tree_set_current, clear_current, add_snapshot_tree_entry,
  add_snapshot, current_guid, nth, guid_of, SnapshotParam,
}

-- `seen` holds the guids of the entries before `t`.
abbrev pub IsOrdered : List Str → Tree → Type 0
IsOrdered seen [] = Unit
IsOrdered seen (s ∷ t) =
    ((s.parent_guid ≡ []) ⊎ (contains seen s.parent_guid ≡ true))
    × (contains seen s.guid ≡ false)
    × (s.guid ≢ [])
    × IsOrdered (s.guid ∷ seen) t

abbrev pub currents : Tree → ℕ
currents [] = 0
currents (s ∷ t) = (if s.current then 1 else 0) + currents t

pub record IsForest (t : Tree) : Type 0 where
  pub ordered : IsOrdered [] t
  pub one_current : currents t ≤ 1

abbrev guids_onto : List Str → Tree → List Str
guids_onto seen [] = seen
guids_onto seen (s ∷ t) = guids_onto (s.guid ∷ seen) t

IsOrdered-set :
    (t : Tree) (seen : List Str) (g : Str)
    → IsOrdered seen t
    → IsOrdered seen (tree_set_current t g)
unfolding tree_set_current
IsOrdered-set [] seen g h = tt
IsOrdered-set (s ∷ t) seen g (p, q, r, h) = (p, q, r, IsOrdered-set t (s.guid ∷ seen) g h)

IsOrdered-clear : (t : Tree) (seen : List Str) → IsOrdered seen t → IsOrdered seen (clear_current t)
unfolding clear_current
IsOrdered-clear [] seen h = tt
IsOrdered-clear (s ∷ t) seen (p, q, r, h) = (p, q, r, IsOrdered-clear t (s.guid ∷ seen) h)

currents-clear : (t : Tree) → currents (clear_current t) ≡ 0
unfolding clear_current
currents-clear [] = refl
currents-clear (s ∷ t) = omega (arith, currents-clear t)

currents-set_seen :
    (t : Tree) (seen : List Str) (g : Str)
    → contains seen g ≡ true
    → IsOrdered seen t
    → currents (tree_set_current t g) ≡ 0
unfolding tree_set_current contains
currents-set_seen [] seen g c h = refl
currents-set_seen (s ∷ t) seen g c (p, q, r, h) =
    ground (arith, str_eq_iff s.guid g, currents-set_seen t (s.guid ∷ seen) g)

currents-set_le :
    (t : Tree) (seen : List Str) (g : Str) → IsOrdered seen t → currents (tree_set_current t g) ≤ 1
unfolding tree_set_current contains
currents-set_le [] seen g h = omega arith
currents-set_le (s ∷ t) seen g (p, q, r, h) =
    ground (arith, currents-set_seen t (s.guid ∷ seen) g, currents-set_le t (s.guid ∷ seen) g)

-- Moving the current flag keeps the invariant, whatever guid is named.
pub set_current-IsForest : {t : Tree} (g : Str) → IsForest t → IsForest (tree_set_current t g)
set_current-IsForest {t} g h = record {
  ordered = IsOrdered-set t [] g h.ordered;
  one_current = currents-set_le t [] g h.ordered;
}

-- The guid of the first entry that is current.
abbrev pub first_current : Tree → Str
first_current [] = []
first_current (s ∷ t) = if s.current then s.guid else first_current t

FoundAt : Tree → ℕ → Type 0
FoundAt t i =
    ((current_from i t ≡ none) × (first_current t ≡ []))
    ⊎ ((k : ℕ) × (current_from i t ≡ some (i + k)) × (guid_of (nth t k) ≡ first_current t))

current_from_cases : (t : Tree) (i : ℕ) → FoundAt t i
unfolding FoundAt current_from nth guid_of
current_from_cases [] i = inl (refl, refl)
current_from_cases (s ∷ t) i = elim (Bool-cases s.current) [
  | inl y ↦ inr (0, ground arith, ground arith)
  | inr n ↦ elim (current_from_cases t (i + 1)) [
    | inl (e, f) ↦ inl (ground arith, ground arith)
    | inr (k, e, f) ↦ inr (suc k, ground arith, ground arith)
  ]
]

pub current_guid-first : (t : Tree) → current_guid t ≡ first_current t
unfolding current_guid FoundAt
current_guid-first t = elim (current_from_cases t 0) [
  | inl (e, f) ↦ ground arith
  | inr (k, e, f) ↦ ground arith
]

contains-guids_onto :
    (t : Tree) (seen : List Str) (g : Str)
    → contains seen g ≡ true
    → contains (guids_onto seen t) g ≡ true
unfolding contains
contains-guids_onto [] seen g h = h
contains-guids_onto (s ∷ t) seen g h = contains-guids_onto t (s.guid ∷ seen) g (ground arith)

first_current-contains :
    (t : Tree) (seen : List Str)
    → (first_current t ≡ []) ⊎ (contains (guids_onto seen t) (first_current t) ≡ true)
unfolding contains
first_current-contains [] seen = inl refl
first_current-contains (s ∷ t) seen = elim (Bool-cases s.current) [
  | inl y ↦ rw y (
      inr (contains-guids_onto t (s.guid ∷ seen) s.guid (ground (arith, str_eq_iff s.guid s.guid))))
  | inr n ↦ rw n (first_current-contains t (s.guid ∷ seen))
]

find_none-contains :
    (t : Tree) (i : ℕ) (seen : List Str) (g : Str)
    → find_from i t g ≡ none
    → contains seen g ≡ false
    → contains (guids_onto seen t) g ≡ false
unfolding find_from contains
find_none-contains [] i seen g e h = h
find_none-contains (s ∷ t) i seen g e h =
    ground (arith, find_none-contains t (i + 1) (s.guid ∷ seen) g)

IsOrdered-concat :
    (t : Tree) (seen : List Str) (s : Snap)
    → IsOrdered seen t
    → IsOrdered (guids_onto seen t) (s ∷ [])
    → IsOrdered seen (t ++ s ∷ [])
IsOrdered-concat [] seen s h k = k
IsOrdered-concat (x ∷ t) seen s (p, q, r, h) k = (p, q, r, IsOrdered-concat t (x.guid ∷ seen) s h k)

guids_onto-clear :
    (t : Tree) (seen : List Str) → guids_onto seen (clear_current t) ≡ guids_onto seen t
unfolding clear_current
guids_onto-clear [] seen = refl
guids_onto-clear (s ∷ t) seen = guids_onto-clear t (s.guid ∷ seen)

currents-append :
    (t : Tree) (s : Snap) → currents (t ++ s ∷ []) ≡ currents t + (if s.current then 1 else 0)
currents-append [] s = omega arith
currents-append (x ∷ t) s = omega (arith, currents-append t s)

module _ (t : Tree) (guid : Str) (s : Snap) (h : IsForest t) (fresh : find_from 0 t guid ≡ none)
    (ne : guid ≢ []) where
  concat-IsForest :
      s.guid ≡ guid
      → s.current ≡ true
      → (s.parent_guid ≡ first_current t)
      → IsForest (clear_current t ++ s ∷ [])
  concat-IsForest e c p = record {
    ordered = IsOrdered-concat (clear_current t) [] s (IsOrdered-clear t [] h.ordered) (
        rw guids_onto-clear (
          rw p (first_current-contains t []),
          rw e (find_none-contains t 0 [] guid fresh (unfold contains in refl)),
          rw e ne,
          tt,
        ));
    one_current = ground (arith, currents-append (clear_current t) s, currents-clear t);
  }

-- Adding a snapshot with a guid that is not empty keeps the invariant, on every return path.
pub add_snapshot-IsForest :
    {t : Tree} (mem : Bool) (guid : Str) (param : SnapshotParam) (date : Str)
    → IsForest t
    → guid ≢ []
    → IsForest (add_snapshot mem t guid param date).1
unfolding add_snapshot add_snapshot_tree_entry
add_snapshot-IsForest {t} mem guid param date h ne = elim (Option-cases (find_from 0 t guid)) [
  | inl e ↦ add_entry_fresh mem e
  | inr (i, e) ↦ rw (e, add_snapshot, add_snapshot_tree_entry) h
]
  where
    add_entry_fresh :
        (m : Bool) → find_from 0 t guid ≡ none → IsForest (add_snapshot m t guid param date).1
    add_entry_fresh true e =
        rw (e, add_snapshot, add_snapshot_tree_entry)
          (concat-IsForest t guid _ h e ne refl refl (current_guid-first t))
    add_entry_fresh false e = rw (e, add_snapshot, add_snapshot_tree_entry) h
