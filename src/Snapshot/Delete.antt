-- ===== src/Snapshot/Delete.antt =====
-- Deleting an entry: its children pass to its parent, and the invariant of the tree stays.
use mathlib.Core.Option
use libvzctl.Common.{
  ℕ, suc, zero, ◌+◌, ◌≡◌, ◌⊎◌, inl, inr, refl, true, false, Option, none, some, List, [], ◌∷◌,
  arith, Str, str_eq, str_eq_iff, contains, if◌then◌else◌, Bool-cases, Option-cases,
}
use libvzctl.Snapshot.{
  Snap, Tree, find_from, find_snapshot_by_guid, nth, remove_at, relink, relink_all, del_found,
  del_snapshot_tree_entry,
}
use libvzctl.Snapshot.Forest.{IsOrdered, IsForest}

-- The tree without the first entry of a guid.
unfoldable pub without : Str → Tree → Tree
without g [] = []
without g (s ∷ t) = if str_eq s.guid g then t else s ∷ without g t

-- The first entry of a guid.
abbrev pub entry_of : Tree → Str → Option Snap
entry_of [] g = none
entry_of (s ∷ t) g = if str_eq s.guid g then some s else entry_of t g

FindView : Tree → Str → ℕ → Type 0
FindView t g i =
    ((find_from i t g ≡ none) × (entry_of t g ≡ none))
    ⊎ ((k : ℕ) × (s : Snap) × (find_from i t g ≡ some (i + k))
        × (nth t k ≡ some s)
        × (entry_of t g ≡ some s)
        × (s.guid ≡ g)
        × (remove_at t k ≡ without g t))

find_view : (t : Tree) (g : Str) (i : ℕ) → FindView t g i
unfolding FindView find_from nth remove_at without
find_view [] g i = inl (refl, refl)
find_view (s ∷ t) g i = elim (Bool-cases (str_eq s.guid g)) [
  | inl y ↦ inr (0, s, ground arith, refl, ground arith, (str_eq_iff s.guid g).0 y, ground arith)
  | inr n ↦ elim (find_view t g (i + 1)) [
    | inl (e, f) ↦ inl (ground arith, ground arith)
    | inr (k, r, e, f, h, m, w) ↦ inr (suc k, r, ground arith, f, ground arith, m, ground arith)
  ]
]

without-relink_all :
    (t : Tree) (r : Snap) (g : Str) → without g (relink_all r g t) ≡ relink_all r g (without g t)
unfolding without relink_all relink
without-relink_all [] r g = refl
without-relink_all (s ∷ t) r g = ground (arith, without-relink_all t r g)

remove_at-relink_all :
    (t : Tree) (r : Snap) (g : Str) (k : ℕ)
    → remove_at (relink_all r g t) k ≡ relink_all r g (remove_at t k)
unfolding remove_at relink_all
remove_at-relink_all [] r g k = refl
remove_at-relink_all (s ∷ t) r g zero = refl
remove_at-relink_all (s ∷ t) r g (suc k) = ground (arith, remove_at-relink_all t r g k)

-- The deletion in one equation, for a guid that the tree has.
pub del_view :
    (t : Tree) (g : Str)
    → ((entry_of t g ≡ none) × (del_snapshot_tree_entry t g ≡ t))
      ⊎ ((s : Snap) × (entry_of t g ≡ some s)
          × (s.guid ≡ g)
          × (del_snapshot_tree_entry t g ≡ relink_all s g (without g t)))
unfolding del_snapshot_tree_entry FindView
del_view t g = elim (find_view t g 0) [
  | inl (e, f) ↦ inl (f, ground arith)
  | inr (k, s, e, f, h, m, w) ↦ inr (s, h, m, del_at_view k s e f w)
]
  where
    del_at_view :
        (k : ℕ) (s : Snap)
        → find_from 0 t g ≡ some (0 + k)
        → nth t k ≡ some s
        → remove_at t k ≡ without g t
        → del_found t g (find_snapshot_by_guid t g) ≡ relink_all s g (without g t)
    del_at_view k s e f w =
        let e' : find_from 0 t g ≡ some k = ground arith in
        rw (e', del_found) (rw f (rw remove_at-relink_all (rw w)))

-- The parent that the entry of a guid names.
abbrev pub parent_of : Tree → Str → Option Str
parent_of t x = Option.map (λ s. s.parent_guid) (entry_of t x)

entry_of-relink_all :
    (t : Tree) (r : Snap) (g x : Str)
    → entry_of (relink_all r g t) x ≡ Option.map (relink r g) (entry_of t x)
unfolding relink_all relink
entry_of-relink_all [] r g x = refl
entry_of-relink_all (s ∷ t) r g x = ground (arith, entry_of-relink_all t r g x)

entry_of_seen :
    (t : Tree) (seen : List Str) (g : Str)
    → IsOrdered seen t
    → contains seen g ≡ true
    → entry_of t g ≡ none
unfolding contains
entry_of_seen [] seen g h c = refl
entry_of_seen (s ∷ t) seen g (p, q, r, h) c =
    ground (arith, str_eq_iff s.guid g, entry_of_seen t (s.guid ∷ seen) g h)

entry_of-without_self :
    (t : Tree) (seen : List Str) (g : Str) → IsOrdered seen t → entry_of (without g t) g ≡ none
unfolding without contains
entry_of-without_self [] seen g h = refl
entry_of-without_self (s ∷ t) seen g (p, q, r, h) =
    ground (arith, entry_of_seen t (s.guid ∷ seen) g h, entry_of-without_self t (s.guid ∷ seen) g h)

entry_of-without_ne :
    (t : Tree) (g x : Str) → str_eq g x ≡ false → entry_of (without g t) x ≡ entry_of t x
unfolding without
entry_of-without_ne [] g x h = refl
entry_of-without_ne (s ∷ t) g x h = ground (arith, str_eq_iff s.guid g, entry_of-without_ne t g x h)

-- After `vzctl_del_snapshot_tree_entry` of an entry whose parent is `p`, in a tree that meets the
-- invariant: the entry is gone, its children name `p`, and every other entry names the parent it
-- named before.
pub parent_of-del :
    {t : Tree} (g x : Str) (p : Str)
    → IsForest t
    → parent_of t g ≡ some p
    → parent_of (del_snapshot_tree_entry t g) x
      ≡ (if str_eq g x then none else Option.map (λ q. if str_eq q g then p else q) (parent_of t x))
unfolding relink
parent_of-del {t} g x p h e = elim (del_view t g) [
  | inl (n, _) ↦ cc (n)
  | inr (s, f, m, d) ↦ elim (Bool-cases (str_eq g x)) [
    | inl y ↦
        let y' = (str_eq_iff g x).0 y in
        rw d
          (rw y (rw entry_of-relink_all (rw (← y') (rw (entry_of-without_self t [] g h.ordered)))))
    | inr n ↦ rw d (
        rw n (rw entry_of-relink_all (rw (entry_of-without_ne t g x n) (parent_of_relinked s e f))))
  ]
]
  where
    parent_of_relinked :
        (s : Snap)
        → parent_of t g ≡ some p
        → entry_of t g ≡ some s
        → Option.map (λ a. a.parent_guid) (Option.map (relink s g) (entry_of t x))
          ≡ Option.map (λ q. if str_eq q g then p else q) (parent_of t x)
    parent_of_relinked s e f = elim (Option-cases (entry_of t x)) [
      | inl n ↦ rw n
      | inr (a, y) ↦ rw y (ground arith)
    ]
