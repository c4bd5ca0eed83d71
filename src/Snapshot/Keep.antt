-- ===== src/Snapshot/Keep.antt =====
-- Deleting an entry keeps the invariant of the tree.
use libvzctl.Common.{
  ◌+◌, ◌≤◌, ◌≡◌, ◌≢◌, ◌⊎◌, inl, inr, refl, true, false, not, ◌&&◌, none, some, List, [], ◌∷◌, arith,
  Str, str_eq, str_eq_iff, contains, if◌then◌else◌, Bool-cases,
}
use libvzctl.Snapshot.{Snap, Tree, relink, relink_all, del_snapshot_tree_entry}
use libvzctl.Snapshot.Forest.{IsOrdered, IsForest, currents}
use libvzctl.Snapshot.Delete.{without, entry_of, del_view}

entry_of_nil : (t : Tree) (seen : List Str) → IsOrdered seen t → entry_of t [] ≡ none
entry_of_nil [] seen h = refl
entry_of_nil (s ∷ t) seen (p, q, r, h) =
    ground (arith, str_eq_iff s.guid [], entry_of_nil t (s.guid ∷ seen) h)

-- Behind the deleted entry its guid `g` is among those seen, and is taken out of them.
IsOrdered-after :
    (t : Tree) (seen seen' : List Str) (r : Snap) (g : Str)
    → IsOrdered seen t
    → contains seen g ≡ true
    → (r.parent_guid ≡ []) ⊎ (contains seen' r.parent_guid ≡ true)
    → ((x : Str) → contains seen' x ≡ (contains seen x && not (str_eq g x)))
    → IsOrdered seen' (relink_all r g t)
unfolding relink_all relink
IsOrdered-after [] seen seen' r g h c p same = tt
IsOrdered-after (s ∷ t) seen seen' r g (a, b, e, h) c p same = (
  ground (arith, same s.parent_guid, str_eq_iff s.parent_guid g, str_eq_iff g s.parent_guid),
  ground (arith, same s.guid),
  e,
  IsOrdered-after t (s.guid ∷ seen) (s.guid ∷ seen') r g h (unfold contains in ground arith)
      (unfold contains in ground arith)
      (λ x. unfold contains in ground (arith, same x, str_eq_iff g x, str_eq_iff s.guid x)),
)

IsOrdered-before :
    (t : Tree) (seen : List Str) (r : Snap) (g : Str)
    → IsOrdered seen t
    → contains seen g ≡ false
    → g ≢ []
    → entry_of t g ≡ some r
    → IsOrdered seen (relink_all r g (without g t))
unfolding relink_all without relink
IsOrdered-before [] seen r g h c ne e = tt
IsOrdered-before (s ∷ t) seen r g (a, b, d, h) c ne e = elim (Bool-cases (str_eq s.guid g)) [
  | inl y ↦
      rw (y, without)
        (IsOrdered-after t (s.guid ∷ seen) seen r g h (unfold contains in ground arith)
          (ground arith)
          (λ x. unfold contains in ground (arith, str_eq_iff s.guid g, str_eq_iff g x)))
  | inr n ↦
      rw (n, without)
        (
          unfold relink_all relink in ground (arith, str_eq_iff s.parent_guid g),
          b,
          d,
          IsOrdered-before t (s.guid ∷ seen) r g h (unfold contains in ground arith) ne
              (ground arith),
        )
]

currents-relink_other :
    (t : Tree) (r : Snap) (g : Str) → r.current ≡ false → currents (relink_all r g t) ≡ currents t
unfolding relink_all relink
currents-relink_other [] r g h = refl
currents-relink_other (s ∷ t) r g h = ground (arith, currents-relink_other t r g h)

currents-without :
    (t : Tree) (r : Snap) (g : Str)
    → entry_of t g ≡ some r
    → currents t ≡ currents (without g t) + (if r.current then 1 else 0)
unfolding without
currents-without [] r g e = cc
currents-without (s ∷ t) r g e = ground (arith, currents-without t r g)

currents-relink_seen :
    (t : Tree) (seen : List Str) (r : Snap) (g : Str)
    → IsOrdered seen (relink_all r g t)
    → contains seen r.parent_guid ≡ true
    → currents (relink_all r g t) ≡ currents t
unfolding relink_all relink contains
currents-relink_seen [] seen r g h c = refl
currents-relink_seen (s ∷ t) seen r g (a, b, d, h) c =
    ground (arith, str_eq_iff s.guid r.parent_guid, currents-relink_seen t (s.guid ∷ seen) r g h)

currents-relink_le :
    (t : Tree) (seen : List Str) (r : Snap) (g : Str)
    → IsOrdered seen (relink_all r g t)
    → currents t ≡ 0
    → currents (relink_all r g t) ≤ 1
unfolding relink_all relink contains
currents-relink_le [] seen r g h c = omega arith
currents-relink_le (s ∷ t) seen r g (a, b, d, h) c = ground (
  arith,
  str_eq_iff s.guid r.parent_guid,
  currents-relink_seen t (s.guid ∷ seen) r g h,
  currents-relink_le t (s.guid ∷ seen) r g h,
)

-- `vzctl_del_snapshot_tree_entry` keeps the invariant, whatever guid it is given.
pub del-IsForest : {t : Tree} (g : Str) → IsForest t → IsForest (del_snapshot_tree_entry t g)
del-IsForest {t} g f = elim (del_view t g) [
  | inl (n, d) ↦ rw d f
  | inr (s, e, m, d) ↦ rw d (
      let o =
        IsOrdered-before t [] s g f.ordered (unfold contains in refl)
          (λ z. cc (rw z at e, entry_of_nil t [] f.ordered)) e in
      record {
        ordered = o;
        one_current = ground (
          arith,
          currents-without t s g e,
          currents-relink_other (without g t) s g,
          currents-relink_le (without g t) [] s g o,
          f.one_current,
        );
      })
]
