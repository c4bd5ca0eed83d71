-- ===== src/Links/Walk.antt =====
-- Visiting the elements of a list.
use libvzctl.Common.{ℕ, zero, suc, ◌≡◌, ◌<◌, false, some, List, [], ◌∷◌, arith, ◌==◌, length}
use libvzctl.Links.{Ptr, Memory, list_empty, list_for_each, walk_from}
use libvzctl.Links.Ring.{IsSeg, IsRing, AreDistinct, is_in}

walk-seg :
    (m : Memory) (head p : Ptr) (xs : List Ptr) (k : ℕ)
    → IsSeg m p xs head
    → AreDistinct xs
    → is_in head xs ≡ false
    → length xs < k
    → walk_from k head m (m.next p) ≡ some xs
unfolding walk_from
walk-seg m head p xs zero s d i l = absurd (omega arith)
walk-seg m head p [] (suc k) s d i l = ground arith
walk-seg m head p (x ∷ xs) (suc k) s d i l =
    ground (arith, walk-seg m head x xs k s.2 d.2 (ground arith) (omega arith))

-- With more rounds than elements, the loop visits the elements of the list once each, in order.
pub list_for_each-visits :
    (m : Memory) (head : Ptr) (xs : List Ptr) (k : ℕ)
    → IsRing m head xs
    → length xs < k
    → list_for_each k head m ≡ some xs
unfolding list_for_each
list_for_each-visits m head xs k r l =
    ground (arith, walk-seg m head head xs k r.seg r.distinct.2 r.distinct.1 l)

-- A list is empty if it has no elements.
pub list_empty_iff :
    (m : Memory) (head : Ptr) (xs : List Ptr)
    → IsRing m head xs
    → list_empty head m ≡ (length xs == 0)
unfolding list_empty
list_empty_iff m head [] r = ground arith
list_empty_iff m head (x ∷ xs) r = ground arith
