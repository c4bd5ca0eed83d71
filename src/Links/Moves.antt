-- ===== src/Links/Moves.antt =====
-- Taking elements out of a list, and moving a whole list.
use mathlib.Core.List.{append-nil}
use libvzctl.Common.{◌≡◌, ◌≢◌, sym, subst, true, false, some, List, [], ◌∷◌, ◌++◌, arith}
use libvzctl.Links.{
  Ptr, null, Memory, Action, ◌>>>◌, update, list_del, list_moveall, list_head_init, list_add,
}
use libvzctl.Links.Ring.{
  IsSeg, IsRing, AreDistinct, is_in, frame, IsSeg-append, IsSeg-split, last-is_in, join, retarget,
  is_in-append, not_null, distinct-snoc, list_add-refines,
}

distinct-split :
    (xs : List Ptr) (y : Ptr) (ys : List Ptr)
    → AreDistinct (xs ++ y ∷ ys)
    → AreDistinct (xs ++ ys)
      × (is_in y (xs ++ ys) ≡ false)
      × (y ≢ null)
      × AreDistinct xs
      × AreDistinct ys
distinct-split [] y ys d = (d.2, d.1, d.0, tt, d.2)
distinct-split (x ∷ xs) y ys d =
    let rest = distinct-split xs y ys d.2 in
    (
      (d.0, ground (arith, is_in-append x xs (y ∷ ys), is_in-append x xs ys), rest.0),
      ground (arith, is_in-append x xs (y ∷ ys), rest.1),
      rest.2,
      (d.0, ground (arith, is_in-append x xs (y ∷ ys)), rest.3),
      rest.4,
    )

apart :
    (xs ys : List Ptr) (a : Ptr) → AreDistinct (xs ++ ys) → is_in a xs ≡ true → is_in a ys ≡ false
apart [] ys a d i = ground arith
apart (x ∷ xs) ys a d i = ground (arith, is_in-append x xs ys, apart xs ys a d.2)

-- The ring without `el`.
unlink-IsSeg :
    (m : Memory) (head el : Ptr) (xs ys : List Ptr)
    → AreDistinct (head ∷ xs ++ el ∷ ys)
    → IsSeg m head xs el
    → IsSeg m el ys head
    → IsSeg (join (m.prev el) (m.next el) m) head (xs ++ ys) head
unlink-IsSeg m head el xs [] d s t =
    let parts = distinct-split (head ∷ xs) el [] d in
    subst (λ n. IsSeg (join (m.prev el) n m) head (xs ++ []) head) (sym t.0)
      (subst (λ l. IsSeg (join (m.prev el) head m) head l head) (sym (append-nil xs))
        (retarget m head el head xs s parts.3 parts.3.1))
unlink-IsSeg m head el xs (n ∷ ys) d s t =
    let parts = distinct-split (head ∷ xs) el (n ∷ ys) d in
    let rest = distinct-split (head ∷ xs) n ys parts.0 in
    let z = m.prev el in
    let z_in : is_in z (head ∷ xs) ≡ true = last-is_in m head el xs s in
    let z_out : is_in z (el ∷ n ∷ ys) ≡ false = apart (head ∷ xs) (el ∷ n ∷ ys) z d z_in in
    let g = join z n m in
    subst (λ y. IsSeg (join z y m) head (xs ++ n ∷ ys) head) (sym t.0)
      (IsSeg-append g head n head xs ys
        (retarget m head el n xs s parts.3 (ground (arith, is_in-append n xs ys, rest.1)))
        (frame m g n ys head (λ a j. ground arith)
          (λ a j. ground (arith, is_in-append n xs ys, rest.1, parts.4.1)) t.2))

first-is_in :
    (m : Memory) (p q : Ptr) (xs : List Ptr) → IsSeg m p xs q → is_in (m.next p) (q ∷ xs) ≡ true
first-is_in m p q [] s = ground arith
first-is_in m p q (x ∷ xs) s = ground arith

-- Taking an element out of a list leaves the list without it, in the same order, and clears the
-- fields of the element.
pub list_del-refines :
    (m : Memory) (head el : Ptr) (xs ys : List Ptr)
    → IsRing m head (xs ++ el ∷ ys)
    → (g : Memory) × (list_del el m ≡ some g)
      × IsRing g head (xs ++ ys)
      × (g.next el ≡ null)
      × (g.prev el ≡ null)
unfolding list_del
list_del-refines m head el xs ys r =
    let segs = IsSeg-split m head el head xs ys r.seg in
    let parts = distinct-split (head ∷ xs) el ys r.distinct in
    let z = m.prev el in
    let n = m.next el in
    let z_in : is_in z (head ∷ xs) ≡ true = last-is_in m head el xs segs.0 in
    let n_in : is_in n (head ∷ ys) ≡ true = first-is_in m el head ys segs.1 in
    let g : Memory = record {
      prev = update (update m.prev n z) el null;
      next = update (update m.next z n) el null;
    } in
    (
      g,
      ground (
        arith,
        parts.1,
        parts.2,
        parts.3.0,
        is_in-append el xs ys,
        not_null (head ∷ xs) z parts.3 z_in,
        not_null ys n parts.4,
        n_in,
        z_in,
      ),
      record {
        seg =
            frame (join z n m) g head (xs ++ ys) head (λ a j. ground (arith, parts.1))
              (λ a j. ground (arith, parts.1))
              (unlink-IsSeg m head el xs ys r.distinct segs.0 segs.1);
        distinct = parts.0;
      },
      ground arith,
      ground arith,
    )

list_head_init-frame :
    (m : Memory) (a head : Ptr) (xs : List Ptr)
    → a ≢ null
    → is_in a (head ∷ xs) ≡ false
    → IsRing m head xs
    → (g : Memory) × (list_head_init a m ≡ some g) × IsRing g head xs × IsRing g a []
unfolding list_head_init
list_head_init-frame m a head xs n i r =
    let g : Memory = record { prev = update m.prev a a; next = update m.next a a } in
    (
      g,
      ground arith,
      record {
        seg = frame m g head xs head (λ b j. ground arith) (λ b j. ground arith) r.seg;
        distinct = r.distinct;
      },
      record { seg = ground arith; distinct = ground arith },
    )

run-run :
    (f g : Action) (m : Memory) {m1 m2 : Memory}
    → f m ≡ some m1
    → g m1 ≡ some m2
    → (f >>> g) m ≡ some m2
run-run f g m e1 e2 = rw (e1, ◌>>>◌) e2

-- Moving a list gives its elements, in order, to the new head, and leaves the old head empty.
pub list_moveall-refines :
    (m : Memory) (src dst : Ptr) (xs : List Ptr)
    → IsRing m src xs
    → is_in dst (src ∷ xs) ≡ false
    → dst ≢ null
    → (g : Memory) × (list_moveall src dst m ≡ some g) × IsRing g dst xs × IsRing g src []
unfolding list_moveall
list_moveall-refines m src dst xs r i n =
    let (m1, e1, r1) = list_add-refines m dst src xs r i n in
    let turned : IsRing m1 dst (xs ++ src ∷ []) = record {
      seg = IsSeg-append m1 dst src dst xs [] r1.seg.2 (r1.seg.0, r1.seg.1);
      distinct =
          distinct-snoc (dst ∷ xs) src r1.distinct.2 (ground (arith, r1.distinct.1)) r1.distinct.0;
    } in
    let (m2, e2, r2, _, _) = list_del-refines m1 dst src xs [] turned in
    let kept = subst (IsRing m2 dst) (append-nil xs) r2 in
    let (m3, e3, r3, r4) =
      list_head_init-frame m2 src dst xs r1.distinct.0 (ground (arith, r1.distinct.1)) kept in
    (
      m3,
      run-run (list_add dst src >>> list_del src) (list_head_init src) m
          (run-run (list_add dst src) (list_del src) m e1 e2) e3,
      r3,
      r4,
    )
