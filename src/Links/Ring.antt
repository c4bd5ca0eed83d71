-- ===== src/Links/Ring.antt =====
-- The list that a head stands for, and adding an element to it.
use libvzctl.Common.{
  ◌≡◌, ◌≢◌, sym, subst, refl, Bool, true, false, some, List, [], ◌∷◌, ◌++◌, arith, ◌==◌, ◌||◌,
}
use libvzctl.Links.{Ptr, null, Memory, update, list_add, list_add_tail}

-- From `p`, `next` leads through the elements `xs` to `q`, and `prev` leads back.
abbrev pub IsSeg : Memory → Ptr → List Ptr → Ptr → Type 0
IsSeg m p [] q = (m.next p ≡ q) × (m.prev q ≡ p)
IsSeg m p (x ∷ xs) q = (m.next p ≡ x) × (m.prev x ≡ p) × IsSeg m x xs q

abbrev pub is_in : Ptr → List Ptr → Bool
is_in a [] = false
is_in a (x ∷ xs) = a == x || is_in a xs

-- The elements are distinct, and not NULL.
abbrev pub AreDistinct : List Ptr → Type 0
AreDistinct [] = Unit
AreDistinct (x ∷ xs) = (x ≢ null) × (is_in x xs ≡ false) × AreDistinct xs

-- The head stands for the list `xs`.
pub record IsRing (m : Memory) (head : Ptr) (xs : List Ptr) : Type 0 where
  pub seg : IsSeg m head xs head
  pub distinct : AreDistinct (head ∷ xs)

-- A segment stays under any change of other fields.
pub frame :
    (m g : Memory) (p : Ptr) (xs : List Ptr) (q : Ptr)
    → ((a : Ptr) → is_in a (p ∷ xs) ≡ true → g.next a ≡ m.next a)
    → ((a : Ptr) → is_in a (q ∷ xs) ≡ true → g.prev a ≡ m.prev a)
    → IsSeg m p xs q
    → IsSeg g p xs q
frame m g p [] q n v s = ground (arith, n p, v q)
frame m g p (x ∷ xs) q n v s = (
  ground (arith, n p),
  ground (arith, v x),
  frame m g x xs q (λ a i. n a (ground arith)) (λ a i. v a (ground arith)) s.2,
)

-- The memory with `new_el` between `a` and `b`.
abbrev pub insert_between : Ptr → Ptr → Ptr → Memory → Memory
insert_between new_el a b m = record {
  prev = update (update m.prev new_el a) b new_el;
  next = update (update m.next new_el b) a new_el;
}

pub insert-IsRing :
    (m : Memory) (new_el head : Ptr) (xs : List Ptr)
    → IsRing m head xs
    → is_in new_el (head ∷ xs) ≡ false
    → new_el ≢ null
    → IsRing (insert_between new_el head (m.next head) m) head (new_el ∷ xs)
insert-IsRing m new_el head [] r i n = record { seg = ground arith; distinct = ground arith }
insert-IsRing m new_el head (x ∷ xs) r i n =
    let g = insert_between new_el head x m in
    let e : m.next head ≡ x = r.seg.0 in
    record {
      seg =
          subst (λ y. IsSeg (insert_between new_el head y m) head (new_el ∷ x ∷ xs) head) (sym e)
            (
              ground arith,
              ground arith,
              (
                ground arith,
                ground arith,
                frame m g x xs head (λ a j. ground arith) (λ a j. ground arith) r.seg.2,
              ),
            );
      distinct = ground arith;
    }

-- Adding a new element to the list puts it in front, without a fault.
pub list_add-refines :
    (m : Memory) (new_el head : Ptr) (xs : List Ptr)
    → IsRing m head xs
    → is_in new_el (head ∷ xs) ≡ false
    → new_el ≢ null
    → (g : Memory) × (list_add new_el head m ≡ some g) × IsRing g head (new_el ∷ xs)
unfolding list_add
list_add-refines m new_el head [] r i n =
    (insert_between new_el head (m.next head) m, ground arith, insert-IsRing m new_el head [] r i n)
list_add-refines m new_el head (x ∷ xs) r i n = (
  insert_between new_el head (m.next head) m,
  ground arith,
  insert-IsRing m new_el head (x ∷ xs) r i n,
)

pub IsSeg-append :
    (m : Memory) (p y q : Ptr) (xs ys : List Ptr)
    → IsSeg m p xs y
    → IsSeg m y ys q
    → IsSeg m p (xs ++ y ∷ ys) q
IsSeg-append m p y q [] ys s t = (s.0, s.1, t)
IsSeg-append m p y q (x ∷ xs) ys s t = (s.0, s.1, IsSeg-append m x y q xs ys s.2 t)

pub IsSeg-split :
    (m : Memory) (p y q : Ptr) (xs ys : List Ptr)
    → IsSeg m p (xs ++ y ∷ ys) q
    → IsSeg m p xs y × IsSeg m y ys q
IsSeg-split m p y q [] ys s = ((s.0, s.1), s.2)
IsSeg-split m p y q (x ∷ xs) ys s =
    let rest = IsSeg-split m x y q xs ys s.2 in ((s.0, s.1, rest.0), rest.1)

pub last-is_in :
    (m : Memory) (p q : Ptr) (xs : List Ptr) → IsSeg m p xs q → is_in (m.prev q) (p ∷ xs) ≡ true
last-is_in m p q [] s = ground arith
last-is_in m p q (x ∷ xs) s = ground (arith, last-is_in m x q xs s.2)

pub not_null : (xs : List Ptr) (a : Ptr) → AreDistinct xs → is_in a xs ≡ true → a ≢ null
not_null [] a d i = ground arith
not_null (x ∷ xs) a d i = ground (arith, not_null xs a d.2)

-- The memory in which `b` comes behind `a`.
abbrev pub join : Ptr → Ptr → Memory → Memory
join a b m = record { prev = update m.prev b a; next = update m.next a b }

-- The end of a segment is moved to `w`.
pub retarget :
    (m : Memory) (p q w : Ptr) (xs : List Ptr)
    → IsSeg m p xs q
    → AreDistinct (p ∷ xs)
    → is_in w xs ≡ false
    → IsSeg (join (m.prev q) w m) p xs w
retarget m p q w [] s d i = ground arith
retarget m p q w (x ∷ xs) s d i = (
  ground (arith, last-is_in m x q xs s.2),
  ground arith,
  retarget m x q w xs s.2 d.2 (ground arith),
)

pub is_in-append : (a : Ptr) (xs ys : List Ptr) → is_in a (xs ++ ys) ≡ (is_in a xs || is_in a ys)
is_in-append a [] ys = refl
is_in-append a (x ∷ xs) ys = ground (arith, is_in-append a xs ys)

pub distinct-snoc :
    (xs : List Ptr) (y : Ptr)
    → AreDistinct xs
    → is_in y xs ≡ false
    → y ≢ null
    → AreDistinct (xs ++ y ∷ [])
distinct-snoc [] y d i n = ground arith
distinct-snoc (x ∷ xs) y d i n =
    (d.0, ground (arith, is_in-append x xs (y ∷ [])), distinct-snoc xs y d.2 (ground arith) n)

-- Adding a new element at the tail puts it behind the others, without a fault.
pub list_add_tail-refines :
    (m : Memory) (new_el head : Ptr) (xs : List Ptr)
    → IsRing m head xs
    → is_in new_el (head ∷ xs) ≡ false
    → new_el ≢ null
    → (g : Memory) × (list_add_tail new_el head m ≡ some g) × IsRing g head (xs ++ new_el ∷ [])
unfolding list_add_tail
list_add_tail-refines m new_el head xs r i n =
    let z = m.prev head in
    let g : Memory = record {
      prev = update (update m.prev new_el z) head new_el;
      next = update (update m.next new_el head) z new_el;
    } in
    let z_in : is_in z (head ∷ xs) ≡ true = last-is_in m head head xs r.seg in
    (
      g,
      ground (arith, not_null (head ∷ xs) z r.distinct z_in),
      record {
        seg =
            IsSeg-append g head new_el head xs []
              (frame (join z new_el m) g head xs new_el (λ a j. ground arith) (λ a j. ground arith)
                (retarget m head head new_el xs r.seg r.distinct (ground arith)))
              (ground arith);
        distinct = distinct-snoc (head ∷ xs) new_el r.distinct i n;
      },
    )
