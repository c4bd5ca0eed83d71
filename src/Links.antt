-- ===== src/Links.antt =====
-- The intrusive doubly linked lists of lib/list.h. Memory holds the two fields of every element; a
-- list head is an element. An access through NULL is a fault.
pub mod Moves
pub mod Ring
pub mod Walk
mod Tests
use libvzctl.Common.{
  ℕ, zero, suc, Bool, Option, none, some, List, [], ◌∷◌, ◌==◌, ◌||◌, if◌then◌else◌,
}

abbrev pub Ptr : Type 0
Ptr = ℕ

abbrev pub null : Ptr
null = 0

pub record Memory : Type 0 where
  pub prev : Ptr → Ptr
  pub next : Ptr → Ptr

abbrev pub update : (Ptr → Ptr) → Ptr → Ptr → Ptr → Ptr
update f p v q = if q == p then v else f q

-- A statement: the memory behind it, or a fault.
abbrev pub Action : Type 0
Action = Memory → Option Memory

infixl 5 ◌>>>◌
abbrev pub ◌>>>◌ : Action → Action → Action
◌>>>◌ f g m = elim (f m) [ none ↦ none | some m' ↦ g m' ]

-- `p->next = v(m)` and `p->prev = v(m)`, for a value that is read in the memory.
abbrev pub set_next : Ptr → (Memory → Option Ptr) → Action
set_next p v m = elim (v m) [
  | none ↦ none
  | some a ↦ if p == null then none else some (record m { next = update m.next p a })
]

abbrev pub set_prev : Ptr → (Memory → Option Ptr) → Action
set_prev p v m = elim (v m) [
  | none ↦ none
  | some a ↦ if p == null then none else some (record m { prev = update m.prev p a })
]

abbrev pub value : Ptr → Memory → Option Ptr
value a m = some a

abbrev pub next_of : Ptr → Memory → Option Ptr
next_of p m = if p == null then none else some (m.next p)

abbrev pub prev_of : Ptr → Memory → Option Ptr
prev_of p m = if p == null then none else some (m.prev p)

-- A statement on an element that is read first.
abbrev pub at : (Memory → Option Ptr) → (Ptr → Action) → Action
at v f m = elim (v m) [ none ↦ none | some p ↦ f p m ]

pub list_head_init : Ptr → Action
list_head_init head = set_next head (value head) >>> set_prev head (value head)

pub list_add : (new_el list : Ptr) → Action
list_add new_el list =
    set_next new_el (next_of list)
    >>> set_prev new_el (value list)
    >>> at (next_of list) (λ n. set_prev n (value new_el))
    >>> set_next list (value new_el)

pub list_add_tail : (new_el list : Ptr) → Action
list_add_tail new_el list =
    set_next new_el (value list)
    >>> set_prev new_el (prev_of list)
    >>> at (prev_of list) (λ p. set_next p (value new_el))
    >>> set_prev list (value new_el)

-- `el->prev->next = el->next; el->next->prev = el->prev;`
list_unlink : Ptr → Action
list_unlink el =
    at (prev_of el) (λ p. set_next p (next_of el))
    >>> at (next_of el) (λ n. set_prev n (prev_of el))

pub list_del : Ptr → Action
unfolding list_unlink
list_del el = list_unlink el >>> set_prev el (value null) >>> set_next el (value null)

pub list_del_init : Ptr → Action
unfolding list_unlink list_head_init
list_del_init el = list_unlink el >>> list_head_init el

pub list_is_init : Ptr → Memory → Bool
list_is_init h m = m.next h == null

pub list_empty : Ptr → Memory → Bool
unfolding list_is_init
list_empty h m = list_is_init h m || m.next h == h

pub list_moveall : (src dst : Ptr) → Action
list_moveall src dst = list_add dst src >>> list_del src >>> list_head_init src

-- The elements that `list_for_each` visits from `p` on, within a number of rounds.
walk_from : ℕ → Ptr → Memory → Ptr → Option (List Ptr)
walk_from zero head m p = none
walk_from (suc k) head m p =
    let rest = walk_from k head m (m.next p) in
    if p == head
    then some []
    else if p == null
    then none
    else elim rest [ none ↦ none | some xs ↦ some (p ∷ xs) ]

-- `list_for_each`, within a number of rounds: the elements in the order of the visits.
pub list_for_each : ℕ → Ptr → Memory → Option (List Ptr)
unfolding walk_from
list_for_each k head m = if head == null then none else walk_from k head m (m.next head)
