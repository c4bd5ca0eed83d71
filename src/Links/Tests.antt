-- ===== src/Links/Tests.antt =====
-- The lists at concrete addresses.
use libvzctl.Common.{ℕ, ◌≡◌, refl, Option, none, some, List, [], ◌∷◌, arith, ◌==◌, if◌then◌else◌}
use libvzctl.Links.{Memory, list_del, list_del_init, list_for_each, list_head_init, list_moveall}
use libvzctl.Links.Moves.{list_del-refines, list_moveall-refines}
use libvzctl.Links.Ring.{IsRing}

-- The element behind each address on a ring of 1, 2 and 3, and the one before it.
abbrev behind : ℕ → ℕ
behind a = if a == 1 then 2 else if a == 2 then 3 else if a == 3 then 1 else 0

abbrev before : ℕ → ℕ
before a = if a == 1 then 3 else if a == 2 then 1 else if a == 3 then 2 else 0

abbrev three : Memory
three = record { prev = before; next = behind }

three-IsRing : IsRing three 1 (2 ∷ 3 ∷ [])
three-IsRing = record { seg = ground arith; distinct = ground arith }

abbrev listed : Option Memory → Option (List ℕ)
listed none = none
listed (some g) = list_for_each 4 1 g

init : listed (list_head_init 1 three) ≡ some []
unfolding list_head_init list_for_each
init = refl

del_init : listed (list_del_init 2 three) ≡ some (3 ∷ [])
unfolding list_del_init list_for_each
del_init = refl

list_del-refines_example :
    (g : Memory) × (list_del 2 three ≡ some g)
    × IsRing g 1 (3 ∷ [])
    × (g.next 2 ≡ 0)
    × (g.prev 2 ≡ 0)
list_del-refines_example = list_del-refines three 1 2 [] (3 ∷ []) three-IsRing

list_moveall-refines_example :
    (g : Memory) × (list_moveall 1 5 three ≡ some g) × IsRing g 5 (2 ∷ 3 ∷ []) × IsRing g 1 []
list_moveall-refines_example =
    list_moveall-refines three 1 5 (2 ∷ 3 ∷ []) three-IsRing (ground arith) (ground arith)
