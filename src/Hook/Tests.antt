-- ===== src/Hook/Tests.antt =====
-- Hooks at concrete addresses.
use libvzctl.Common.{ℕ, Option, none, some, [], ◌∷◌, arith, ◌==◌, if◌then◌else◌}
use libvzctl.Links.{Memory}
use libvzctl.Links.Ring.{IsRing}

-- A ring of 1 and 2.
abbrev swap : ℕ → ℕ
swap a = if a == 1 then 2 else if a == 2 then 1 else 0

abbrev two : Memory
two = record { prev = swap; next = swap }

two-IsRing : IsRing two 1 (2 ∷ [])
two-IsRing = record { seg = ground arith; distinct = ground arith }

-- The hook at 2 has no operation, and the others return 7.
abbrev callback : ℕ → Option ℕ
callback h = if h == 2 then none else some 7
