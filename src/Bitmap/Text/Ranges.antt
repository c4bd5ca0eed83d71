-- ===== src/Bitmap/Text/Ranges.antt =====
-- The ranges that are printed are the bits that are set.
use libvzctl.Common.{
  ℕ, zero, suc, ◌+◌, ◌-◌, ◌<◌, ◌≤◌, ◌≡◌, Bool, true, false, ◌&&◌, ◌||◌, inl, inr, Bool-cases, List,
  [], ◌∷◌, ltb, leb, ◌==◌, arith,
}
use libvzctl.Bitmap.{find_bit, find_zero_bit, inverse}
use libvzctl.Bitmap.Search.{IsFirst, find_bit-IsFirst}
use libvzctl.Bitmap.Text.Print.{ranges}
use libvzctl.OnOff.{Mask}

-- The ranges are ordered and inside the mask.
abbrev pub AreInside : ℕ → List (ℕ × ℕ) → Type 0
AreInside n [] = Unit
AreInside n ((a, b) ∷ rs) = (a ≤ b) × (b < n) × AreInside n rs

-- Whether a bit is in a range.
abbrev pub in_ranges : List (ℕ × ℕ) → ℕ → Bool
in_ranges [] j = false
in_ranges ((a, b) ∷ rs) j = (leb a j && leb j b) || in_ranges rs j

zero-IsFirst :
    (m : Mask) (n a : ℕ) → a < n → IsFirst (inverse m) (a + 1) n (find_zero_bit m n (a + 1))
unfolding find_zero_bit
zero-IsFirst m n a l = find_bit-IsFirst (inverse m) n (a + 1) (omega arith)

-- The range at `a`, and the search behind it.
next-IsFirst :
    (m : Mask) (n a : ℕ)
    → a < n
    → (a ≤ find_zero_bit m n (a + 1) - 1)
      × (find_zero_bit m n (a + 1) - 1 < n)
      × IsFirst m
          (find_zero_bit m n (a + 1) - 1 + 1)
          n
          (find_bit m n (find_zero_bit m n (a + 1) - 1 + 1))
next-IsFirst m n a l =
    let z = zero-IsFirst m n a l in
    let b = find_zero_bit m n (a + 1) - 1 in
    (
      omega (arith, z.above),
      omega (arith, z.above, z.below),
      find_bit-IsFirst m n (b + 1) (omega (arith, z.above, z.below)),
    )

pub ranges-inside : (k : ℕ) (m : Mask) (n a : ℕ) → AreInside n (ranges k m n a)
unfolding ranges
ranges-inside zero m n a = tt
ranges-inside (suc k) m n a =
    let b = find_zero_bit m n (a + 1) - 1 in
    elim (Bool-cases (ltb a n)) [
      | inr e ↦ rw e tt
      | inl e ↦
          let next = next-IsFirst m n a (ground arith) in
          rw e (next.0, next.1, ranges-inside k m n (find_bit m n (b + 1)))
    ]

-- A bit of the range at `a`.
range-set :
    (m : Mask) (n a j : ℕ)
    → a < n
    → m a ≡ true
    → a ≤ j
    → j ≤ find_zero_bit m n (a + 1) - 1
    → m j ≡ true
range-set m n a j l h g u =
    let z = zero-IsFirst m n a l in
    elim (Bool-cases (j == a)) [
      | inl e ↦ ground arith
      | inr e ↦ ground (arith, z.are_clear j (ground arith) (omega (arith, z.above, u)))
    ]

pub ranges-bits :
    (k : ℕ) (m : Mask) (n lo a j : ℕ)
    → IsFirst m lo n a
    → n < lo + k
    → j < n
    → in_ranges (ranges k m n a) j ≡ (leb lo j && m j)
unfolding ranges
ranges-bits zero m n lo a j f l u = absurd (omega (arith, f.above, f.below))
ranges-bits (suc k) m n lo a j f l u =
    let b = find_zero_bit m n (a + 1) - 1 in
    let rest = ranges k m n (find_bit m n (b + 1)) in
    elim (Bool-cases (ltb a n)) [
      | inr e ↦ ground (arith, f.are_clear j, f.above, f.below)
      | inl e ↦
          let next = next-IsFirst m n a (ground arith) in
          let more =
            ranges-bits k m n (b + 1) (find_bit m n (b + 1)) j next.2
              (omega (arith, f.above, next.0, l)) u in
          ground (arith, more, next.0, next.1, f.are_clear j, f.above, f.is_set, range-set m n a j)
    ]
