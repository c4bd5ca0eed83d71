-- ===== src/Numbers/Bounds.antt =====
-- The numbers that are parsed are in range.
use libvzctl.Common.{ℕ, ◌≡◌, ◌<◌, ◌≤◌, ◌^◌, some, Str, arith, inl, inr, Option-cases, [], ◌∷◌}
use libvzctl.Numbers.{
  long_max, at_most, Strtold, scan_number, parse_ul, parse_int, second_ul, parse_twoul_sfx,
  parse_ul_sfx,
}

-- What is parsed fits an `unsigned long` and an `int`.
pub parse_ul_bounds : (str : Str) (n : ℕ) → parse_ul str ≡ some n → n < 2 ^ 64
unfolding parse_ul
parse_ul_bounds str n h = ground (arith, Option-cases (scan_number str))

pub parse_int_bounds : (str : Str) (n : ℕ) → parse_int str ≡ some n → n < 2 ^ 32
unfolding parse_int
parse_int_bounds str n h = ground (arith, Option-cases (scan_number str))

second_ul_bounds :
    (strtold : Strtold) (divisor def_divisor b : ℕ) (s : Str) (r : ℕ × ℕ)
    → b ≤ long_max
    → second_ul strtold divisor def_divisor b s ≡ some r
    → (r.0 ≤ long_max) × (r.1 ≤ long_max)
unfolding second_ul
second_ul_bounds strtold divisor def_divisor b [] r l h = ground arith
second_ul_bounds strtold divisor def_divisor b (c ∷ s) r l h =
    ground (arith, Option-cases (parse_ul_sfx strtold divisor def_divisor s))

-- Whatever suffix and divisor a limit has, both of its values are at most LONG_MAX.
pub parse_twoul_sfx_bounds :
    (strtold : Strtold) (divisor def_divisor : ℕ) (str : Str) (r : ℕ × ℕ)
    → parse_twoul_sfx strtold divisor def_divisor str ≡ some r
    → (r.0 ≤ long_max) × (r.1 ≤ long_max)
unfolding parse_twoul_sfx
parse_twoul_sfx_bounds strtold divisor def_divisor str r h =
    elim (Option-cases (parse_ul_sfx strtold divisor def_divisor str)) [
      | inl e ↦ ground arith
      | inr (p, e) ↦
          ground (arith, second_ul_bounds strtold divisor def_divisor (at_most p.0) p.1 r)
    ]
