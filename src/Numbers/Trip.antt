-- ===== src/Numbers/Trip.antt =====
-- Numbers that are printed are parsed as they were.
use libvzctl.Common.{
  ℕ, ◌≤◌, ◌≡◌, refl, ◌∙◌, subst, append-nil, true, false, none, some, [], ◌∷◌, ◌++◌, leb, arith,
  Str, if◌then◌else◌, codes, str_eq, take,
}
use libvzctl.Bitmap.Text.{decimal, starts_digit, is_decimal}
use libvzctl.Bitmap.Text.Digits.{IsEnd, read_digits-decimal, starts-decimal}
use libvzctl.Line.{is_space}
use libvzctl.Numbers.{
  max_ulong, int_max, long_max, Scanned, scan_number, scan_digits, parse_ul, parse_int, Strtold,
  is_nil, with_suffix, with_point, parse_ul_sfx, second_ul, parse_twoul_sfx,
}

scan-starts_digit : (s : Str) → starts_digit s ≡ true → scan_number s ≡ scan_digits false s
unfolding scan_number starts_digit is_decimal is_space
scan-starts_digit [] h = cc
scan-starts_digit (c ∷ s) h = ground arith

abbrev plain : ℕ → Str → Scanned
plain n s = record { is_negative = false; value = n; rest = s }

pub scan-decimal : (n : ℕ) (s : Str) → IsEnd s → scan_number (decimal n ++ s) ≡ some (plain n s)
scan-decimal n s h =
    scan-starts_digit (decimal n ++ s) (starts-decimal n s)
    ∙ unfold scan_digits in rw (starts-decimal n s, read_digits-decimal n s h) refl

scan_alone : (n : ℕ) → scan_number (decimal n) ≡ some (plain n [])
scan_alone n =
    subst (λ t. scan_number t ≡ some (plain n [])) (append-nil (decimal n))
      (scan-decimal n [] (unfold starts_digit in refl))

-- A number that is printed is parsed as it was if it fits an `unsigned long`, and refused if not.
pub parse_ul-decimal : (n : ℕ) → parse_ul (decimal n) ≡ (if leb n max_ulong then some n else none)
unfolding parse_ul
parse_ul-decimal n = ground (arith, scan_alone n)

-- As an `int`, it is parsed as it was if it is at most INT_MAX, and refused if not.
pub parse_int-decimal : (n : ℕ) → parse_int (decimal n) ≡ (if leb n int_max then some n else none)
unfolding parse_int
parse_int-decimal n = ground (arith, scan_alone n)

starts-no-unlimited :
    (s : Str) → starts_digit s ≡ true → str_eq (take 9 s) (codes "unlimited") ≡ false
unfolding starts_digit is_decimal str_eq
starts-no-unlimited [] h = cc
starts-no-unlimited (c ∷ s) h = ground arith

-- Behind the number the text ends, or a colon stands.
abbrev EndsUl : Str → Type 0
EndsUl [] = Unit
EndsUl (c ∷ s) = c ≡ b':'

EndsUl-IsEnd : (s : Str) → EndsUl s → IsEnd s
unfolding starts_digit is_decimal
EndsUl-IsEnd [] h = refl
EndsUl-IsEnd (c ∷ s) h = ground arith

with_point-end :
    (strtold : Strtold) (divisor : ℕ) (str : Str) (n : ℕ) (s : Str)
    → EndsUl s
    → with_point strtold divisor 1 str n s ≡ some (n, s)
unfolding with_point with_suffix is_nil
with_point-end strtold divisor str n [] h = ground arith
with_point-end strtold divisor str n (c ∷ s) h = ground arith

parse_ul_sfx-decimal :
    (strtold : Strtold) (divisor n : ℕ) (s : Str)
    → n ≤ max_ulong
    → EndsUl s
    → parse_ul_sfx strtold divisor 1 (decimal n ++ s) ≡ some (n, s)
unfolding parse_ul_sfx
parse_ul_sfx-decimal strtold divisor n s l h = ground (
  arith,
  starts-no-unlimited (decimal n ++ s) (starts-decimal n s),
  scan-decimal n s (EndsUl-IsEnd s h),
  with_point-end strtold divisor (decimal n ++ s) n s h,
)

-- A pair of limits up to LONG_MAX, printed as `%lu:%lu`, is parsed as it was, for any unit.
pub parse_twoul_sfx-decimal :
    (strtold : Strtold) (divisor b l : ℕ)
    → b ≤ long_max
    → l ≤ long_max
    → parse_twoul_sfx strtold divisor 1 (decimal b ++ b':' ∷ decimal l) ≡ some (b, l)
unfolding parse_twoul_sfx second_ul is_nil
parse_twoul_sfx-decimal strtold divisor b l hb hl = ground (
  arith,
  parse_ul_sfx-decimal strtold divisor b (b':' ∷ decimal l) (omega arith) refl,
  subst (λ t. parse_ul_sfx strtold divisor 1 t ≡ some (l, [])) (append-nil (decimal l))
      (parse_ul_sfx-decimal strtold divisor l [] (omega (arith, hl)) tt),
)
