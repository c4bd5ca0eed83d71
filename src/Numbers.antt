-- ===== src/Numbers.antt =====
-- The numbers of lib/util.c: `parse_ul`, `parse_int`, `parse_ul_sfx` and `parse_twoul_sfx`, over
-- `strtoul`, `strtol` and `strtold` of libc. An `int` and a `long` are their bits, as numbers below
-- 2 ^ 32 and 2 ^ 64.
pub mod Bounds
pub mod Trip
mod Tests
use libvzctl.Common.{
  ℕ, ◌+◌, ◌-◌, ◌*◌, ◌/◌, ◌%◌, ◌^◌, Bool, true, false, not, ◌&&◌, ◌||◌, Option, none, some, List, [],
  ◌∷◌, ltb, leb, ◌==◌, if◌then◌else◌, Str, codes, str_eq, take, drop,
}
use libvzctl.Bitmap.Text.{read_digits, starts_digit}
use libvzctl.Line.{is_space}
use libvzctl.Names.{get_mul}

abbrev pub max_ulong : ℕ
max_ulong = 18446744073709551615

abbrev pub long_max : ℕ
long_max = 9223372036854775807

abbrev pub int_max : ℕ
int_max = 2147483647

skip_white : Str → Str
skip_white [] = []
skip_white (c ∷ s) = if is_space c then skip_white s else c ∷ s

-- A number as libc scans it: its sign, its value, and the rest.
pub record Scanned : Type 0 where
  pub is_negative : Bool
  pub value : ℕ
  pub rest : Str

pub scan_digits : Bool → Str → Option Scanned
scan_digits negative s =
    if starts_digit s
    then some
        (record { is_negative = negative; value = (read_digits 0 s).0; rest = (read_digits 0 s).1 })
    else none

scan_signed : Str → Option Scanned
scan_signed [] = none
scan_signed (c ∷ s) =
    if c == b'-'
    then scan_digits true s
    else if c == b'+'
    then scan_digits false s
    else scan_digits false (c ∷ s)

-- White space, a sign and digits in base 10; none if there is no number.
pub scan_number : Str → Option Scanned
unfolding skip_white scan_signed scan_digits is_space
scan_number s = scan_signed (skip_white s)

pub is_nil : Str → Bool
is_nil [] = true
is_nil (c ∷ s) = false

-- The value of `strtoul` for a number in range.
abbrev pub to_ulong : Scanned → ℕ
to_ulong n = if n.is_negative then (2 ^ 64 - n.value) % 2 ^ 64 else n.value

pub parse_ul : Str → Option ℕ
unfolding is_nil
parse_ul str = elim (scan_number str) [
  | none ↦ none
  | some n ↦ if is_nil n.rest && leb n.value max_ulong then some (to_ulong n) else none
]

-- The `int` is cut from a `long` that is at most INT_MAX.
pub parse_int : Str → Option ℕ
unfolding is_nil
parse_int str = elim (scan_number str) [
  | none ↦ none
  | some n ↦
      if not (is_nil n.rest)
      then none
      else if n.is_negative
      then if leb n.value (long_max + 1) then some ((2 ^ 64 - n.value) % 2 ^ 32) else none
      else if leb n.value int_max
      then some n.value
      else none
]

-- A number that is not whole: `strtold`, as a fraction with the rest; none is ERANGE.
pub record Fraction : Type 0 where
  pub num : ℕ
  pub den : ℕ
  pub rest : Str

abbrev pub Strtold : Type 0
Strtold = Str → Option Fraction

-- A byte of the text at `tail`; 0 is its end.
pub first : Str → ℕ
first [] = 0
first (c ∷ s) = c

pub tail_of : Str → Str
tail_of [] = []
tail_of (c ∷ s) = s

-- The divisors are 1, 1024 and the page size, and so the `long double` is exact.
pub scale : (num den mul divisor : ℕ) → ℕ
scale num den mul divisor =
    if ltb (long_max * (den * divisor)) (num * mul)
    then long_max + 1
    else num * mul / (den * divisor)

-- `parse_ul_sfx` from the test of `*tail` on: the value `v` is num / den, and `val` its whole part.
pub with_suffix : (divisor def_divisor num den val : ℕ) → Str → Option (ℕ × Str)
unfolding get_mul scale first tail_of
with_suffix divisor def_divisor num den val tail =
    if not (first tail == b':') && not (is_nil tail)
    then if divisor == 0 then none else elim (get_mul (first tail)) [
      | none ↦ none
      | some n ↦ some (scale num den n divisor, tail_of tail)
    ]
    else some (val / (if def_divisor == 0 then 1 else def_divisor), tail)

-- From the test of a point on.
pub with_point : Strtold → (divisor def_divisor : ℕ) → Str → ℕ → Str → Option (ℕ × Str)
unfolding with_suffix
with_point strtold divisor def_divisor str val tail =
    if first tail == b'.'
    then elim (strtold str) [
      | none ↦ none
      | some f ↦ with_suffix divisor def_divisor f.num f.den (f.num / f.den) f.rest
    ]
    else with_suffix divisor def_divisor val 1 val tail

-- `parse_ul_sfx`: the value and the rest; NULL is none.
pub parse_ul_sfx : Strtold → (divisor def_divisor : ℕ) → Str → Option (ℕ × Str)
unfolding with_point
parse_ul_sfx strtold divisor def_divisor str =
    if str_eq (take 9 str) (codes "unlimited")
    then some (long_max, drop 9 str)
    else elim (scan_number str) [
      | none ↦ with_point strtold divisor def_divisor str 0 str
      | some n ↦
          if leb n.value max_ulong
          then with_point strtold divisor def_divisor str (to_ulong n) n.rest
          else none
    ]

abbrev pub at_most : ℕ → ℕ
at_most tmp = if ltb long_max tmp then long_max else tmp

-- `parse_twoul_sfx` behind the first number.
pub second_ul : Strtold → (divisor def_divisor : ℕ) → ℕ → Str → Option (ℕ × ℕ)
unfolding is_nil
second_ul strtold divisor def_divisor b [] = some (b, b)
second_ul strtold divisor def_divisor b (c ∷ s) =
    if c == b':'
    then elim (parse_ul_sfx strtold divisor def_divisor s) [
      | none ↦ none
      | some (tmp, rest) ↦ if is_nil rest then some (b, at_most tmp) else none
    ]
    else none

-- `parse_twoul_sfx`: `res->b` and `res->l`; VZCTL_E_INVAL is none.
pub parse_twoul_sfx : Strtold → (divisor def_divisor : ℕ) → Str → Option (ℕ × ℕ)
unfolding second_ul
parse_twoul_sfx strtold divisor def_divisor str =
    elim (parse_ul_sfx strtold divisor def_divisor str) [
      | none ↦ none
      | some (tmp, rest) ↦ second_ul strtold divisor def_divisor (at_most tmp) rest
    ]
