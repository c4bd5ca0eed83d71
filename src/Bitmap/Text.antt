-- ===== src/Bitmap/Text.antt =====
-- The text of a mask: `print_range`, `bitmap_snprintf`, `parse_range` and `vzctl2_bitmap_parse` of
-- lib/bitmap.c.
pub mod Digits
pub mod Print
pub mod Ranges
pub mod Trip
use libvzctl.Common.{
  ℕ, zero, suc, ◌+◌, ◌-◌, ◌*◌, ◌/◌, ◌%◌, ◌^◌, Bool, true, false, not, ◌&&◌, ◌||◌, Option, none,
  some, List, [], ◌∷◌, ◌++◌, ltb, leb, ◌==◌, if◌then◌else◌, Str, codes, str_eq, length, take,
}
use libvzctl.Bitmap.{find_bit, find_zero_bit}
use libvzctl.OnOff.{Mask, no_bits, set_bit}

-- `%d` of a number that is not negative, within a number of digits.
unfoldable pub decimal_from : ℕ → ℕ → Str
decimal_from zero n = []
decimal_from (suc k) n =
    let front = decimal_from k (n / 10) in
    if ltb n 10 then (b'0' + n) ∷ [] else front ++ (b'0' + n % 10) ∷ []

unfoldable pub decimal : ℕ → Str
unfolding decimal_from
decimal n = decimal_from (suc n) n

-- `print_range`, without the bound of its buffer.
unfoldable pub range_text : ℕ → ℕ → Str
range_text a b = if a == b then decimal a else decimal a ++ b'-' ∷ decimal b

-- The buffer up to its NUL and `len` behind one `snprintf` at `buf + len`.
unfoldable pub put : (buflen : ℕ) → Str → Str × ℕ → Str × ℕ
put buflen s (buf, len) = (buf ++ take (buflen - len - 1) s, len + length s)

-- The loop of `bitmap_snprintf` from the range at `a` on, within a number of rounds.
pub print_from : ℕ → ℕ → Mask → ℕ → ℕ → Str × ℕ → Str × ℕ
print_from zero buflen m n a st = st
print_from (suc k) buflen m n a st =
    let b = find_zero_bit m n (a + 1) - 1 in
    let comma = if ltb 0 st.1 then put buflen (b',' ∷ []) st else st in
    let rest = print_from k buflen m n (find_bit m n (b + 1)) (put buflen (range_text a b) comma) in
    if ltb a n then rest else st

-- `bitmap_snprintf`, for a mask of `size` bytes: the buffer, and what it returns. A round leaves
-- at least one bit behind it.
unfoldable pub bitmap_snprintf : (buflen : ℕ) → Mask → (size : ℕ) → Str × ℕ
unfolding print_from
bitmap_snprintf buflen m size =
    print_from (suc (size * 8)) buflen m (size * 8) (find_bit m (size * 8) 0) ([], 0)

unfoldable pub is_decimal : ℕ → Bool
is_decimal c = leb b'0' c && leb c b'9'

-- The digits that `strtoul` reads in front of `s`: their value, and the rest.
unfoldable pub read_digits : ℕ → Str → ℕ × Str
unfolding is_decimal
read_digits n [] = (n, [])
read_digits n (c ∷ s) =
    let more = read_digits (n * 10 + (c - b'0')) s in if is_decimal c then more else (n, c ∷ s)

abbrev ulong_max : ℕ
ulong_max = 2 ^ 64 - 1

-- `strtoul`: the value, whether errno is ERANGE, and the rest.
pub strtoul : Str → ℕ × Bool × Str
unfolding read_digits
strtoul s =
    let r = read_digits 0 s in
    if leb r.0 ulong_max then (r.0, false, r.1) else (ulong_max, true, r.1)

unfoldable pub starts_digit : Str → Bool
unfolding is_decimal
starts_digit [] = false
starts_digit (c ∷ s) = is_decimal c

-- `parse_range` behind the first number.
pub parse_end : ℕ → Str → Option (ℕ × ℕ × Str)
unfolding strtoul starts_digit
parse_end a [] = some (a, a, [])
parse_end a (c ∷ s) =
    if c == b'-'
    then (if not (starts_digit s)
        then none
        else let (b, e, rest) = strtoul s in if leb a b then some (a, b, rest) else none)
    else some (a, a, c ∷ s)

-- `parse_range`: -1 is none.
pub parse_range : Str → Option (ℕ × ℕ × Str)
unfolding parse_end strtoul starts_digit
parse_range s =
    let (a, is_erange, rest) = strtoul s in
    if not (starts_digit s) then none else if is_erange then none else parse_end a rest

-- `for (; a <= b; a++) bitmap_set_bit(a, maskp)`, for `k` bits.
pub set_bits : Mask → ℕ → ℕ → Mask
set_bits m a zero = m
set_bits m a (suc k) = set_bits (set_bit m a) (a + 1) k

-- 0, or -1 with EINVAL or ERANGE.
pub data ParseEnd : Type 0 where
  parsed invalid out_of_range : ParseEnd

-- `if (*endptr == ',') endptr++`.
pub skip_comma : Str → Str
skip_comma [] = []
skip_comma (c ∷ s) = if c == b',' then s else c ∷ s

-- The loop of `vzctl2_bitmap_parse`, within a number of rounds, each of which takes a byte: its end
-- and the mask.
unfoldable pub parse_from : ℕ → ℕ → Mask → Str → ParseEnd × Mask
unfolding parse_range set_bits skip_comma
parse_from zero n m s = (invalid, m)
parse_from (suc k) n m s = elim (parse_range s) [
  | none ↦ (invalid, m)
  | some (a, b, rest) ↦
      if leb n b
      then (out_of_range, m)
      else let set = set_bits m a (b + 1 - a) in
        elim (skip_comma rest) [ [] ↦ (parsed, set) | c ∷ t ↦ parse_from k n set (c ∷ t) ]
]

-- `vzctl2_bitmap_parse`, for a mask of `size` bytes.
unfoldable pub bitmap_parse : Str → (size : ℕ) → ParseEnd × Mask
unfolding parse_from str_eq
bitmap_parse s size =
    if str_eq s (codes "all") || str_eq s []
    then (parsed, λ k. ltb k (size * 8))
    else parse_from (suc (length s)) (size * 8) no_bits s
