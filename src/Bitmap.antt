-- ===== src/Bitmap.antt =====
-- The bit masks of lib/bitmap.c. A mask is the function from its bits, and word `i` of the array is
-- its bits from 64 * i on.
pub mod Search
pub mod Text
mod Tests
mod Words
use libvzctl.Common.{
  ℕ, zero, suc, ◌+◌, ◌-◌, ◌*◌, ◌/◌, ◌%◌, Bool, true, false, not, ◌&&◌, ◌||◌, ltb, leb, ◌==◌,
  if◌then◌else◌,
}
use libvzctl.OnOff.{Mask}

abbrev pub min : ℕ → ℕ → ℕ
min a b = if leb a b then a else b

-- Whether one of `k` bits from `i` on is set.
pub any_from : Mask → ℕ → ℕ → Bool
any_from m i zero = false
any_from m i (suc k) = m i || any_from m (i + 1) k

-- `map[i] != 0`; for the zero bits, `~map[i] != 0`, of the inverse mask.
pub is_nonzero_word : Mask → ℕ → Bool
is_nonzero_word m i = any_from m (i * 64) 64

-- The loop over `k` words from `i` on: the first that is not zero, or the end.
pub skip_words : Mask → ℕ → ℕ → ℕ
skip_words m i zero = i
skip_words m i (suc k) =
    let rest = skip_words m (i + 1) k in if is_nonzero_word m i then i else rest

-- The loop over `k` bits from `i` on: the first that is set, or the end.
pub scan : Mask → ℕ → ℕ → ℕ
scan m i zero = i
scan m i (suc k) = let rest = scan m (i + 1) k in if m i then i else rest

-- `do … while (++i < n)`.
pub do_scan : Mask → ℕ → ℕ → ℕ
do_scan m i n = let rest = scan m (i + 1) (n - (i + 1)) in if m i then i else rest

-- `bitmap_find_first_bit`.
pub find_first_bit : Mask → ℕ → ℕ
find_first_bit m nmaskbits =
    let longs = (nmaskbits + 63) / 64 in
    let i = skip_words m 0 longs in
    if i == longs then nmaskbits else do_scan m (i * 64) (min (i * 64 + 64) nmaskbits)

-- `map + BIT_WORD(offset)`.
abbrev pub from_word : Mask → ℕ → Mask
from_word m offset = λ k. m (offset / 64 * 64 + k)

-- `bitmap_find_bit` from `if (offset >= nmaskbits)` on.
unfoldable pub find_from : Mask → ℕ → ℕ → ℕ
find_from m nmaskbits offset =
    if leb nmaskbits offset
    then nmaskbits
    else offset + find_first_bit (from_word m offset) (nmaskbits - offset)

-- `bitmap_find_bit`.
pub find_bit : Mask → ℕ → ℕ → ℕ
find_bit m nmaskbits offset =
    let n = min ((offset / 64 + 1) * 64) nmaskbits in
    let at = scan m offset (n - offset) in
    if offset % 64 == 0
    then find_from m nmaskbits offset
    else if ltb at n
    then at
    else find_from m nmaskbits at

-- `bitmap_find_zero_bit` and `bitmap_find_first_zero_bit`: the same loops on the inverse bits.
abbrev pub inverse : Mask → Mask
inverse m = λ k. not (m k)

pub find_zero_bit : Mask → ℕ → ℕ → ℕ
find_zero_bit m nmaskbits offset = find_bit (inverse m) nmaskbits offset

-- `bitmap_all_bit_set`, for a mask of `size` bytes.
pub all_bit_set : Mask → ℕ → Bool
all_bit_set m size = find_first_bit (inverse m) (size * 8) == size * 8
