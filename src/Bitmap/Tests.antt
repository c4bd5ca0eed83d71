-- ===== src/Bitmap/Tests.antt =====
-- Masks at concrete bits.
use libvzctl.Common.{ℕ, ◌≡◌, ◌<◌, refl, true, false, not, ◌||◌, arith, codes, ltb, ◌==◌}
use libvzctl.Bitmap.{
  all_bit_set, any_from, do_scan, find_bit, find_first_bit, find_from, find_zero_bit,
  is_nonzero_word, scan, skip_words,
}
use libvzctl.Bitmap.Search.{IsFirst, find_bit-IsFirst}
use libvzctl.Bitmap.Text.{
  bitmap_parse, bitmap_snprintf, decimal, put, range_text, read_digits, invalid, out_of_range,
  parsed,
}
use libvzctl.Bitmap.Text.Trip.{bitmap_parse-snprintf}
use libvzctl.Bitmap.Words.{bitmap_and, bitmap_empty, empty_words, put_word, words_from}
use libvzctl.OnOff.{Mask, no_bits}

-- The bits 0 to 3, and 9.
abbrev five : Mask
five k = ltb k 4 || k == 9

five_text : bitmap_snprintf 64 five 2 ≡ (codes "0-3,9", 5)
unfolding bitmap_snprintf find_bit find_from find_first_bit skip_words is_nonzero_word any_from
    do_scan scan find_zero_bit put range_text decimal
five_text = refl

five_cut : bitmap_snprintf 4 five 2 ≡ (codes "0-3", 5)
unfolding bitmap_snprintf find_bit find_from find_first_bit skip_words is_nonzero_word any_from
    do_scan scan find_zero_bit put range_text decimal
five_cut = refl

not_all_set : all_bit_set five 2 ≡ false
unfolding all_bit_set find_first_bit skip_words is_nonzero_word any_from do_scan scan
not_all_set = refl

-- The text of a mask without bits is parsed as the mask with all bits.
empty_text : (bitmap_parse (bitmap_snprintf 64 no_bits 2).0 2).1 5 ≡ true
unfolding bitmap_snprintf bitmap_parse find_bit find_from find_first_bit skip_words is_nonzero_word
    any_from do_scan scan
empty_text = refl

bad_range : (bitmap_parse (codes "3-1") 2).0 ≡ invalid
unfolding bitmap_parse read_digits
bad_range = refl

too_high : (bitmap_parse (codes "1,16") 2).0 ≡ out_of_range
unfolding bitmap_parse read_digits
too_high = refl

find_bit-IsFirst_example : IsFirst five 4 16 9
unfolding find_bit find_from find_first_bit skip_words is_nonzero_word any_from do_scan scan
find_bit-IsFirst_example = find_bit-IsFirst five 16 4 (omega arith)

bitmap_parse-snprintf_example :
    ((bitmap_parse (bitmap_snprintf 64 five 2).0 2).0 ≡ parsed)
    × ((i : ℕ) → i < 16 → (bitmap_parse (bitmap_snprintf 64 five 2).0 2).1 i ≡ five i)
unfolding bitmap_snprintf find_bit find_from find_first_bit skip_words is_nonzero_word any_from
    do_scan scan find_zero_bit put range_text decimal
bitmap_parse-snprintf_example =
    bitmap_parse-snprintf 64 five 2 9 (omega arith) (omega arith) refl (omega arith)

-- Bits 0 to 3, and 9, without the first.
and_two : (bitmap_and no_bits five (λ b. not (b == 0)) 8).0 9 ≡ true
unfolding bitmap_and words_from put_word
and_two = refl

and_none : (bitmap_and no_bits five (λ b. b == 0) 8).0 9 ≡ false
unfolding bitmap_and words_from put_word
and_none = refl

and_result : (bitmap_and no_bits five (λ b. b == 9) 8).1 ≡ true
unfolding bitmap_and words_from put_word is_nonzero_word any_from
and_result = refl

not_empty : bitmap_empty five 8 ≡ false
unfolding bitmap_empty empty_words is_nonzero_word any_from
not_empty = refl
