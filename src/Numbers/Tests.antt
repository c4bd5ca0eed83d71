-- ===== src/Numbers/Tests.antt =====
-- Numbers at concrete texts.
use libvzctl.Common.{◌≡◌, ◌≤◌, refl, none, some, codes, str_eq}
use libvzctl.Bitmap.Text.{read_digits, starts_digit}
use libvzctl.Numbers.{
  long_max, Strtold, parse_int, parse_ul, parse_twoul_sfx, parse_ul_sfx, scan_number, scan_digits,
}
use libvzctl.Numbers.Bounds.{parse_twoul_sfx_bounds}

abbrev no_point : Strtold
no_point str = none

-- 4294967295 is -1.
negative : parse_int (codes "-1") ≡ some 4294967295
unfolding parse_int scan_number scan_digits starts_digit read_digits
negative = refl

-- A number that is too small is cut off: here it is 5.
too_small : parse_int (codes "-4294967291") ≡ some 5
unfolding parse_int scan_number scan_digits starts_digit read_digits
too_small = refl

too_big : parse_int (codes "2147483648") ≡ none
unfolding parse_int scan_number scan_digits starts_digit read_digits
too_big = refl

with_space : parse_ul (codes " 12") ≡ some 12
unfolding parse_ul scan_number scan_digits starts_digit read_digits
with_space = refl

pages : parse_twoul_sfx no_point 4096 1 (codes "1M:unlimited") ≡ some (256, long_max)
unfolding str_eq parse_twoul_sfx parse_ul_sfx scan_number scan_digits starts_digit read_digits
pages = refl

one_limit : parse_twoul_sfx no_point 1024 1 (codes "8K") ≡ some (8, 8)
unfolding str_eq parse_twoul_sfx parse_ul_sfx scan_number scan_digits starts_digit read_digits
one_limit = refl

parse_twoul_sfx_bounds_example : (256 ≤ long_max) × (long_max ≤ long_max)
parse_twoul_sfx_bounds_example =
    parse_twoul_sfx_bounds no_point 4096 1 (codes "1M:unlimited") (256, long_max) pages
