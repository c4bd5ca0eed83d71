-- ===== src/Bitmap/Text/Trip.antt =====
-- The text of a mask is parsed into the mask.
use libvzctl.Common.{
  ℕ, zero, suc, ◌+◌, ◌-◌, ◌*◌, ◌^◌, ◌<◌, ◌≤◌, ◌≡◌, refl, subst, ap, ◌∙◌, true, false, ◌&&◌, ◌||◌,
  inl, inr, Bool-cases, some, List, [], ◌∷◌, ◌++◌, append_assoc, ltb, leb, ◌==◌, arith, Str, codes,
  str_eq, length, length-append, take,
}
use libvzctl.Bitmap.{find_bit}
use libvzctl.Bitmap.Search.{find_bit-IsFirst}
use libvzctl.Bitmap.Text.{
  parsed, bitmap_parse, bitmap_snprintf, decimal, parse_end, parse_from, parse_range, range_text,
  set_bits, skip_comma, starts_digit, is_decimal,
}
use libvzctl.Bitmap.Text.Digits.{IsEnd, starts-decimal, strtoul-decimal}
use libvzctl.Bitmap.Text.Print.{
  bitmap_snprintf-text, mask_text, ranges, starts-range, tail_text, text_of,
}
use libvzctl.Bitmap.Text.Ranges.{AreInside, in_ranges, ranges-bits, ranges-inside}
use libvzctl.OnOff.{Mask, no_bits, set_bit}

IsEnd-tail : (rs : List (ℕ × ℕ)) → IsEnd (tail_text rs)
unfolding starts_digit
IsEnd-tail [] = refl
IsEnd-tail ((a, b) ∷ rs) = unfold is_decimal in refl

parse_end-tail :
    (a : ℕ) (rs : List (ℕ × ℕ)) → parse_end a (tail_text rs) ≡ some (a, a, tail_text rs)
unfolding parse_end
parse_end-tail a [] = refl
parse_end-tail a ((x, y) ∷ rs) = refl

parse_range-one :
    (a : ℕ) (rs : List (ℕ × ℕ))
    → a < 2 ^ 64
    → parse_range (decimal a ++ tail_text rs) ≡ some (a, a, tail_text rs)
unfolding parse_range
parse_range-one a rs h =
    rw (strtoul-decimal a (tail_text rs) h (IsEnd-tail rs), starts-decimal a (tail_text rs))
      (parse_end-tail a rs)

parse_end-dash :
    (a b : ℕ) (rs : List (ℕ × ℕ))
    → a ≤ b
    → b < 2 ^ 64
    → parse_end a (b'-' ∷ (decimal b ++ tail_text rs)) ≡ some (a, b, tail_text rs)
unfolding parse_end
parse_end-dash a b rs l h =
    let less : leb a b ≡ true = ground arith in
    rw (starts-decimal b (tail_text rs), strtoul-decimal b (tail_text rs) h (IsEnd-tail rs), less)
      refl

parse_range-two :
    (a b : ℕ) (rs : List (ℕ × ℕ))
    → a ≤ b
    → b < 2 ^ 64
    → parse_range (decimal a ++ b'-' ∷ (decimal b ++ tail_text rs)) ≡ some (a, b, tail_text rs)
unfolding parse_range
parse_range-two a b rs l h =
    let rest = b'-' ∷ (decimal b ++ tail_text rs) in
    rw (strtoul-decimal a rest (omega (arith, l, h)) dash, starts-decimal a rest)
      (parse_end-dash a b rs l h)
  where
    dash : IsEnd (b'-' ∷ (decimal b ++ tail_text rs))
    dash = unfold starts_digit in unfold is_decimal in refl

parse_range-range :
    (a b : ℕ) (rs : List (ℕ × ℕ))
    → a ≤ b
    → b < 2 ^ 64
    → parse_range (range_text a b ++ tail_text rs) ≡ some (a, b, tail_text rs)
unfolding range_text
parse_range-range a b rs l h = elim (Bool-cases (a == b)) [
  | inl e ↦ rw e (
      parse_range-one a rs (omega (arith, l, h))
      ∙ ap (λ v. some (a, v, tail_text rs)) (ground arith))
  | inr e ↦ rw e (
      ap parse_range (append_assoc (decimal a) (b'-' ∷ decimal b) (tail_text rs))
      ∙ parse_range-two a b rs l h)
]

-- The mask with the bits of the ranges.
abbrev set_ranges : Mask → List (ℕ × ℕ) → Mask
set_ranges m [] = m
set_ranges m ((a, b) ∷ rs) = set_ranges (set_bits m a (b + 1 - a)) rs

parse_from-last :
    (k n : ℕ) (m : Mask) (s : Str) (a b : ℕ)
    → parse_range s ≡ some (a, b, [])
    → b < n
    → parse_from (suc k) n m s ≡ (parsed, set_bits m a (b + 1 - a))
unfolding parse_from skip_comma
parse_from-last k n m s a b e l = ground arith

parse_from-more :
    (k n : ℕ) (m : Mask) (s : Str) (a b : ℕ) (t : Str)
    → parse_range s ≡ some (a, b, b',' ∷ t)
    → b < n
    → starts_digit t ≡ true
    → parse_from (suc k) n m s ≡ parse_from k n (set_bits m a (b + 1 - a)) t
unfolding parse_from skip_comma starts_digit
parse_from-more k n m s a b [] e l d = absurd (ground arith)
parse_from-more k n m s a b (c ∷ t) e l d = ground arith

parse_from-text :
    (k n : ℕ) (m : Mask) (a b : ℕ) (rs : List (ℕ × ℕ))
    → n ≤ 2 ^ 64
    → length rs < k
    → a ≤ b
    → b < n
    → AreInside n rs
    → parse_from k n m (range_text a b ++ tail_text rs) ≡ (parsed, set_ranges m ((a, b) ∷ rs))
parse_from-text zero n m a b rs w k l h i = absurd (omega (arith, k))
parse_from-text (suc k) n m a b [] w f l h i =
    parse_from-last k n m (range_text a b ++ []) a b
      (parse_range-range a b [] l (omega (arith, w, h))) h
parse_from-text (suc k) n m a b ((x, y) ∷ rs) w f l h i =
    parse_from-more k n m (range_text a b ++ tail_text ((x, y) ∷ rs)) a b
      (range_text x y ++ tail_text rs) (parse_range-range a b ((x, y) ∷ rs) l (omega (arith, w, h)))
      h (starts-range x y (tail_text rs))
    ∙ parse_from-text k n (set_bits m a (b + 1 - a)) x y rs w (omega (arith, f)) i.0 i.1 i.2

set_bits-bit : (m : Mask) (a k j : ℕ) → set_bits m a k j ≡ (m j || (leb a j && ltb j (a + k)))
unfolding set_bits
set_bits-bit m a zero j = ground arith
set_bits-bit m a (suc k) j = ground (arith, set_bits-bit (set_bit m a) (a + 1) k j)

set_ranges-bit :
    (n : ℕ) (m : Mask) (rs : List (ℕ × ℕ)) (j : ℕ)
    → AreInside n rs
    → set_ranges m rs j ≡ (m j || in_ranges rs j)
set_ranges-bit n m [] j i = ground arith
set_ranges-bit n m ((a, b) ∷ rs) j i = ground (
  arith,
  i.0,
  set_bits-bit m a (b + 1 - a) j,
  set_ranges-bit n (set_bits m a (b + 1 - a)) rs j i.2,
)

length-tail_text : (rs : List (ℕ × ℕ)) → length rs ≤ length (tail_text rs)
length-tail_text [] = omega arith
length-tail_text ((a, b) ∷ rs) =
    omega (arith, length-tail_text rs, length-append (range_text a b) (tail_text rs))

take_whole : (k : ℕ) (s : Str) → length s ≤ k → take k s ≡ s
take_whole zero [] l = refl
take_whole zero (c ∷ s) l = absurd (omega arith)
take_whole (suc k) [] l = refl
take_whole (suc k) (c ∷ s) l = ap (λ t. c ∷ t) (take_whole k s (omega (arith, l)))

not-all : (s : Str) → starts_digit s ≡ true → (str_eq s (codes "all") || str_eq s []) ≡ false
unfolding starts_digit str_eq is_decimal
not-all [] h = absurd (ground arith)
not-all (c ∷ s) h = ground arith

parse-text_of :
    (n : ℕ) (rs : List (ℕ × ℕ)) (j : ℕ)
    → n ≤ 2 ^ 64
    → AreInside n rs
    → in_ranges rs j ≡ true
    → (starts_digit (text_of rs) ≡ true)
      × (parse_from (suc (length (text_of rs))) n no_bits (text_of rs)
          ≡ (parsed, set_ranges no_bits rs))
parse-text_of n [] j w i h = absurd (ground arith)
parse-text_of n ((a, b) ∷ rs) j w i h = (
  starts-range a b (tail_text rs),
  parse_from-text _ n no_bits a b rs w
      (omega (arith, length-tail_text rs, length-append (range_text a b) (tail_text rs))) i.0 i.1
      i.2,
)

bitmap_parse-text :
    (m : Mask) (size j : ℕ)
    → size * 8 ≤ 2 ^ 31
    → j < size * 8
    → m j ≡ true
    → bitmap_parse (mask_text m size) size ≡ (
      parsed,
      set_ranges no_bits (ranges (suc (size * 8)) m (size * 8) (find_bit m (size * 8) 0)),
    )
unfolding bitmap_parse
bitmap_parse-text m size j w l h =
    let n = size * 8 in
    let a = find_bit m n 0 in
    let k = suc n in
    let bits = ranges-bits k m n 0 a j (find_bit-IsFirst m n 0 (omega arith)) (omega arith) l in
    let whole =
      parse-text_of n (ranges k m n a) j (omega (arith, w)) (ranges-inside k m n a)
        (ground (arith, bits)) in
    rw (not-all (mask_text m size) whole.0) whole.1

-- The text of a mask that has a bit, printed into a buffer that is long enough, is parsed, and the
-- mask that is parsed has the same bits.
pub bitmap_parse-snprintf :
    (buflen : ℕ) (m : Mask) (size j : ℕ)
    → size * 8 ≤ 2 ^ 31
    → j < size * 8
    → m j ≡ true
    → (bitmap_snprintf buflen m size).1 < buflen
    → ((bitmap_parse (bitmap_snprintf buflen m size).0 size).0 ≡ parsed)
      × ((i : ℕ) → i < size * 8 → (bitmap_parse (bitmap_snprintf buflen m size).0 size).1 i ≡ m i)
bitmap_parse-snprintf buflen m size j w l h r =
    let n = size * 8 in
    let a = find_bit m n 0 in
    let k = suc n in
    let text = mask_text m size in
    let print = bitmap_snprintf-text buflen m size in
    let fits : length text < buflen = subst (λ p. p.1 < buflen) print r in
    let buffer : (bitmap_snprintf buflen m size).0 ≡ text =
      ap (λ p. p.0) print ∙ take_whole (buflen - 1) text (omega (arith, fits)) in
    let result = ap (λ s. bitmap_parse s size) buffer ∙ bitmap_parse-text m size j w l h in
    (
      ap (λ p. p.0) result,
      λ i u.
          ap (λ p. p.1 i) result
          ∙ set_ranges-bit n no_bits (ranges k m n a) i (ranges-inside k m n a)
          ∙ ranges-bits k m n 0 a i (find_bit-IsFirst m n 0 (omega arith)) (omega arith) u
          ∙ ground arith,
    )
