-- ===== src/Bitmap/Text/Print.antt =====
-- What `bitmap_snprintf` prints.
use libvzctl.Common.{
  ℕ, zero, suc, ◌+◌, ◌-◌, ◌*◌, ◌<◌, ◌≡◌, refl, sym, subst, ap, ◌∙◌, true, inl, inr, Bool-cases,
  List, [], ◌∷◌, ◌++◌, append-nil, append_assoc, ltb, ◌==◌, if◌then◌else◌, arith, Str, length,
  length-append, take,
}
use libvzctl.Bitmap.{find_bit, find_zero_bit}
use libvzctl.Bitmap.Text.Digits.{starts-decimal}
use libvzctl.Bitmap.Text.{bitmap_snprintf, decimal, starts_digit, print_from, put, range_text}
use libvzctl.OnOff.{Mask}

-- The ranges of set bits from the one at `a` on.
unfoldable pub ranges : ℕ → Mask → ℕ → ℕ → List (ℕ × ℕ)
ranges zero m n a = []
ranges (suc k) m n a =
    let b = find_zero_bit m n (a + 1) - 1 in
    let rest = ranges k m n (find_bit m n (b + 1)) in if ltb a n then (a, b) ∷ rest else []

-- The text of ranges behind others, and of ranges at the start.
abbrev pub tail_text : List (ℕ × ℕ) → Str
tail_text [] = []
tail_text ((a, b) ∷ rs) = b',' ∷ (range_text a b ++ tail_text rs)

abbrev pub text_of : List (ℕ × ℕ) → Str
text_of [] = []
text_of ((a, b) ∷ rs) = range_text a b ++ tail_text rs

take-append : (k : ℕ) (s t : Str) → take k s ++ take (k - length s) t ≡ take k (s ++ t)
take-append zero s t = ground arith
take-append (suc k) [] t = ground arith
take-append (suc k) (c ∷ s) t = ground (arith, take-append k s t)

-- The buffer and `len` when the text `t` is printed.
abbrev pub printed : ℕ → Str → Str × ℕ
printed buflen t = (take (buflen - 1) t, length t)

put-printed : (buflen : ℕ) (s t : Str) → put buflen s (printed buflen t) ≡ printed buflen (t ++ s)
unfolding put
put-printed buflen s t =
    ground
      (arith, take-append (buflen - 1) t s, length-append t s, ap (λ k. take k s) (swap (length t)))
  where
    swap : (l : ℕ) → buflen - l - 1 ≡ buflen - 1 - l
    swap l = omega arith

-- A range starts with a digit.
pub starts-range : (a b : ℕ) (s : Str) → starts_digit (range_text a b ++ s) ≡ true
unfolding range_text
starts-range a b s = elim (Bool-cases (a == b)) [
  | inl e ↦ rw e (starts-decimal a s)
  | inr e ↦ rw e (
      subst (λ t. starts_digit t ≡ true) (sym (append_assoc (decimal a) (b'-' ∷ decimal b) s))
        (starts-decimal a (b'-' ∷ decimal b ++ s)))
]

length_pos : (s : Str) → starts_digit s ≡ true → 0 < length s
unfolding starts_digit
length_pos [] h = absurd (ground arith)
length_pos (c ∷ s) h = omega arith

length_range : (a b : ℕ) → 0 < length (range_text a b)
length_range a b =
    length_pos (range_text a b)
      (subst (λ t. starts_digit t ≡ true) (append-nil (range_text a b)) (starts-range a b []))

-- The loop behind other ranges.
print_from-tail :
    (k buflen : ℕ) (m : Mask) (n a : ℕ) (t : Str)
    → 0 < length t
    → print_from k buflen m n a (printed buflen t)
      ≡ printed buflen (t ++ tail_text (ranges k m n a))
unfolding print_from ranges
print_from-tail zero buflen m n a t h = ap (printed buflen) (sym (append-nil t))
print_from-tail (suc k) buflen m n a t h =
    let b = find_zero_bit m n (a + 1) - 1 in
    let range = range_text a b in
    let next = find_bit m n (b + 1) in
    elim (Bool-cases (ltb a n)) [
      | inr e ↦ rw e (ap (printed buflen) (sym (append-nil t)))
      | inl e ↦
          let comma : ltb 0 (length t) ≡ true = ground arith in
          rw (e, comma)
            (ap (λ st. print_from k buflen m n next (put buflen range st))
                (put-printed buflen (b',' ∷ []) t)
              ∙ ap (print_from k buflen m n next) (put-printed buflen range (t ++ b',' ∷ []))
              ∙ print_from-tail k buflen m n next ((t ++ b',' ∷ []) ++ range) (
                  ground (arith, length-append (t ++ b',' ∷ []) range, length-append t (b',' ∷ [])))
              ∙ ap (printed buflen) (
                  append_assoc (t ++ b',' ∷ []) range (tail_text (ranges k m n next))
                  ∙ append_assoc t (b',' ∷ []) (range ++ tail_text (ranges k m n next))))
    ]

print_from-text :
    (k buflen : ℕ) (m : Mask) (n a : ℕ)
    → print_from k buflen m n a (printed buflen []) ≡ printed buflen (text_of (ranges k m n a))
unfolding print_from ranges
print_from-text zero buflen m n a = refl
print_from-text (suc k) buflen m n a =
    let b = find_zero_bit m n (a + 1) - 1 in
    let range = range_text a b in
    let next = find_bit m n (b + 1) in
    elim (Bool-cases (ltb a n)) [
      | inr e ↦ rw e refl
      | inl e ↦ rw e (
          ap (print_from k buflen m n next) (put-printed buflen range [])
          ∙ print_from-tail k buflen m n next range (length_range a b))
    ]

-- The text of a mask.
abbrev pub mask_text : Mask → ℕ → Str
mask_text m size = text_of (ranges (suc (size * 8)) m (size * 8) (find_bit m (size * 8) 0))

-- The buffer gets the text of the mask as far as it fits, and the length of the whole text is
-- returned.
pub bitmap_snprintf-text :
    (buflen : ℕ) (m : Mask) (size : ℕ)
    → bitmap_snprintf buflen m size
      ≡ (take (buflen - 1) (mask_text m size), length (mask_text m size))
unfolding bitmap_snprintf
bitmap_snprintf-text buflen m size =
    ap (λ s. print_from (suc (size * 8)) buflen m (size * 8) (find_bit m (size * 8) 0) (s, 0))
      (sym (take_nil (buflen - 1)))
    ∙ print_from-text (suc (size * 8)) buflen m (size * 8) (find_bit m (size * 8) 0)
  where
    take_nil : (k : ℕ) → take {A = ℕ} k [] ≡ []
    take_nil zero = refl
    take_nil (suc k) = refl
