-- ===== src/Bitmap/Text/Digits.antt =====
-- A number that is printed is read as it was.
use libvzctl.Common.{
  ℕ, zero, suc, ◌+◌, ◌*◌, ◌/◌, ◌%◌, ◌^◌, ◌<◌, ◌≡◌, refl, sym, subst, ◌∙◌, ap, append_assoc, true,
  false, [], ◌∷◌, ◌++◌, ltb, arith, inl, inr, Bool-cases, Str,
}
use libvzctl.Bitmap.Text.{decimal, decimal_from, is_decimal, read_digits, starts_digit, strtoul}

-- The number ends with its text: no digit stands behind it.
abbrev pub IsEnd : Str → Type 0
IsEnd s = starts_digit s ≡ false

read_end : (n : ℕ) (s : Str) → IsEnd s → read_digits n s ≡ (n, s)
unfolding read_digits starts_digit
read_end n [] h = refl
read_end n (c ∷ s) h = ground arith

read_digit :
    (n d : ℕ) (s : Str) → d < 10 → read_digits n ((b'0' + d) ∷ s) ≡ read_digits (n * 10 + d) s
unfolding read_digits is_decimal
read_digit n d s l = ground arith

read-decimal_from :
    (k n : ℕ) (s : Str) → n < k → read_digits 0 (decimal_from k n ++ s) ≡ read_digits n s
unfolding decimal_from
read-decimal_from zero n s l = absurd (omega arith)
read-decimal_from (suc k) n s l = elim (Bool-cases (ltb n 10)) [
  | inl e ↦ rw e (read_digit 0 n s (ground arith) ∙ ap (λ v. read_digits v s) (omega arith))
  | inr e ↦ rw e (
      ap (read_digits 0) (append_assoc (decimal_from k (n / 10)) ((b'0' + n % 10) ∷ []) s)
      ∙ read-decimal_from k (n / 10) ((b'0' + n % 10) ∷ s) (ground arith)
      ∙ read_digit (n / 10) (n % 10) s (omega arith)
      ∙ ap (λ v. read_digits v s) (omega arith))
]

pub read_digits-decimal : (n : ℕ) (s : Str) → IsEnd s → read_digits 0 (decimal n ++ s) ≡ (n, s)
unfolding decimal
read_digits-decimal n s h = read-decimal_from (suc n) n s (omega arith) ∙ read_end n s h

pub strtoul-decimal :
    (n : ℕ) (s : Str) → n < 2 ^ 64 → IsEnd s → strtoul (decimal n ++ s) ≡ (n, false, s)
unfolding strtoul
strtoul-decimal n s l h = rw (read_digits-decimal n s h) (ground arith)

starts-decimal_from : (k n : ℕ) (s : Str) → starts_digit (decimal_from (suc k) n ++ s) ≡ true
unfolding decimal_from starts_digit is_decimal
starts-decimal_from zero n s = elim (Bool-cases (ltb n 10)) [
  | inl e ↦ ground arith
  | inr e ↦ ground arith
]
starts-decimal_from (suc k) n s = elim (Bool-cases (ltb n 10)) [
  | inl e ↦ ground arith
  | inr e ↦ rw e (
      subst (λ t. starts_digit t ≡ true)
        (sym (append_assoc (decimal_from (suc k) (n / 10)) ((b'0' + n % 10) ∷ []) s))
        (starts-decimal_from k (n / 10) ((b'0' + n % 10) ∷ s)))
]

-- The text of a number starts with a digit.
pub starts-decimal : (n : ℕ) (s : Str) → starts_digit (decimal n ++ s) ≡ true
unfolding decimal
starts-decimal n s = starts-decimal_from n n s
