-- ===== src/Disk/Text/Split.antt =====
-- Splitting a text at separators, and the buffer of `disk2str`.
use libvzctl.Common.{
  ℕ, suc, ◌+◌, zero, ◌*◌, ◌/◌, ◌%◌, ◌^◌, ◌<◌, ◌≤◌, ◌≡◌, refl, ap, ◌∙◌, sym, true, false, List, [],
  ◌∷◌, ◌++◌, append-nil, append_assoc, Str, length, length-append, arith, ltb,
}
use libvzctl.Names.{has_byte}
use libvzctl.Bitmap.Text.{decimal, decimal_from, is_decimal}
use libvzctl.Disk.Text.{split, emit, drop_last, buf_size}

unfoldable pub concat : List Str → Str
concat [] = []
concat (p ∷ ps) = p ++ concat ps

pub concat-append : (ps qs : List Str) → concat (ps ++ qs) ≡ concat ps ++ concat qs
unfolding concat
concat-append [] qs = refl
concat-append (p ∷ ps) qs =
    ap (λ t. p ++ t) (concat-append ps qs) ∙ sym (append_assoc p (concat ps) (concat qs))

-- A part that holds no separator.
pub split_alone : (sep : ℕ) (t : Str) → has_byte t sep ≡ false → split sep t ≡ t ∷ []
unfolding split has_byte
split_alone sep [] h = refl
split_alone sep (c ∷ t) h = ground (arith, split_alone sep t)

pub split-part :
    (sep : ℕ) (t s : Str) → has_byte t sep ≡ false → split sep (t ++ sep ∷ s) ≡ t ∷ split sep s
unfolding split has_byte
split-part sep [] s h = ground arith
split-part sep (c ∷ t) s h = ground (arith, split-part sep t s)

pub has_byte-append :
    (a b : Str) (c : ℕ) → has_byte a c ≡ false → has_byte b c ≡ false → has_byte (a ++ b) c ≡ false
unfolding has_byte
has_byte-append [] b c ha hb = hb
has_byte-append (x ∷ a) b c ha hb = ground (arith, has_byte-append a b c)

ltb_of_add : (a b c n : ℕ) → c ≡ a + b → c < n → ltb a n ≡ true
ltb_of_add a b c n e l = ground arith

-- A text that fits is printed whole.
pub emit-fits :
    (buf : Str) (ps : List Str)
    → length (buf ++ concat ps) < buf_size
    → emit buf ps ≡ (buf ++ concat ps, true)
unfolding emit concat
emit-fits buf [] h = ap (λ t. (t, true)) (sym (append-nil buf))
emit-fits buf (p ∷ ps) h =
    let same : (buf ++ p) ++ concat ps ≡ buf ++ (p ++ concat ps) = append_assoc buf p (concat ps) in
    let l : length ((buf ++ p) ++ concat ps) < buf_size = rw same h in
    let fits : ltb (length (buf ++ p)) buf_size ≡ true =
      ltb_of_add (length (buf ++ p)) (length (concat ps)) _ _
        (length-append {0} (buf ++ p) (concat ps)) l in
    rw fits (emit-fits (buf ++ p) ps l ∙ ap (λ t. (t, true)) same)

pub drop_last-end : (s : Str) → drop_last (s ++ b';' ∷ []) ≡ s
unfolding drop_last
drop_last-end [] = refl
drop_last-end (c ∷ []) = refl
drop_last-end (c ∷ e ∷ s) = ap (λ t. c ∷ t) (drop_last-end (e ∷ s))

pub drop_last-more :
    (t : Str) (c : ℕ) (s : Str) → drop_last (t ++ b';' ∷ c ∷ s) ≡ t ++ b';' ∷ drop_last (c ∷ s)
unfolding drop_last
drop_last-more [] c s = refl
drop_last-more (d ∷ []) c s = refl
drop_last-more (d ∷ e ∷ t) c s = ap (λ u. d ∷ u) (drop_last-more (e ∷ t) c s)

-- The digits of a number hold no separator.
no_byte-decimal_from : (k n c : ℕ) → is_decimal c ≡ false → has_byte (decimal_from k n) c ≡ false
unfolding decimal_from has_byte is_decimal
no_byte-decimal_from zero n c h = refl
no_byte-decimal_from (suc k) n c h = ground (
  arith,
  has_byte-append (decimal_from k (n / 10)) ((b'0' + n % 10) ∷ []) c,
  no_byte-decimal_from k (n / 10) c h,
)

pub no_byte-decimal : (n c : ℕ) → is_decimal c ≡ false → has_byte (decimal n) c ≡ false
unfolding decimal
no_byte-decimal n c h = no_byte-decimal_from (suc n) n c h

tens : ℕ → ℕ
tens zero = 1
tens (suc j) = 10 * tens j

length-decimal_from : (j k n : ℕ) → n < tens (suc j) → length (decimal_from k n) ≤ suc j
unfolding decimal_from tens
length-decimal_from j zero n h = omega arith
length-decimal_from zero (suc k) n h = ground arith
length-decimal_from (suc j) (suc k) n h = ground (
  arith,
  length-append {0} (decimal_from k (n / 10)) ((b'0' + n % 10) ∷ []),
  length-decimal_from j k (n / 10) (omega (arith, h)),
)

-- A number of 64 bits has at most 20 digits.
pub length-decimal : (n : ℕ) → n < 2 ^ 64 → length (decimal n) ≤ 20
unfolding decimal
length-decimal n h = length-decimal_from 19 (suc n) n (unfold tens in omega (arith, h))
