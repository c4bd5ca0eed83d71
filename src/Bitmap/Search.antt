-- ===== src/Bitmap/Search.antt =====
-- The search by words finds what a search by bits finds.
use libvzctl.Common.{
  ℕ, zero, suc, ◌+◌, ◌-◌, ◌*◌, ◌/◌, ◌%◌, ◌≤◌, ◌<◌, ◌≡◌, refl, sym, subst, inl, inr, true, false,
  ltb, leb, ◌==◌, if◌then◌else◌, arith, Bool-cases,
}
use libvzctl.OnOff.{Mask}
use libvzctl.Bitmap.{
  any_from, is_nonzero_word, skip_words, scan, do_scan, find_first_bit, from_word, find_from,
  find_bit, min,
}

-- `r` is the first set bit from `lo` on and below `hi`, or `hi` if there is none.
pub record IsFirst (m : Mask) (lo hi r : ℕ) : Type 0 where
  pub above : lo ≤ r
  pub below : r ≤ hi
  pub is_set : r < hi → m r ≡ true
  pub are_clear : (j : ℕ) → lo ≤ j → j < r → m j ≡ false

any_from-clear : (m : Mask) (i k j : ℕ) → any_from m i k ≡ false → i ≤ j → j < i + k → m j ≡ false
unfolding any_from
any_from-clear m i zero j h l u = absurd (omega arith)
any_from-clear m i (suc k) j h l u = elim (Bool-cases (j == i)) [
  | inl q ↦ ground arith
  | inr q ↦ any_from-clear m (i + 1) k j (ground arith) (ground arith) (omega arith)
]

pub any_from_none :
    (m : Mask) (i k : ℕ) → ((j : ℕ) → i ≤ j → j < i + k → m j ≡ false) → any_from m i k ≡ false
unfolding any_from
any_from_none m i zero h = refl
any_from_none m i (suc k) h = ground (
  arith,
  h i (omega arith) (omega arith),
  any_from_none m (i + 1) k (λ j l u. h j (omega arith) (omega arith)),
)

scan-IsFirst : (m : Mask) (i k : ℕ) → IsFirst m i (i + k) (scan m i k)
unfolding scan
scan-IsFirst m i zero = record {
  above = omega arith;
  below = omega arith;
  is_set = λ l. absurd (omega arith);
  are_clear = λ j l u. absurd (omega arith);
}
scan-IsFirst m i (suc k) = elim (Bool-cases (m i)) [
  | inl e ↦ record {
    above = ground arith;
    below = ground arith;
    is_set = λ l. ground arith;
    are_clear = λ j l u. absurd (ground arith);
  }
  | inr e ↦
      let r = scan-IsFirst m (i + 1) k in
      record {
        above = ground (arith, r.above);
        below = ground (arith, r.below);
        is_set = λ l. ground (arith, r.is_set);
        are_clear = λ j l u. elim (Bool-cases (j == i)) [
          | inl q ↦ ground arith
          | inr q ↦ r.are_clear j (ground arith) (ground arith)
        ];
      }
]

skip_words-scan : (m : Mask) (i k : ℕ) → skip_words m i k ≡ scan (is_nonzero_word m) i k
unfolding skip_words scan
skip_words-scan m i zero = refl
skip_words-scan m i (suc k) = ground (arith, skip_words-scan m (i + 1) k)

skip_words-IsFirst : (m : Mask) (i k : ℕ) → IsFirst (is_nonzero_word m) i (i + k) (skip_words m i k)
skip_words-IsFirst m i k =
    subst (IsFirst (is_nonzero_word m) i (i + k)) (sym (skip_words-scan m i k))
      (scan-IsFirst (is_nonzero_word m) i k)

do_scan-scan : (m : Mask) (i n : ℕ) → i < n → do_scan m i n ≡ scan m i (suc (n - (i + 1)))
unfolding do_scan scan
do_scan-scan m i n l = refl

do_scan-IsFirst : (m : Mask) (i n : ℕ) → i < n → IsFirst m i n (do_scan m i n)
do_scan-IsFirst m i n l =
    subst (λ r. IsFirst m i n r) (sym (do_scan-scan m i n l))
      (subst (λ e. IsFirst m i e (scan m i (suc (n - (i + 1))))) (omega arith)
        (scan-IsFirst m i (suc (n - (i + 1)))))

-- The bits of a word that is zero.
word-clear : (m : Mask) (i j : ℕ) → is_nonzero_word m i ≡ false → j / 64 ≡ i → m j ≡ false
unfolding is_nonzero_word
word-clear m i j h e = any_from-clear m (i * 64) 64 j h (omega arith) (omega arith)

word_none :
    (m : Mask) (i : ℕ)
    → ((j : ℕ) → i * 64 ≤ j → j < i * 64 + 64 → m j ≡ false)
    → is_nonzero_word m i ≡ false
unfolding is_nonzero_word
word_none m i h = any_from_none m (i * 64) 64 h

pub find_first_bit-IsFirst :
    (m : Mask) (nmaskbits : ℕ) → IsFirst m 0 nmaskbits (find_first_bit m nmaskbits)
unfolding find_first_bit
find_first_bit-IsFirst m nmaskbits =
    let longs = (nmaskbits + 63) / 64 in
    let i = skip_words m 0 longs in
    let w = skip_words-IsFirst m 0 longs in
    elim (Bool-cases (i == longs)) [
      | inl e ↦ record {
        above = omega arith;
        below = ground arith;
        is_set = λ l. absurd (ground arith);
        are_clear = λ j l u.
            word-clear m (j / 64) j (w.are_clear (j / 64) (omega arith) (ground arith)) refl;
      }
      | inr e ↦
          let n = min (i * 64 + 64) nmaskbits in
          let less : i * 64 < n = ground (arith, w.below) in
          let r = do_scan-IsFirst m (i * 64) n less in
          let at = do_scan m (i * 64) n in
          let same : (if i == longs then nmaskbits else at) ≡ at = rw e refl in
          record {
            above = omega arith;
            below = ground (arith, r.below);
            is_set = λ l. elim (Bool-cases (ltb at n)) [
              | inl q ↦ ground (arith, r.is_set)
              | inr q ↦
                  let inside : at < nmaskbits = subst (λ v. v < nmaskbits) same l in
                  let full : at ≡ i * 64 + 64 = ground (arith, r.below) in
                  let none = word_none m i (λ j h u. r.are_clear j h (omega (arith, full, u))) in
                  ground (arith, none, w.is_set, w.below)
            ];
            are_clear = λ j l u. elim (Bool-cases (ltb j (i * 64))) [
              | inl q ↦
                  word-clear m (j / 64) j (w.are_clear (j / 64) (omega arith) (ground arith)) refl
              | inr q ↦ r.are_clear j (ground arith) (subst (λ v. j < v) same u)
            ];
          }
    ]

find_from-IsFirst :
    (m : Mask) (nmaskbits offset : ℕ)
    → (offset < nmaskbits → offset % 64 ≡ 0)
    → offset ≤ nmaskbits
    → IsFirst m offset nmaskbits (find_from m nmaskbits offset)
unfolding find_from
find_from-IsFirst m nmaskbits offset w l =
    let r = find_first_bit-IsFirst (from_word m offset) (nmaskbits - offset) in
    let at = find_first_bit (from_word m offset) (nmaskbits - offset) in
    elim (Bool-cases (leb nmaskbits offset)) [
      | inl e ↦ record {
        above = ground arith;
        below = ground arith;
        is_set = λ u. absurd (ground arith);
        are_clear = λ j h u. absurd (ground arith);
      }
      | inr e ↦
          let same : (if leb nmaskbits offset then nmaskbits else offset + at) ≡ offset + at =
            rw e refl in
          subst (IsFirst m offset nmaskbits) (sym same) (record {
            above = omega arith;
            below = ground (arith, r.below);
            is_set = λ u.
                subst (λ v. m v ≡ true) (omega (arith, w (ground arith))) (r.is_set (ground arith));
            are_clear = λ j h u.
                subst (λ v. m v ≡ false) (omega (arith, w (ground arith), h))
                  (r.are_clear (j - offset) (omega arith) (ground arith));
          })
    ]

whole : (a n : ℕ) → a ≤ n → a + (n - a) ≡ n
whole a n l = omega arith

-- From an offset inside the mask, the search by words finds the first set bit from there on, and
-- the number of bits when there is none.
pub find_bit-IsFirst :
    (m : Mask) (nmaskbits offset : ℕ)
    → offset ≤ nmaskbits
    → IsFirst m offset nmaskbits (find_bit m nmaskbits offset)
unfolding find_bit
find_bit-IsFirst m nmaskbits offset l =
    let n = min ((offset / 64 + 1) * 64) nmaskbits in
    let at = scan m offset (n - offset) in
    let less : offset ≤ n = ground arith in
    let s =
      subst (λ e. IsFirst m offset e at) (whole offset n less)
        (scan-IsFirst m offset (n - offset)) in
    elim (Bool-cases (offset % 64 == 0)) [
      | inl e ↦
          subst (IsFirst m offset nmaskbits) (rw e refl)
            (find_from-IsFirst m nmaskbits offset (λ u. ground arith) l)
      | inr e ↦ elim (Bool-cases (ltb at n)) [
        | inl f ↦ subst (IsFirst m offset nmaskbits) (rw (e, f) refl) (record {
          above = s.above;
          below = ground (arith, s.below);
          is_set = λ u. s.is_set (ground arith);
          are_clear = s.are_clear;
        })
        | inr f ↦
            let ends : at ≡ n = ground (arith, s.below) in
            let r = find_from-IsFirst m nmaskbits at (λ u. ground arith) (ground arith) in
            subst (IsFirst m offset nmaskbits) (rw (e, f) refl) (record {
              above = ground (arith, r.above, s.above);
              below = r.below;
              is_set = r.is_set;
              are_clear = λ j h u. elim (Bool-cases (ltb j at)) [
                | inl q ↦ s.are_clear j h (ground arith)
                | inr q ↦ r.are_clear j (ground arith) u
              ];
            })
      ]
    ]
