-- ===== src/Tech/Order.antt =====
-- The comparison of version strings, and the technologies that follow from it.
use libvzctl.Common.{
  subst, sym, ap, ◌≤◌, ℕ, zero, suc, ◌<◌, ◌≡◌, ◌∙◌, refl, inl, inr, Bool, true, false, not, ◌&&◌,
  ◌||◌, Option, [], ◌∷◌, arith, Str, length, if◌then◌else◌, Bool-cases,
}
use libvzctl.OnOff.{Mask, set_bit}
use libvzctl.Tech.{
  check_tech, supported_tech, is_digit, is_alpha, skip_block, digits, Sign, less, same, more,
  cmp_nat, cmp_bytes, cmp_digits, cmp_alpha, starts_alpha, cmp_block, cmp_found, ver_cmp_from,
  ver_cmp,
}

cmp_nat_refl : (a : ℕ) → cmp_nat a a ≡ same
unfolding cmp_nat
cmp_nat_refl a = ground arith

cmp_bytes_refl : (s : Str) → cmp_bytes s s ≡ same
unfolding cmp_bytes
cmp_bytes_refl [] = refl
cmp_bytes_refl (c ∷ s) = rw (cmp_nat_refl c, cmp_bytes) (cmp_bytes_refl s)

cmp_digits_refl : (s : Str) → cmp_digits s s ≡ same
unfolding cmp_digits
cmp_digits_refl s = rw (cmp_nat_refl (length s), cmp_digits) (cmp_bytes_refl s)

cmp_alpha_refl : (s : Str) → (r : Str) × (cmp_alpha s s ≡ (same, r, r))
unfolding cmp_alpha starts_alpha
cmp_alpha_refl [] = ([], refl)
cmp_alpha_refl (c ∷ s) = elim (Bool-cases (is_alpha c)) [
  | inl y ↦ let (r, e) = cmp_alpha_refl s in (r, rw (y, cmp_alpha) (rw (cmp_nat_refl c) e))
  | inr n ↦ (c ∷ s, rw (n, cmp_alpha) refl)
]

cmp_block_refl :
    (c : ℕ) (s : Str)
    → (is_digit c || is_alpha c) ≡ true
    → (r : Str) × (cmp_block c s c s ≡ (same, r, r))
unfolding cmp_block
cmp_block_refl c s h = elim (Bool-cases (is_digit c)) [
  | inl y ↦ (
    (digits (c ∷ s)).1,
    block y
        ∙ ap (λ g. (g, (digits (c ∷ s)).1, (digits (c ∷ s)).1))
            (cmp_digits_refl (digits (c ∷ s)).0),
  )
  | inr n ↦ let (r, e) = cmp_alpha_refl (c ∷ s) in (r, letters n (ground arith) ∙ e)
]
  where
    block :
        is_digit c ≡ true
        → cmp_block c s c s ≡ (
          cmp_digits (digits (c ∷ s)).0 (digits (c ∷ s)).0,
          (digits (c ∷ s)).1,
          (digits (c ∷ s)).1,
        )
    block y = unfold cmp_block in rw y refl

    letters : is_digit c ≡ false → is_alpha c ≡ true → cmp_block c s c s ≡ cmp_alpha (c ∷ s) (c ∷ s)
    letters n a = unfold cmp_block in ground arith

skip_block_head :
    (s : Str) (c : ℕ) (r : Str) → skip_block s ≡ c ∷ r → (is_digit c || is_alpha c) ≡ true
unfolding skip_block
skip_block_head [] c r e = absurd (ground arith)
skip_block_head (d ∷ s) c r e = ground (arith, skip_block_head s c r)

cmp_found_refl :
    (b : Str) (rest : Str → Str → Sign)
    → ((c : ℕ) (r : Str) → b ≡ c ∷ r → (is_digit c || is_alpha c) ≡ true)
    → ((q : Str) → rest q q ≡ same)
    → cmp_found b b rest ≡ same
unfolding cmp_found
cmp_found_refl [] rest h k = refl
cmp_found_refl (c ∷ r) rest h k =
    let (q, f) = cmp_block_refl c r (h c r refl) in go (cmp_block c r c r) q f (k q)
  where
    go :
        (p : Sign × Str × Str) (q : Str)
        → p ≡ (same, q, q)
        → rest q q ≡ same
        → (elim p.0 [ less ↦ less | same ↦ rest p.1 p.2 | more ↦ more ]) ≡ same
    go p q f e =
        subst (λ x. (elim x.0 [ less ↦ less | same ↦ rest x.1 x.2 | more ↦ more ]) ≡ same) (sym f) e

ver_cmp_from_refl : (n : ℕ) (s : Str) → ver_cmp_from n s s ≡ same
unfolding ver_cmp_from
ver_cmp_from_refl zero s = refl
ver_cmp_from_refl (suc n) s =
    cmp_found_refl (skip_block s) (ver_cmp_from n) (skip_block_head s) (ver_cmp_from_refl n)

-- A version string is the same as itself.
pub ver_cmp_refl : (s : Str) → ver_cmp s s ≡ same
unfolding ver_cmp
ver_cmp_refl s = ver_cmp_from_refl (suc (length s)) s

length-digits : (s : Str) → length (digits s).1 ≤ length s
unfolding digits
length-digits [] = ground arith
length-digits (c ∷ s) = ground (arith, length-digits s)

length-cmp_alpha : (s t : Str) → length (cmp_alpha s t).1 ≤ length s
unfolding cmp_alpha
length-cmp_alpha [] t = ground arith
length-cmp_alpha (c ∷ s) [] = ground arith
length-cmp_alpha (c ∷ s) (d ∷ t) = ground (arith, length-cmp_alpha s t)

-- A round that goes on takes at least one byte.
length-cmp_block :
    (c : ℕ) (s : Str) (d : ℕ) (t : Str)
    → (is_digit c || is_alpha c) ≡ true
    → (cmp_block c s d t).0 ≡ same
    → length (cmp_block c s d t).1 ≤ length s
unfolding cmp_block digits cmp_alpha
length-cmp_block c s d t h e = ground (arith, length-digits s, length-cmp_alpha s t)

length-skip_block : (s : Str) → length (skip_block s) ≤ length s
unfolding skip_block
length-skip_block [] = ground arith
length-skip_block (c ∷ s) = ground (arith, length-skip_block s)

cmp_found_ext :
    (b b' : Str) (rest more_rest : Str → Str → Sign)
    → ((c : ℕ) (r : Str) → b ≡ c ∷ r → (is_digit c || is_alpha c) ≡ true)
    → ((s t : Str) → length s < length b → rest s t ≡ more_rest s t)
    → cmp_found b b' rest ≡ cmp_found b b' more_rest
unfolding cmp_found
cmp_found_ext [] [] rest more_rest h k = refl
cmp_found_ext [] (d ∷ t) rest more_rest h k = refl
cmp_found_ext (c ∷ s) [] rest more_rest h k = refl
cmp_found_ext (c ∷ s) (d ∷ t) rest more_rest h k =
    go (cmp_block c s d t) (length-cmp_block c s d t (h c s refl))
  where
    go :
        (p : Sign × Str × Str)
        → (p.0 ≡ same → length p.1 ≤ length s)
        → (elim p.0 [ less ↦ less | same ↦ rest p.1 p.2 | more ↦ more ])
          ≡ (elim p.0 [ less ↦ less | same ↦ more_rest p.1 p.2 | more ↦ more ])
    go (less, x, y) l = refl
    go (more, x, y) l = refl
    go (same, x, y) l = k x y (let z = l refl in omega arith)

ver_cmp_from_fuel :
    (n m : ℕ) (s t : Str) → length s < n → length s < m → ver_cmp_from n s t ≡ ver_cmp_from m s t
unfolding ver_cmp_from
ver_cmp_from_fuel zero m s t a b = absurd (omega arith)
ver_cmp_from_fuel (suc n) zero s t a b = absurd (omega arith)
ver_cmp_from_fuel (suc n) (suc m) s t a b =
    cmp_found_ext (skip_block s) (skip_block t) (ver_cmp_from n) (ver_cmp_from m)
      (skip_block_head s)
      (λ x y l.
        ver_cmp_from_fuel n m x y (omega (arith, length-skip_block s))
          (omega (arith, length-skip_block s)))

-- The fuel that `ver_cmp` is given is enough: more rounds give the same result, and what the loop
-- computes is its own next round.
pub ver_cmp_step :
    (s t : Str)
    → ((n : ℕ) → length s < n → ver_cmp_from n s t ≡ ver_cmp s t)
      × (ver_cmp s t ≡ cmp_found (skip_block s) (skip_block t) ver_cmp)
unfolding ver_cmp
ver_cmp_step s t = (
  (λ n a. ver_cmp_from_fuel n (suc (length s)) s t a (omega arith)),
  unfold ver_cmp_from in
      cmp_found_ext (skip_block s) (skip_block t) (ver_cmp_from (length s)) ver_cmp
        (skip_block_head s)
        (λ x y l.
          ver_cmp_from_fuel (length s) (suc (length x)) x y (omega (arith, length-skip_block s))
            (omega arith)),
)

-- `vzctl2_check_tech` returns bits of the mask that the kernel does not support.
pub check_tech-bits :
    (uts : Option (Str × Str)) (mask : Mask) (k : ℕ)
    → check_tech uts mask k ≡ true
    → (mask k ≡ true) × (supported_tech uts k ≡ false)
unfolding check_tech
check_tech-bits uts mask k e = elim (Bool-cases (supported_tech uts 1)) [
  | inl y ↦ more_bits (supported_tech uts) (mask k) y e
  | inr n ↦ fewer_bits (supported_tech uts) (mask k) n e
]
  where
    more_bits :
        (p : Mask) (m : Bool)
        → p 1 ≡ true
        → (m && not ((if p 1 then set_bit p 0 else p) k)) ≡ true
        → (m ≡ true) × (p k ≡ false)
    more_bits p m y = rw y (λ f. (ground arith, ground arith))

    fewer_bits :
        (p : Mask) (m : Bool)
        → p 1 ≡ false
        → (m && not ((if p 1 then set_bit p 0 else p) k)) ≡ true
        → (m ≡ true) × (p k ≡ false)
    fewer_bits p m n = rw n (λ f. (ground arith, ground arith))
