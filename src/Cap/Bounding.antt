-- ===== src/Cap/Bounding.antt =====
-- Dropping capabilities from the bounding set, and asking for a set of capabilities.
use libvzctl.Common.{
  some, none, ◌⊎◌, ◌≢◌, ℕ, zero, suc, ◌+◌, ◌≤◌, ◌<◌, ◌≡◌, inl, inr, refl, Bool, true, false, ◌||◌,
  List, [], ◌∷◌, arith, All, ◌==◌, Bool-cases,
}
use libvzctl.OnOff.{Mask}
use libvzctl.Cap.{
  env_set_cap, default_mask_upstream, apply_bound, bound_failed, bound_unsupported, CapParam,
  make_cap_mask, default_mask, Drop, dropped, drop_inval, drop_failed, Bound, bound_set, on_drop,
  drop_from, set_cap_bound, ask_cap, env_get_cap,
}

on_drop-kept :
    (mask : Mask) (i : ℕ) (d : Drop) (rest : Bound × List ℕ)
    → mask i ≡ false
    → All (λ j. mask j ≡ false) rest.1
    → All (λ j. mask j ≡ false) (on_drop i d rest).1
unfolding on_drop
on_drop-kept mask i dropped rest m h = (m, h)
on_drop-kept mask i drop_inval rest m h = elim (Bool-cases (i == 0)) [
  | inl y ↦ rw (y, on_drop) tt
  | inr n ↦ rw (n, on_drop) tt
]
on_drop-kept mask i drop_failed rest m h = elim (Bool-cases (i == 0)) [
  | inl y ↦ rw (y, on_drop) tt
  | inr n ↦ rw (n, on_drop) tt
]

drop_from-kept :
    (drop : ℕ → Drop) (mask : Mask) (n i : ℕ)
    → All (λ j. mask j ≡ false) (drop_from drop mask n i).1
unfolding drop_from on_drop
drop_from-kept drop mask zero i = tt
drop_from-kept drop mask (suc n) i = elim (Bool-cases (mask i)) [
  | inl y ↦ rw (y, drop_from) (drop_from-kept drop mask n (i + 1))
  | inr m ↦
      rw (m, drop_from)
        (on_drop-kept mask i (drop i) (drop_from drop mask n (i + 1)) m
          (drop_from-kept drop mask n (i + 1)))
]

-- `set_cap_bound` drops no capability of the mask.
pub set_cap_bound-kept :
    (drop : ℕ → Drop) (mask : Mask) → All (λ j. mask j ≡ false) (set_cap_bound drop mask).1
unfolding set_cap_bound
set_cap_bound-kept drop mask = drop_from-kept drop mask 64 0

-- Whether a list of capabilities has one.
abbrev pub has : List ℕ → ℕ → Bool
has [] j = false
has (i ∷ is) j = i == j || has is j

on_drop_set :
    (i : ℕ) (d : Drop) (rest : Bound × List ℕ)
    → (on_drop i d rest).0 ≡ bound_set
    → (d ≡ drop_inval) ⊎ (rest.0 ≡ bound_set) × ((on_drop i d rest).1 ≡ i ∷ rest.1)
unfolding on_drop
on_drop_set i dropped rest h = inr (h, refl)
on_drop_set i drop_inval rest h = inl refl
on_drop_set i drop_failed rest h = absurd (ground arith)

drop_from-drops :
    (drop : ℕ → Drop) (mask : Mask) (n i : ℕ)
    → (drop_from drop mask n i).0 ≡ bound_set
    → (e : ℕ) × (i ≤ e)
      × (e < i + n)
      × (drop e ≡ drop_inval)
      × ((j : ℕ) → i ≤ j → j < e → mask j ≡ false → has (drop_from drop mask n i).1 j ≡ true)
unfolding drop_from on_drop
drop_from-drops drop mask zero i h = absurd (ground arith)
drop_from-drops drop mask (suc n) i h = elim (Bool-cases (mask i)) [
  | inl y ↦
      let (e, a, b, c, d) = drop_from-drops drop mask n (i + 1) (ground arith) in
      (
        e,
        omega arith,
        omega arith,
        c,
        λ j p q m. rw (y, drop_from) (d j (later j p (ground arith)) q m),
      )
  | inr m ↦ elim (on_drop_set i (drop i) (drop_from drop mask n (i + 1)) (ground arith)) [
    | inl v ↦ (i, omega arith, omega arith, v, λ j p q z. absurd (omega arith))
    | inr (r, l) ↦
        let (e, a, b, c, d) = drop_from-drops drop mask n (i + 1) r in
        (e, omega arith, omega arith, c, λ j p q z. rw (m, drop_from) (rw l (ground (arith, d j))))
  ]
]
  where
    later : (j : ℕ) → i ≤ j → i ≢ j → i + 1 ≤ j
    later j a b = omega arith

-- When `set_cap_bound` returns 0, the kernel refused some capability below 64 with EINVAL, and every
-- capability below that one is dropped if it is not in the mask.
pub set_cap_bound-drops :
    (drop : ℕ → Drop) (mask : Mask)
    → (set_cap_bound drop mask).0 ≡ bound_set
    → (e : ℕ) × (e < 64)
      × (drop e ≡ drop_inval)
      × ((j : ℕ) → j < e → mask j ≡ false → has (set_cap_bound drop mask).1 j ≡ true)
unfolding set_cap_bound
set_cap_bound-drops drop mask h =
    let (e, a, b, c, d) = drop_from-drops drop mask 64 0 h in
    (e, b, c, λ j p q. d j (omega arith) p q)

-- Asking for a set of capabilities below 32, for a container with the default ones, and reading it
-- back gives that set.
pub env_get_cap-ask :
    (h : CapParam) (capmask : Mask) (k : ℕ)
    → make_cap_mask default_mask h.on h.off k ≡ default_mask k
    → k < 32
    → env_get_cap (ask_cap h capmask) k ≡ capmask k
unfolding env_get_cap ask_cap make_cap_mask
env_get_cap-ask h capmask k d b = ground arith

-- When `env_set_cap` returns 0, the mask that it gives `capset` is the default one for a host with the
-- asked bits changed, and no capability of it was dropped before. When it returns an error, `capset`
-- has set nothing.
pub env_set_cap_outcome :
    (drop : ℕ → Drop) (known done : Bool) (cap : CapParam)
    → ((env_set_cap drop known done cap).0 ≡ some 0)
        × ((env_set_cap drop known done cap).2
            ≡ some (make_cap_mask default_mask_upstream cap.on cap.off))
        × All
            (λ j. make_cap_mask default_mask_upstream cap.on cap.off j ≡ false)
            (env_set_cap drop known done cap).1
      ⊎ ((env_set_cap drop known done cap).0 ≢ some 0)
        × ((env_set_cap drop known done cap).2 ≡ none)
unfolding env_set_cap
env_set_cap_outcome drop known done cap =
    let mask = make_cap_mask default_mask_upstream cap.on cap.off in
    applied (set_cap_bound drop mask) known done mask (set_cap_bound-kept drop mask)
  where
    applied :
        (p : Bound × List ℕ) (k d : Bool) (mask : Mask)
        → All (λ j. mask j ≡ false) p.1
        → ((apply_bound k d p mask).0 ≡ some 0)
            × ((apply_bound k d p mask).2 ≡ some mask)
            × All (λ j. mask j ≡ false) (apply_bound k d p mask).1
          ⊎ ((apply_bound k d p mask).0 ≢ some 0) × ((apply_bound k d p mask).2 ≡ none)
    applied (bound_failed, l) k d mask h = inr (ground arith, refl)
    applied (bound_set, l) true true mask h = inl (refl, refl, h)
    applied (bound_set, l) true false mask h = inr (ground arith, refl)
    applied (bound_set, l) false d mask h = inr (ground arith, refl)
    applied (bound_unsupported, l) true true mask h = inl (refl, refl, h)
    applied (bound_unsupported, l) true false mask h = inr (ground arith, refl)
    applied (bound_unsupported, l) false d mask h = inr (ground arith, refl)
