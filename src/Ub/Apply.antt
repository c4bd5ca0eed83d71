-- ===== src/Ub/Apply.antt =====
-- Passing the limits to the kernel, and the checks on a set of limits.
use libvzctl.Common.{
  ℕ, ◌≤◌, ◌≡◌, ◌≢◌, ◌↔◌, inl, inr, refl, Bool, true, none, some, List, [], ◌∷◌, arith, All,
  if◌then◌else◌, leb, false, ◌==◌, ◌||◌, ap, sym, ◌∙◌, Bool-cases, Option-cases,
}
use libvzctl.Common.Errors.{e_setubc, e_not_enough_params}
use mathlib.Core.List.{Mem, mem-cons}
use mathlib.Core.Logic.Or
use libvzctl.Ub.Fields.{param_id_inj}
use libvzctl.Ub.{
  Res, UbField, UbParam, is_null, param_id, lockedpages, privvmpages, shmpages, numproc, physpages,
  vmguarpages, numtcpsock, numflock, numpty, numsiginfo, tcpsndbuf, tcprcvbuf, othersockbuf,
  dgramrcvbuf, numothersock, numfile, numiptent, swappages, avnumproc, num_memory_subgroups,
  limit_fields, required_fields, check_from, check_ub, empty_from, is_ub_empty, UbCall, setublimit,
  long_max, ub_id, set_fields, set_ub,
}

-- The system calls for the limits that are set, in order.
abbrev pub wanted : (UbField → ℕ) → UbParam → List UbField → List UbCall
wanted kid ub [] = []
wanted kid ub (f ∷ fs) = elim (ub.field f) [
  | none ↦ wanted kid ub fs
  | some res ↦ setublimit (ub_id kid f) res ∷ wanted kid ub fs
]

-- The calls up to the first that fails, and whether there is one.
abbrev pub until : (UbCall → Bool) → List UbCall → ℕ × List UbCall
until fails [] = (0, [])
until fails (c ∷ cs) =
    let rest = until fails cs in if fails c then (e_setubc, c ∷ []) else (rest.0, c ∷ rest.1)

set_fields-until :
    (kid : UbField → ℕ) (fails : UbCall → Bool) (ub : UbParam) (fs : List UbField)
    → set_fields kid fails ub fs ≡ until fails (wanted kid ub fs)
unfolding set_fields
set_fields-until kid fails ub [] = refl
set_fields-until kid fails ub (f ∷ fs) = elim (Option-cases (ub.field f)) [
  | inl n ↦ ground (arith, set_fields-until kid fails ub fs)
  | inr (r, e) ↦ ground (arith, set_fields-until kid fails ub fs)
]

-- `set_ub` makes the calls for the limits that are set, in the order of its fields, and stops at the
-- first call that fails, with VZCTL_E_SETUBC.
pub set_ub-until :
    (kid : UbField → ℕ) (fails : UbCall → Bool) (ub : UbParam)
    → set_ub kid fails ub ≡ until fails (wanted kid ub limit_fields)
unfolding set_ub
set_ub-until kid fails ub = set_fields-until kid fails ub limit_fields

-- No limit above LONG_MAX is passed to the kernel.
abbrev pub IsBounded : UbCall → Type 0
IsBounded c = (c.limit.b ≤ long_max) × (c.limit.l ≤ long_max)

setublimit-IsBounded : (id : ℕ) (r : Res) → IsBounded (setublimit id r)
unfolding setublimit
setublimit-IsBounded id r = (ground arith, ground arith)

set_fields-IsBounded :
    (kid : UbField → ℕ) (fails : UbCall → Bool) (ub : UbParam) (fs : List UbField)
    → All IsBounded (set_fields kid fails ub fs).1
unfolding set_fields
set_fields-IsBounded kid fails ub [] = tt
set_fields-IsBounded kid fails ub (f ∷ fs) = elim (Option-cases (ub.field f)) [
  | inl n ↦ rw (n, set_fields) (set_fields-IsBounded kid fails ub fs)
  | inr (r, e) ↦ elim (Bool-cases (fails (setublimit (ub_id kid f) r))) [
    | inl y ↦ rw (e, y, set_fields) (setublimit-IsBounded (ub_id kid f) r, tt)
    | inr n ↦
        rw (e, n, set_fields)
          (setublimit-IsBounded (ub_id kid f) r, set_fields-IsBounded kid fails ub fs)
  ]
]

-- No call of `set_ub` passes a barrier or a limit above LONG_MAX to the kernel.
pub set_ub-IsBounded :
    (kid : UbField → ℕ) (fails : UbCall → Bool) (ub : UbParam)
    → All IsBounded (set_ub kid fails ub).1
unfolding set_ub
set_ub-IsBounded kid fails ub = set_fields-IsBounded kid fails ub limit_fields

empty_from-set_fields :
    (kid : UbField → ℕ) (fails : UbCall → Bool) (ub : UbParam) (fs : List UbField)
    → (empty_from ub fs ≡ true) ↔ ((set_fields kid fails ub fs).1 ≡ [])
unfolding empty_from set_fields is_null
empty_from-set_fields kid fails ub [] = ground arith
empty_from-set_fields kid fails ub (f ∷ fs) = ground (arith, empty_from-set_fields kid fails ub fs)

-- The limits are empty for `is_ub_empty` exactly if `set_ub` makes no system call for them.
pub is_ub_empty-set_ub :
    (kid : UbField → ℕ) (fails : UbCall → Bool) (ub : UbParam)
    → (is_ub_empty (some ub) ≡ true) ↔ ((set_ub kid fails ub).1 ≡ [])
unfolding is_ub_empty set_ub
is_ub_empty-set_ub kid fails ub = empty_from-set_fields kid fails ub limit_fields

check_from_iff :
    (ub : UbParam) (fs : List UbField) (ret : ℕ)
    → (check_from ub fs ret ≡ 0) ↔ ((ret ≡ 0) × All (λ f. ub.field f ≢ none) fs)
unfolding check_from is_null
check_from_iff ub [] ret = ground arith
check_from_iff ub (f ∷ fs) ret = elim (Option-cases (ub.field f)) [
  | inl n ↦ ground (arith, check_from_iff ub fs e_not_enough_params)
  | inr (r, e) ↦ ground (arith, check_from_iff ub fs ret)
]

-- `vzctl_check_ub` returns 0 exactly if every limit that is required is set.
pub check_ub_iff : (ub : UbParam) → (check_ub ub ≡ 0) ↔ All (λ f. ub.field f ≢ none) required_fields
unfolding check_ub
check_ub_iff ub =
    let (to, from) = check_from_iff ub required_fields 0 in (λ e. (to e).1, λ h. from (refl, h))

-- The field takes part in `set_ub`: the kernel has a limit for it.
abbrev pub has_limit : UbField → Bool
has_limit avnumproc = false
has_limit num_memory_subgroups = false
has_limit f = true

-- What is passed for a pair of limits: the barrier and the limit, each cut to LONG_MAX.
abbrev pub passed : (kernel_id : ℕ) → Res → UbCall
passed id r = record {
  id = id;
  limit = record {
    b = if leb r.b long_max then r.b else long_max;
    l = if leb r.l long_max then r.l else long_max;
  };
}

setublimit-passed : (id : ℕ) (r : Res) → setublimit id r ≡ passed id r
unfolding setublimit
setublimit-passed id r = ground arith

-- The field stands in a list of fields.
abbrev holds : List UbField → UbField → Bool
holds [] f = false
holds (g ∷ fs) f = param_id g == param_id f || holds fs f

limit_fields-hold : (f : UbField) → has_limit f ≡ true → holds limit_fields f ≡ true
unfolding param_id
limit_fields-hold lockedpages h = refl
limit_fields-hold privvmpages h = refl
limit_fields-hold shmpages h = refl
limit_fields-hold numproc h = refl
limit_fields-hold physpages h = refl
limit_fields-hold vmguarpages h = refl
limit_fields-hold numtcpsock h = refl
limit_fields-hold numflock h = refl
limit_fields-hold numpty h = refl
limit_fields-hold numsiginfo h = refl
limit_fields-hold tcpsndbuf h = refl
limit_fields-hold tcprcvbuf h = refl
limit_fields-hold othersockbuf h = refl
limit_fields-hold dgramrcvbuf h = refl
limit_fields-hold numothersock h = refl
limit_fields-hold numfile h = refl
limit_fields-hold numiptent h = refl
limit_fields-hold swappages h = refl
limit_fields-hold avnumproc h = absurd (ground (arith, h))
limit_fields-hold num_memory_subgroups h = absurd (ground (arith, h))

set_fields-passes :
    (kid : UbField → ℕ) (fails : UbCall → Bool) (ub : UbParam) (fs : List UbField) (f : UbField)
    (r : Res)
    → holds fs f ≡ true
    → ub.field f ≡ some r
    → (set_fields kid fails ub fs).0 ≡ 0
    → Mem (passed (ub_id kid f) r) (set_fields kid fails ub fs).1
unfolding set_fields
set_fields-passes kid fails ub [] f r m s z = absurd (ground (arith, m))
set_fields-passes kid fails ub (g ∷ fs) f r m s z = elim (Bool-cases (param_id g == param_id f)) [
  | inl y ↦
      let e : g ≡ f = param_id_inj g f (ground (arith, y)) in
      let at : ub.field g ≡ some r = ap ub.field e ∙ s in
      let c : passed (ub_id kid f) r ≡ setublimit (ub_id kid g) r =
        sym (setublimit-passed (ub_id kid g) r ∙ ap (λ q. passed (ub_id kid q) r) e) in
      elim (Bool-cases (fails (setublimit (ub_id kid g) r))) [
        | inl bad ↦ absurd (ground (arith, at, bad, z))
        | inr good ↦ rw (at, good, set_fields) (mem-cons.1 (Or.inl c))
      ]
  | inr n ↦
      let later : holds fs f ≡ true = ground (arith, m, n) in
      elim (Option-cases (ub.field g)) [
        | inl a ↦
            rw (a, set_fields)
              (set_fields-passes kid fails ub fs f r later s (ground (arith, a, z)))
        | inr (q, a) ↦ elim (Bool-cases (fails (setublimit (ub_id kid g) q))) [
          | inl bad ↦ absurd (ground (arith, a, bad, z))
          | inr good ↦
              rw (a, good, set_fields)
                (mem-cons.1 (
                  Or.inr
                    (set_fields-passes kid fails ub fs f r later s (ground (arith, a, good, z)))))
        ]
      ]
]

-- When `set_ub` returns 0, the kernel has been told of every limit that is set and that it has: with the
-- id of that limit, and with the barrier and the limit each cut to LONG_MAX.
pub set_ub-passes :
    (kid : UbField → ℕ) (fails : UbCall → Bool) (ub : UbParam) (f : UbField) (r : Res)
    → has_limit f ≡ true
    → ub.field f ≡ some r
    → (set_ub kid fails ub).0 ≡ 0
    → Mem (passed (ub_id kid f) r) (set_ub kid fails ub).1
unfolding set_ub
set_ub-passes kid fails ub f r h s z =
    set_fields-passes kid fails ub limit_fields f r (limit_fields-hold f h) s z
