-- ===== src/Cap.antt =====
-- lib/cap.c: the capabilities of a container, as masks, and their list `NAME:on NAME:off`.
-- CAP_TO_MASK and the other names of linux/capability.h stand for the bits that the source's comments
-- give; a `cap_t` has 32 bits.
mod Trip
mod Bounding
mod Tests
use libvzctl.Common.{
  ℕ, zero, suc, ◌+◌, Bool, true, false, not, ◌&&◌, ◌||◌, Option, none, some, List, [], ◌∷◌, Str,
  codes, map, str_eq, take, leb, ltb, ◌==◌, if◌then◌else◌,
}
use libvzctl.Common.Errors.{e_inval, e_cap}
use libvzctl.OnOff.{
  Mask, no_bits, set_bit, split_colon, onoff2id, print_items, tokens, parse_tokens,
}

-- `cap_names`, with their indices.
abbrev pub cap_names : List (Str × ℕ)
cap_names =
    (codes "CHOWN", 0)
    ∷ (codes "DAC_OVERRIDE", 1)
    ∷ (codes "DAC_READ_SEARCH", 2)
    ∷ (codes "FOWNER", 3)
    ∷ (codes "FSETID", 4)
    ∷ (codes "KILL", 5)
    ∷ (codes "SETGID", 6)
    ∷ (codes "SETUID", 7)
    ∷ (codes "SETPCAP", 8)
    ∷ (codes "LINUX_IMMUTABLE", 9)
    ∷ (codes "NET_BIND_SERVICE", 10)
    ∷ (codes "NET_BROADCAST", 11)
    ∷ (codes "NET_ADMIN", 12)
    ∷ (codes "NET_RAW", 13)
    ∷ (codes "IPC_LOCK", 14)
    ∷ (codes "IPC_OWNER", 15)
    ∷ (codes "SYS_MODULE", 16)
    ∷ (codes "SYS_RAWIO", 17)
    ∷ (codes "SYS_CHROOT", 18)
    ∷ (codes "SYS_PTRACE", 19)
    ∷ (codes "SYS_PACCT", 20)
    ∷ (codes "SYS_ADMIN", 21)
    ∷ (codes "SYS_BOOT", 22)
    ∷ (codes "SYS_NICE", 23)
    ∷ (codes "SYS_RESOURCE", 24)
    ∷ (codes "SYS_TIME", 25)
    ∷ (codes "SYS_TTY_CONFIG", 26)
    ∷ (codes "MKNOD", 27)
    ∷ (codes "LEASE", 28)
    ∷ (codes "AUDIT_WRITE", 29)
    ∷ (codes "VE_ADMIN", 30)
    ∷ (codes "SETFCAP", 31)
    ∷ []

-- `struct vzctl_cap_param`.
pub record CapParam : Type 0 where
  pub on : Mask
  pub off : Mask

abbrev pub no_caps : CapParam
no_caps = record { on = no_bits; off = no_bits }

lower : ℕ → ℕ
lower c = if leb 65 c && leb c 90 then c + 32 else c

-- `!strcasecmp(a, b)`.
str_case_eq : Str → Str → Bool
unfolding lower
str_case_eq [] [] = true
str_case_eq [] (d ∷ t) = false
str_case_eq (c ∷ s) [] = false
str_case_eq (c ∷ s) (d ∷ t) = lower c == lower d && str_case_eq s t

find_from : List (Str × ℕ) → Str → Option ℕ
unfolding str_case_eq
find_from [] name = none
find_from ((n, bit) ∷ t) name = if str_case_eq name n then some bit else find_from t name

-- The search of `get_cap_mask`; -1 is `none`.
pub get_cap_mask : Str → Option ℕ
unfolding find_from
get_cap_mask name = find_from cap_names name

-- The pieces that `build_cap_str` prints.
abbrev pub cap_items : CapParam → List (Str × ℕ) → List (Str × Bool)
cap_items new [] = []
cap_items new ((n, bit) ∷ t) =
    let rest = cap_items new t in
    if new.on bit then (n, true) ∷ rest else if new.off bit then (n, false) ∷ rest else rest

pub build_cap_str : CapParam → ℕ → Str
unfolding print_items
build_cap_str new len = print_items len (cap_items new cap_names)

-- `cap_raise` on the mask that the value chooses.
abbrev pub raise : CapParam → ℕ → Bool → CapParam
raise cap bit true = record cap { on = set_bit cap.on bit }
raise cap bit false = record cap { off = set_bit cap.off bit }

raise_found : CapParam → Option Bool → Option ℕ → ℕ × CapParam
raise_found cap none bit = (e_inval, cap)
raise_found cap (some v) none = (e_inval, cap)
raise_found cap (some v) (some bit) = (0, raise cap bit v)

-- One round of the loop of `parse_cap`, with its name buffer of 128 bytes.
pub parse_cap_token : CapParam → Str → ℕ × CapParam
unfolding split_colon onoff2id get_cap_mask raise_found
parse_cap_token cap token = elim (split_colon token) [
  | none ↦ (e_inval, cap)
  | some (name, v) ↦ raise_found cap (onoff2id v) (get_cap_mask (take 127 name))
]

-- `parse_cap`, when its copy of the string is made.
pub parse_cap : CapParam → Str → Bool → ℕ × CapParam
unfolding tokens parse_tokens parse_cap_token
parse_cap cap str replace =
    parse_tokens parse_cap_token (if replace then no_caps else cap) (tokens str)

-- `make_cap_mask`, of 32 bits.
pub make_cap_mask : Mask → Mask → Mask → Mask
make_cap_mask def on off = λ k. leb k 31 && (def k || on k) && not (off k)

-- CAPDEFAULTMASK: every capability of the table but NET_ADMIN, SYS_MODULE, SYS_RAWIO, SYS_PACCT,
-- SYS_ADMIN and SYS_TIME.
pub default_mask : Mask
default_mask k = leb k 31 && not (k == 12 || k == 16 || k == 17 || k == 20 || k == 21 || k == 25)

-- CAPDEFAULTMASK_UPSTREAM.
pub default_mask_upstream : Mask
unfolding default_mask
default_mask_upstream k = default_mask k || k == 21 || k == 12

-- What `prctl(PR_CAPBSET_DROP, i)` returns: 0, EINVAL, or another error.
pub data Drop : Type 0 where
  dropped drop_inval drop_failed : Drop

-- The results 0, 1 and -1 of `set_cap_bound`.
pub data Bound : Type 0 where
  bound_set bound_unsupported bound_failed : Bound

on_drop : ℕ → Drop → Bound × List ℕ → Bound × List ℕ
on_drop i dropped rest = (rest.0, i ∷ rest.1)
on_drop i drop_inval rest = if i == 0 then (bound_unsupported, []) else (bound_set, [])
on_drop i drop_failed rest = if i == 0 then (bound_unsupported, []) else (bound_failed, [])

-- The loop of `set_cap_bound` from `i` on, with `n` rounds up to the width of 64; the capabilities
-- that were dropped are listed.
drop_from : (ℕ → Drop) → Mask → ℕ → ℕ → Bound × List ℕ
unfolding on_drop
drop_from drop mask zero i = (bound_failed, [])
drop_from drop mask (suc n) i =
    let rest = drop_from drop mask n (i + 1) in if mask i then rest else on_drop i (drop i) rest

pub set_cap_bound : (ℕ → Drop) → Mask → Bound × List ℕ
unfolding drop_from
set_cap_bound drop mask = drop_from drop mask 64 0

-- `set_cap`: `known` tells whether the kernel's version of the call is known, `done` whether `capset`
-- succeeds. The results are 0, VZCTL_E_CAP and -1, here `none`.
set_cap : Bool → Bool → Option ℕ
set_cap known done = if known then (if done then some 0 else some e_cap) else none

apply_bound : Bool → Bool → Bound × List ℕ → Mask → Option ℕ × List ℕ × Option Mask
unfolding set_cap
apply_bound known done (bound_failed, d) mask = (some e_cap, d, none)
apply_bound known done (bound_set, d) mask =
    (set_cap known done, d, if known && done then some mask else none)
apply_bound known done (bound_unsupported, d) mask =
    (set_cap known done, d, if known && done then some mask else none)

-- `env_set_cap`: its result, the capabilities that it drops, and the mask that `capset` sets.
pub env_set_cap : (ℕ → Drop) → Bool → Bool → CapParam → Option ℕ × List ℕ × Option Mask
unfolding apply_bound set_cap_bound make_cap_mask default_mask_upstream
env_set_cap drop known done cap =
    let mask = make_cap_mask default_mask_upstream cap.on cap.off in
    apply_bound known done (set_cap_bound drop mask) mask

-- `vzctl2_env_set_cap`, for the capabilities `h` of the container.
pub ask_cap : CapParam → Mask → CapParam
unfolding make_cap_mask default_mask
ask_cap h capmask =
    let old = make_cap_mask default_mask h.on h.off in
    record { on = λ k. capmask k && not (old k); off = λ k. old k && not (capmask k) }

-- `vzctl2_env_get_cap`.
pub env_get_cap : CapParam → Mask
unfolding make_cap_mask default_mask
env_get_cap cap = make_cap_mask default_mask cap.on cap.off
