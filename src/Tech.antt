-- ===== src/Tech.antt =====
-- lib/vzfeatures.c: the technologies that a template needs and a kernel supports, and the comparison
-- of version strings. A mask of technologies is its bits; VZ_T_VZFS0 and VZ_T_SIMFS are one bit.
mod Order
mod Tests
use libvzctl.Common.{
  ℕ, zero, suc, ◌+◌, Bool, true, false, not, ◌&&◌, ◌||◌, Option, none, some, List, [], ◌∷◌, Str,
  codes, str_eq, length, leb, ltb, ◌==◌, if◌then◌else◌,
}
use libvzctl.OnOff.{Mask, no_bits, set_bit, tokens}

-- `id2name`, with the bits of the ids.
abbrev pub id2name : List (ℕ × Str)
id2name =
    (0, codes "x86")
    ∷ (1, codes "x86_64")
    ∷ (2, codes "ia64")
    ∷ (3, codes "nptl")
    ∷ (4, codes "sysfs")
    ∷ (12, codes "nfs")
    ∷ (8, codes "hashdir")
    ∷ (7, codes "cowdir")
    ∷ (9, codes "mfiles")
    ∷ (14, codes "ext4")
    ∷ (13, codes "simfs")
    ∷ (13, codes "simfs")
    ∷ []

name_of : List (ℕ × Str) → ℕ → Option Str
name_of [] bit = none
name_of ((b, name) ∷ t) bit = if b == bit then some name else name_of t bit

-- `vzctl2_tech2name`, for an id of one bit.
pub tech2name : ℕ → Option Str
unfolding name_of
tech2name bit = name_of id2name bit

bit_of : List (ℕ × Str) → Str → Option ℕ
bit_of [] name = none
bit_of ((b, n) ∷ t) name = if str_eq name n then some b else bit_of t name

-- `vzctl2_name2tech`; 0 is `none`.
pub name2tech : Str → Option ℕ
unfolding bit_of
name2tech name = bit_of id2name name

pub is_digit : ℕ → Bool
is_digit c = leb b'0' c && leb c b'9'

pub is_alpha : ℕ → Bool
is_alpha c = (leb b'A' c && leb c b'Z') || (leb b'a' c && leb c b'z')

-- The loops that skip to the next block: past what is not alphanumeric, and past zeros.
pub skip_block : Str → Str
unfolding is_digit is_alpha
skip_block [] = []
skip_block (c ∷ s) =
    let rest = skip_block s in if not (is_digit c || is_alpha c) || c == b'0' then rest else c ∷ s

-- A block of digits, and what is behind it.
pub digits : Str → Str × Str
unfolding is_digit
digits [] = ([], [])
digits (c ∷ s) = let (d, r) = digits s in if is_digit c then (c ∷ d, r) else ([], c ∷ s)

-- The sign of the result: -1, 0 and 1.
pub data Sign : Type 0 where
  less same more : Sign

pub cmp_nat : ℕ → ℕ → Sign
cmp_nat a b = if ltb b a then more else if ltb a b then less else same

-- The sign of `strncmp` on strings of one length.
pub cmp_bytes : Str → Str → Sign
unfolding cmp_nat
cmp_bytes [] t = same
cmp_bytes (c ∷ s) [] = more
cmp_bytes (c ∷ s) (d ∷ t) =
    let rest = cmp_bytes s t in elim (cmp_nat c d) [ less ↦ less | same ↦ rest | more ↦ more ]

-- Two blocks of digits: the longer one is more, then the bytes count.
pub cmp_digits : Str → Str → Sign
unfolding cmp_nat cmp_bytes
cmp_digits s t = elim (cmp_nat (length s) (length t)) [
  | less ↦ less
  | same ↦ cmp_bytes s t
  | more ↦ more
]

starts_alpha : Str → Bool
unfolding is_alpha
starts_alpha [] = false
starts_alpha (c ∷ s) = is_alpha c

-- Two blocks of letters, with what is behind them: the first difference counts, then the longer one.
pub cmp_alpha : Str → Str → Sign × Str × Str
unfolding is_alpha starts_alpha cmp_nat
cmp_alpha [] t = (if starts_alpha t then less else same, [], t)
cmp_alpha (c ∷ s) [] = (if is_alpha c then more else same, c ∷ s, [])
cmp_alpha (c ∷ s) (d ∷ t) =
    let rest = cmp_alpha s t in
    if is_alpha c
    then if is_alpha d
      then elim (cmp_nat c d) [
        | less ↦ (less, c ∷ s, d ∷ t)
        | same ↦ rest
        | more ↦ (more, c ∷ s, d ∷ t)
      ]
      else (more, c ∷ s, d ∷ t)
    else (if is_alpha d then less else same, c ∷ s, d ∷ t)

-- One round of the loop of `ver_cmp` on blocks that are there: a result, or what is left.
pub cmp_block : ℕ → Str → ℕ → Str → Sign × Str × Str
unfolding is_digit is_alpha digits cmp_digits cmp_alpha
cmp_block c s d t =
    if is_digit c
    then if is_digit d
      then (
        cmp_digits (digits (c ∷ s)).0 (digits (d ∷ t)).0,
        (digits (c ∷ s)).1,
        (digits (d ∷ t)).1,
      )
      else (less, c ∷ s, d ∷ t)
    else if is_alpha d
    then cmp_alpha (c ∷ s) (d ∷ t)
    else (less, c ∷ s, d ∷ t)

-- The blocks found, and the rest of the loop on what is left behind them.
pub cmp_found : Str → Str → (Str → Str → Sign) → Sign
unfolding cmp_block
cmp_found [] [] rest = same
cmp_found [] (d ∷ t) rest = less
cmp_found (c ∷ s) [] rest = more
cmp_found (c ∷ s) (d ∷ t) rest =
    let (sign, s', t') = cmp_block c s d t in
    elim sign [ less ↦ less | same ↦ rest s' t' | more ↦ more ]

-- The loop of `ver_cmp` with fuel for the rounds; each takes a block, so the length of the first
-- string is enough.
pub ver_cmp_from : ℕ → Str → Str → Sign
unfolding cmp_found skip_block
ver_cmp_from zero s t = same
ver_cmp_from (suc n) s t = cmp_found (skip_block s) (skip_block t) (ver_cmp_from n)

pub ver_cmp : Str → Str → Sign
unfolding ver_cmp_from
ver_cmp s t = ver_cmp_from (suc (length s)) s t

at_least : Sign → Bool
at_least less = false
at_least same = true
at_least more = true

-- `tech_mtx`.
abbrev pub tech_mtx : List (ℕ × Str)
tech_mtx =
    (3, codes "2.6")
    ∷ (4, codes "2.6.8")
    ∷ (12, codes "2.6.18")
    ∷ (8, codes "2.6.9")
    ∷ (7, codes "2.6.9")
    ∷ (9, codes "2.6.9")
    ∷ (13, codes "2.4")
    ∷ (14, codes "2.6.32")
    ∷ []

pub supported_from : List (ℕ × Str) → Str → Mask → Mask
unfolding ver_cmp at_least
supported_from [] kver mask = mask
supported_from ((bit, v) ∷ t) kver mask =
    supported_from t kver (if at_least (ver_cmp kver v) then set_bit mask bit else mask)

-- The name of the machine, where i386, i486 and so on are x86.
arch_name : Str → Str
arch_name (a ∷ b ∷ c ∷ d ∷ []) =
    if a == b'i' && c == b'8' && d == b'6' then codes "x86" else a ∷ b ∷ c ∷ d ∷ []
arch_name m = m

-- `get_supported_tech`, on the machine and the release that `uname` gives, if it succeeds.
pub supported_tech : Option (Str × Str) → Mask
unfolding supported_from arch_name name2tech
supported_tech none = no_bits
supported_tech (some (machine, release)) =
    supported_from tech_mtx release
      (elim (name2tech (arch_name machine)) [ none ↦ no_bits | some bit ↦ set_bit no_bits bit ])

-- `vzctl2_check_tech`: the technologies of the mask that are not provided.
pub check_tech : Option (Str × Str) → Mask → Mask
unfolding supported_tech
check_tech uts mask =
    let provides = supported_tech uts in
    let more = if provides 1 then set_bit provides 0 else provides in λ k. mask k && not (more k)

-- `parse_tech` and the loop of `parse_technologies`, with the result so far: the last token's result
-- is returned.
pub parse_tech : Mask → Str → Bool × Mask
unfolding name2tech
parse_tech tech name = elim (name2tech name) [
  | none ↦ (false, tech)
  | some bit ↦ (true, set_bit tech bit)
]

pub parse_from : Bool → Mask → List Str → Bool × Mask
unfolding parse_tech
parse_from ret tech [] = (ret, tech)
parse_from ret tech (t ∷ ts) = parse_from (parse_tech tech t).0 (parse_tech tech t).1 ts

pub parse_technologies : Mask → Str → Bool × Mask
unfolding parse_from tokens
parse_technologies tech str = parse_from true tech (tokens str)
