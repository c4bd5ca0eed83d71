-- ===== src/OnOff.antt =====
-- Lists of the form `name:on name:off`, as lib/vzfeatures.c and lib/cap.c print and parse them, and
-- the sets of bits that they stand for.
pub mod Trip
pub mod Words
use libvzctl.Common.{
  ℕ, zero, suc, ◌-◌, Bool, true, false, ◌||◌, Option, none, some, List, [], ◌∷◌, ◌++◌, Str, codes,
  str_eq, length, take, leb, ◌==◌, if◌then◌else◌,
}

-- A mask, by its bits.
abbrev pub Mask : Type 0
Mask = ℕ → Bool

abbrev pub no_bits : Mask
no_bits = λ k. false

-- `mask |= 1 << bit`.
abbrev pub set_bit : Mask → ℕ → Mask
set_bit mask bit = λ k. mask k || bit == k

-- The bytes of LIST_DELIMITERS (lib/vztypes.h).
unfoldable pub is_delim : ℕ → Bool
is_delim c = c == b'\t' || c == b' ' || c == b','

-- A token that ends, in front of those behind it.
close : Str → List Str → List Str
close [] ts = ts
close (c ∷ cur) ts = (c ∷ cur) ∷ ts

-- The tokens that `strtok_r` yields, behind the bytes `cur` of the current one.
pub tokens_from : Str → Str → List Str
unfolding is_delim close
tokens_from cur [] = close cur []
tokens_from cur (c ∷ s) =
    let next = close cur (tokens_from [] s) in
    let more = tokens_from (cur ++ c ∷ []) s in if is_delim c then next else more

unfoldable pub tokens : Str → List Str
unfolding tokens_from
tokens s = tokens_from [] s

-- What stands before and behind the colon that `strrchr(str, ':')` finds.
unfoldable pub split_colon : Str → Option (Str × Str)
split_colon [] = none
split_colon (c ∷ s) = elim (split_colon s) [
  | none ↦ if c == b':' then some ([], s) else none
  | some (a, b) ↦ some (c ∷ a, b)
]

-- `onoff2id` (lib/util.c); -1 is `none`.
unfoldable pub onoff2id : Str → Option Bool
unfolding str_eq
onoff2id s =
    if str_eq s (codes "on") then some true else if str_eq s (codes "off") then some false else none

abbrev pub onoff : Bool → Str
onoff true = codes "on"
onoff false = codes "off"

-- One piece that is printed, `"%s:%s "`.
abbrev pub item : Str × Bool → Str
item (name, v) = name ++ b':' ∷ (onoff v ++ b' ' ∷ [])

-- The `snprintf` loop, with `room` bytes left: it ends at the first piece that does not fit with its
-- NUL, and leaves the bytes of it that do.
unfoldable pub print_items : ℕ → List (Str × Bool) → Str
print_items room [] = []
print_items room (x ∷ xs) =
    let rest = print_items (room - length (item x)) xs in
    if leb room (length (item x)) then take (room - 1) (item x) else item x ++ rest

-- A step whose result is an error ends the loop.
abbrev pub after : {S : Type 0} → ℕ × S → (S → ℕ × S) → ℕ × S
after (zero, s) rest = rest s
after (suc e, s) rest = (suc e, s)

-- The `strtok_r` loop, which ends at the first token that is refused.
unfoldable pub parse_tokens : {S : Type 0} → (S → Str → ℕ × S) → S → List Str → ℕ × S
parse_tokens one s [] = (0, s)
parse_tokens one s (t ∷ ts) = after (one s t) (λ s'. parse_tokens one s' ts)
