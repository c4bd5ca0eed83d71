-- ===== src/Escape.antt =====
-- The escapes of descriptions in lib/util.c: `vzctl_escapestr_eq`, `vzctl2_unescapestr_eq`,
-- `set_description` and `get_description`. Bytes are numbers below 256, in the "C" locale.
mod Tests
pub mod Trip
use libvzctl.Common.{
  ℕ, ◌+◌, ◌-◌, ◌*◌, ◌/◌, ◌%◌, Bool, true, false, ◌&&◌, ◌||◌, Option, none, some, List, [], ◌∷◌,
  ◌++◌, ltb, leb, ◌==◌, if◌then◌else◌, Str, length, take,
}
use libvzctl.Line.{is_space}

-- `isdigit`, `isalpha`, a byte of EXTRA_CHAR, or 127 and above.
pub is_plain : ℕ → Bool
is_plain c =
    (leb b'0' c && leb c b'9')
    || (leb b'A' c && leb c b'Z')
    || (leb b'a' c && leb c b'z')
    || c == b'-'
    || c == b'_'
    || c == b'.'
    || leb 127 c

-- A digit of `%02X`.
pub hex_digit : ℕ → ℕ
hex_digit v = if ltb v 10 then b'0' + v else b'A' + (v - 10)

pub escaped : ℕ → Str
escaped c = b'=' ∷ hex_digit (c / 16) ∷ hex_digit (c % 16) ∷ []

-- The loop of `vzctl_escapestr_eq` with `room` bytes in front of `ed`: what `dst` then holds up to
-- its first NUL. An escape that does not fit with its NUL ends the string early, and all of the
-- room is used up.
escape_from : ℕ → Str → Str
unfolding is_plain escaped
escape_from room [] = []
escape_from room (c ∷ s) =
    let skip = escape_from room s in
    let plain = c ∷ escape_from (room - 1) s in
    let special = escaped c ++ escape_from (room - 3) s in
    if room == 0
    then skip
    else if is_plain c
    then plain
    else if leb 4 room
    then special
    else take (room - 1) (escaped c)

pub escapestr_eq : Str → (size : ℕ) → Str
unfolding escape_from
escapestr_eq src size = escape_from (size - 1) src

-- `set_description`, whose buffer has a byte more than it says.
pub set_description : Str → Str
unfolding escapestr_eq
set_description desc = escapestr_eq desc (length desc * 3)

-- The value of a hexadecimal digit.
pub hex_value : ℕ → Option ℕ
hex_value c =
    if leb b'0' c && leb c b'9'
    then some (c - b'0')
    else if leb b'A' c && leb c b'F'
    then some (c - b'A' + 10)
    else if leb b'a' c && leb c b'f'
    then some (c - b'a' + 10)
    else none

-- `strtol` with base 16 on one and on two bytes, as a byte; none if it leaves a tail. White space
-- and a sign may come first.
pub hex_pair : ℕ → ℕ → Option ℕ
unfolding hex_value is_space
hex_pair c d = elim (hex_value c) [
  | some v ↦ elim (hex_value d) [ none ↦ none | some w ↦ some (v * 16 + w) ]
  | none ↦
      if is_space c || c == b'+'
      then hex_value d
      else if c == b'-'
      then elim (hex_value d) [ none ↦ none | some w ↦ some ((256 - w) % 256) ]
      else none
]

-- The loop of `vzctl2_unescapestr_eq`, with a `dst` that is as long as the text. An `=` without a
-- number stays, and one at the end is a NUL.
pub unescapestr_eq : Str → Str
unfolding hex_pair
unescapestr_eq [] = []
unescapestr_eq (c ∷ []) = if c == b'=' then 0 ∷ [] else c ∷ []
unescapestr_eq (c ∷ d ∷ []) =
    let rest = unescapestr_eq (d ∷ []) in
    if c == b'=' then elim (hex_value d) [ none ↦ c ∷ rest | some v ↦ v ∷ [] ] else c ∷ rest
unescapestr_eq (c ∷ d ∷ e ∷ s) =
    let rest = unescapestr_eq (d ∷ e ∷ s) in
    let next = unescapestr_eq s in
    if c == b'=' then elim (hex_pair d e) [ none ↦ c ∷ rest | some v ↦ v ∷ next ] else c ∷ rest
