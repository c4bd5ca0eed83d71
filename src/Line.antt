-- ===== src/Line.antt =====
-- The line reader of lib/util.c: `unescapestr`, `uncommentstr`, `strip_end`, `parse_line`. They edit
-- a buffer in place; here each returns what the buffer then holds up to its NUL. Bytes are ASCII
-- codes in the "C" locale.
pub mod Print
pub mod Strip
use libvzctl.Common.{
  ℕ, zero, suc, ◌+◌, Bool, true, false, not, ◌&&◌, ◌||◌, Option, none, some, List, [], ◌∷◌, ◌++◌,
  Str, leb, ◌==◌, if◌then◌else◌,
}

-- `isspace`.
unfoldable pub is_space : ℕ → Bool
is_space c = c == b' ' || (leb 9 c && leb c 13)

unescape : Bool → Str → Str
unescape fl [] = []
unescape fl (c ∷ s) =
    let drop = unescape true s in
    let keep = c ∷ unescape false s in if c == b'\\' && not fl then drop else keep

-- `unescapestr`: a backslash is dropped, and keeps the byte behind it from being special.
pub unescapestr : Str → Str
unfolding unescape
unescapestr s = unescape false s

-- The flags of `uncommentstr`: inside '…', inside "…", at the start of a word.
record Quotes : Type 0 where
  inb1 : Bool
  inb2 : Bool
  inw : Bool

-- One round of its loop: `none` where the string is cut.
next : Quotes → ℕ → Option Quotes
unfolding is_space
next q c =
    if q.inb1 && not (c == b'\'')
    then some q
    else if q.inb2 && not (c == b'"')
    then some q
    else if c == b'\''
    then some (record q { inb1 = not q.inb1; inw = false })
    else if c == b'"'
    then some (record q { inb2 = not q.inb2; inw = false })
    else if c == b'#'
    then (if not q.inw then some q else none)
    else some (record q { inw = is_space c })

uncomment : Quotes → Str → Str
uncomment q [] = []
uncomment q (c ∷ s) = elim (next q c) [ none ↦ [] | some q' ↦ c ∷ uncomment q' s ]

-- `uncommentstr`.
pub uncommentstr : Str → Str
unfolding uncomment next
uncommentstr s = uncomment (record { inb1 = false; inb2 = false; inw = true }) s

-- `while (*sp && isspace(*sp)) sp++`.
skip_space : Str → Str
skip_space [] = []
skip_space (c ∷ s) = let rest = skip_space s in if is_space c then rest else c ∷ s

strip_onto : ℕ → Str → Str
strip_onto c [] = if is_space c || c == b'\n' then [] else c ∷ []
strip_onto c (d ∷ s) = c ∷ d ∷ s

-- `strip_end`: the white space at the end goes.
pub strip_end : Str → Str
unfolding strip_onto is_space
strip_end [] = []
strip_end (c ∷ s) = strip_onto c (strip_end s)

is_quote : ℕ → Bool
is_quote c = c == b'"' || c == b'\''

-- `if (*ep == '"' || *ep == '\'') *ep = 0` for the last byte.
cut_quote : Str → Str
cut_quote [] = []
cut_quote (c ∷ []) = if is_quote c then [] else c ∷ []
cut_quote (c ∷ d ∷ s) = c ∷ cut_quote (d ∷ s)

skip_quote : Str → Str
skip_quote [] = []
skip_quote (c ∷ s) = if is_quote c then s else c ∷ s

-- `strchr(sp, '=')`: the bytes before it, their number, and the bytes behind it.
split_eq : Str → ℕ → Str → Option (Str × ℕ × Str)
split_eq before n [] = none
split_eq before n (c ∷ s) =
    let rest = split_eq (before ++ c ∷ []) (n + 1) s in
    if c == b'=' then some (before, n, s) else rest

token : ℕ → Option (Str × ℕ × Str) → Option (Str × Str)
token lsz none = none
token lsz (some (name, len, rest)) = if leb lsz len then none else some (name, skip_quote rest)

-- From `strip_end(sp)` on, for a line that starts with a byte that is not a space.
parse_stripped : Str → ℕ → Option (Str × Str)
unfolding strip_end cut_quote split_eq token skip_quote is_quote
parse_stripped sp lsz = token lsz (split_eq [] 0 (cut_quote (strip_end sp)))

parse_from : Str → ℕ → Option (Str × Str)
unfolding parse_stripped
parse_from [] lsz = none
parse_from (c ∷ s) lsz = if c == b'#' then none else parse_stripped (c ∷ s) lsz

-- `parse_line`: the name and the value of a line NAME=VALUE; `lsz` is the size of `ltoken`.
unfoldable pub parse_line : Str → ℕ → Option (Str × Str)
unfolding parse_from skip_space unescapestr uncommentstr
parse_line str lsz = parse_from (skip_space (uncommentstr (unescapestr str))) lsz
