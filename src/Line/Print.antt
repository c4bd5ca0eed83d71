-- ===== src/Line/Print.antt =====
-- Reading back a line that is written as NAME="VALUE".
use libvzctl.Common.{
  ℕ, ◌+◌, ◌<◌, ◌≡◌, ◌≢◌, refl, Bool, true, false, some, [], ◌∷◌, ◌++◌, append-nil, append_assoc,
  arith, Str, length, All,
}
use libvzctl.Line.{
  is_space, unescape, unescapestr, Quotes, next, uncomment, uncommentstr, strip_end, cut_quote,
  split_eq, token, skip_quote, is_quote, parse_stripped, parse_line,
}

-- The line that `vzctl2_conf_save` prints, `"%s=\"%s\"\n"`.
abbrev pub printed : Str → Str → Str
printed name val = name ++ b'=' ∷ b'"' ∷ (val ++ b'"' ∷ b'\n' ∷ [])

abbrev pub KeyByte : ℕ → Type 0
KeyByte c = (is_space c ≡ false) × (c ≢ b'=') × (c ≢ b'\\') × (c ≢ b'"') × (c ≢ b'\'') × (c ≢ b'#')

-- A parameter's name: not empty, no space, quote, backslash, `=` or `#`.
abbrev pub IsKey : Str → Type 0
IsKey name = (name ≢ []) × All KeyByte name

abbrev pub ValueByte : ℕ → Type 0
ValueByte c = (c ≢ b'\\') × (c ≢ b'"')

-- A value with no backslash and no double quote.
abbrev pub IsValue : Str → Type 0
IsValue val = All ValueByte val

unescape-id :
    (s rest : Str) → All (λ c. c ≢ b'\\') s → unescape false (s ++ rest) ≡ s ++ unescape false rest
unfolding unescape
unescape-id [] rest h = refl
unescape-id (c ∷ s) rest (a, h) = ground (arith, unescape-id s rest h)

KeyByte-plain : (s : Str) → All KeyByte s → All (λ c. c ≢ b'\\') s
KeyByte-plain [] h = tt
KeyByte-plain (c ∷ s) (a, h) = (a.2, KeyByte-plain s h)

ValueByte-plain : (s : Str) → All ValueByte s → All (λ c. c ≢ b'\\') s
ValueByte-plain [] h = tt
ValueByte-plain (c ∷ s) (a, h) = (a.0, ValueByte-plain s h)

abbrev quotes : Bool → Bool → Quotes
quotes b w = record { inb1 = false; inb2 = b; inw = w }

uncomment_key :
    (s rest : Str)
    → All KeyByte s
    → uncomment (quotes false false) (s ++ rest) ≡ s ++ uncomment (quotes false false) rest
unfolding uncomment next
uncomment_key [] rest h = refl
uncomment_key (c ∷ s) rest (a, h) = ground (arith, uncomment_key s rest h)

uncomment_value :
    (s rest : Str) (w : Bool)
    → All ValueByte s
    → uncomment (quotes true w) (s ++ rest) ≡ s ++ uncomment (quotes true w) rest
unfolding uncomment next
uncomment_value [] rest w h = refl
uncomment_value (c ∷ s) rest w (a, h) = ground (arith, uncomment_value s rest w h)

strip_end_quote : (s : Str) → strip_end (s ++ b'"' ∷ b'\n' ∷ []) ≡ s ++ b'"' ∷ []
unfolding strip_end
strip_end_quote [] = refl
strip_end_quote (c ∷ []) = refl
strip_end_quote (c ∷ d ∷ s) = rw (strip_end_quote (d ∷ s), strip_end) refl

cut_quote_last : (s : Str) → cut_quote (s ++ b'"' ∷ []) ≡ s
unfolding cut_quote is_quote
cut_quote_last [] = refl
cut_quote_last (c ∷ []) = refl
cut_quote_last (c ∷ d ∷ s) = ground (arith, cut_quote_last (d ∷ s))

split_eq_key :
    (s rest before : Str) (n : ℕ)
    → All KeyByte s
    → split_eq before n (s ++ b'=' ∷ rest) ≡ some (before ++ s, n + length s, rest)
unfolding split_eq
split_eq_key [] rest before n h = ground (arith, append-nil before)
split_eq_key (c ∷ s) rest before n (a, h) =
    ground (arith, split_eq_key s rest (before ++ c ∷ []) (n + 1) h, append_assoc before (c ∷ []) s)

unescapestr-printed :
    (name val : Str)
    → All KeyByte name
    → IsValue val
    → unescapestr (printed name val) ≡ printed name val
unfolding unescapestr
unescapestr-printed name val k v =
    rw (unescape-id name _ (KeyByte-plain name k))
      (rw (unescape-id val (b'"' ∷ b'\n' ∷ []) (ValueByte-plain val v), unescape))

uncomment_tail :
    (val : Str) (w : Bool)
    → IsValue val
    → uncomment (quotes false w) (b'=' ∷ b'"' ∷ (val ++ b'"' ∷ b'\n' ∷ []))
      ≡ b'=' ∷ b'"' ∷ (val ++ b'"' ∷ b'\n' ∷ [])
unfolding uncomment next
uncomment_tail val w v = ground (arith, uncomment_value val (b'"' ∷ b'\n' ∷ []) false v)

uncommentstr-printed :
    (name val : Str) → IsKey name → IsValue val → uncommentstr (printed name val) ≡ printed name val
unfolding uncommentstr
uncommentstr-printed [] val k v = absurd (k.0 refl)
uncommentstr-printed (c ∷ name) val k v = ground (
  arith,
  uncomment_key name (b'=' ∷ b'"' ∷ (val ++ b'"' ∷ b'\n' ∷ [])) k.1.1,
  uncomment_tail val false v,
)

parse_stripped-printed :
    (name val : Str) (lsz : ℕ)
    → All KeyByte name
    → length name < lsz
    → parse_stripped (printed name val) lsz ≡ some (name, val)
unfolding parse_stripped
parse_stripped-printed name val lsz k f =
    rw (← append_assoc name (b'=' ∷ b'"' ∷ val) (b'"' ∷ b'\n' ∷ [])) (
      rw strip_end_quote (
        rw cut_quote_last (
          rw (split_eq_key name (b'"' ∷ val) [] 0 k)
            (unfold token skip_quote is_quote in ground arith))))

-- `parse_line` reads the name and the value of such a line back, for a name that fits `ltoken`.
pub parse_line-printed :
    (name val : Str) (lsz : ℕ)
    → IsKey name
    → IsValue val
    → length name < lsz
    → parse_line (printed name val) lsz ≡ some (name, val)
unfolding parse_line
parse_line-printed [] val lsz k v f = absurd (k.0 refl)
parse_line-printed (c ∷ name) val lsz k v f = rw (unescapestr-printed (c ∷ name) val k.1 v) (
    rw (uncommentstr-printed (c ∷ name) val k v)
      (ground (arith, parse_stripped-printed (c ∷ name) val lsz k.1)))
