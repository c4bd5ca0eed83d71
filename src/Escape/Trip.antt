-- ===== src/Escape/Trip.antt =====
-- What set_description stores is unescaped to the description.
use libvzctl.Common.{
  ℕ, ◌+◌, ◌-◌, ◌*◌, ◌/◌, ◌%◌, ◌<◌, ◌≤◌, ◌≡◌, refl, ap, ◌∙◌, Bool, ◌||◌, if◌then◌else◌, true, false,
  inl, inr, Bool-cases, some, [], ◌∷◌, ◌++◌, leb, ◌==◌, Str, length, arith,
}
use libvzctl.Escape.{
  escape_from, escaped, escapestr_eq, set_description, hex_digit, hex_pair, hex_value, is_plain,
  unescapestr_eq,
}

hex_value-digit : (v : ℕ) → v < 16 → hex_value (hex_digit v) ≡ some v
unfolding hex_value hex_digit
hex_value-digit v l = ground arith

hex_pair-digits : (c : ℕ) → c < 256 → hex_pair (hex_digit (c / 16)) (hex_digit (c % 16)) ≡ some c
unfolding hex_pair
hex_pair-digits c l =
    rw (hex_value-digit (c / 16) (omega (arith, l)), hex_pair)
      (rw (hex_value-digit (c % 16) (omega arith)) (ap some (omega arith)))

unescape-plain :
    (c : ℕ) (s : Str) → (c == b'=') ≡ false → unescapestr_eq (c ∷ s) ≡ c ∷ unescapestr_eq s
unfolding unescapestr_eq
unescape-plain c [] h = rw h refl
unescape-plain c (d ∷ []) h = rw h refl
unescape-plain c (d ∷ e ∷ s) h = rw h refl

unescape-escaped :
    (c : ℕ) (s : Str) → c < 256 → unescapestr_eq (escaped c ++ s) ≡ c ∷ unescapestr_eq s
unfolding unescapestr_eq escaped
unescape-escaped c s l = rw (hex_pair-digits c l) refl

not-equals : (c : ℕ) → is_plain c ≡ true → (c == b'=') ≡ false
unfolding is_plain
not-equals c h = ground arith

not-plain : (c : ℕ) → is_plain c ≡ false → c < 256
unfolding is_plain
not-plain c h = ground arith

-- How long the text of a description is when nothing is cut.
abbrev escaped_length : Str → ℕ
escaped_length [] = 0
escaped_length (c ∷ s) = if is_plain c then escaped_length s + 1 else escaped_length s + 3

unescape-from :
    (room : ℕ) (s : Str) → escaped_length s < room → unescapestr_eq (escape_from room s) ≡ s
unfolding escape_from
unescape-from room [] l = unfold unescapestr_eq in refl
unescape-from room (c ∷ s) l =
    let some_room : (room == 0) ≡ false = ground arith in
    elim (Bool-cases (is_plain c)) [
      | inl e ↦
          let less : escaped_length s < room - 1 = ground (arith, e, l) in
          rw (some_room, e)
            (unescape-plain c (escape_from (room - 1) s) (not-equals c e)
              ∙ ap (λ t. c ∷ t) (unescape-from (room - 1) s less))
      | inr e ↦
          let less : escaped_length s + 3 < room = ground (arith, e, l) in
          let fits : leb 4 room ≡ true = ground (arith, less) in
          rw (some_room, e, fits)
            (unescape-escaped c (escape_from (room - 3) s) (not-plain c e)
              ∙ ap (λ t. c ∷ t) (unescape-from (room - 3) s (omega (arith, less))))
    ]

-- A byte of the description is kept as it is.
abbrev pub has_plain : Str → Bool
has_plain [] = false
has_plain (c ∷ s) = is_plain c || has_plain s

escaped_length-bound : (s : Str) → escaped_length s ≤ length s * 3
escaped_length-bound [] = omega arith
escaped_length-bound (c ∷ s) = ground (arith, escaped_length-bound s)

escaped_length-plain : (s : Str) → has_plain s ≡ true → escaped_length s + 2 ≤ length s * 3
escaped_length-plain [] h = absurd (ground arith)
escaped_length-plain (c ∷ s) h = ground (arith, h, escaped_length-bound s, escaped_length-plain s)

-- A description of which at least one byte is not escaped is read back by `vzctl2_unescapestr_eq` from
-- what `set_description` stores.
pub unescapestr_eq-set_description :
    (s : Str) → has_plain s ≡ true → unescapestr_eq (set_description s) ≡ s
unfolding set_description escapestr_eq
unescapestr_eq-set_description s h =
    unescape-from (length s * 3 - 1) s (omega (arith, escaped_length-plain s h))
