-- ===== src/OnOff/Trip.antt =====
-- Parsing a list that was printed.
use libvzctl.Common.{
  ◌==◌, ◌||◌, ℕ, ◌-◌, ◌≤◌, ◌<◌, ◌≡◌, ◌∙◌, refl, Bool, true, false, some, List, [], ◌∷◌, ◌++◌, map,
  append-nil, append_assoc, arith, Str, zero, suc, ap, All-append, length, length-append, take, All,
}
use libvzctl.OnOff.{
  is_delim, close, tokens_from, tokens, split_colon, onoff, item, print_items, parse_tokens,
}

-- Whether some entry has a bit.
abbrev pub has_bit : List (Str × ℕ) → ℕ → Bool
has_bit [] k = false
has_bit ((name, bit) ∷ t) k = bit == k || has_bit t k

-- The text with no limit of room.
abbrev pub text : List (Str × Bool) → Str
text [] = []
text (x ∷ xs) = item x ++ text xs

pub print_items-text :
    (room : ℕ) (xs : List (Str × Bool)) → length (text xs) < room → print_items room xs ≡ text xs
unfolding print_items
print_items-text room [] h = refl
print_items-text room (x ∷ xs) h =
    ground (arith, length-append (item x) (text xs), print_items-text (room - length (item x)) xs)

length-take : (n : ℕ) (s : Str) → length (take n s) ≤ n
length-take zero s = ground arith
length-take (suc n) [] = ground arith
length-take (suc n) (x ∷ s) = ground (arith, length-take n s)

-- The buffer is never overrun, its NUL included.
pub length-print_items :
    (room : ℕ) (xs : List (Str × Bool)) → 0 < room → length (print_items room xs) < room
unfolding print_items
length-print_items room [] h = ground arith
length-print_items room (x ∷ xs) h = ground (
  arith,
  length-take (room - 1) (item x),
  length-append (item x) (print_items (room - length (item x)) xs),
  length-print_items (room - length (item x)) xs,
)

abbrev pub IsPlain : Str → Type 0
IsPlain s = All (λ c. is_delim c ≡ false) s

pub tokens_from-plain :
    (cur s rest : Str) → IsPlain s → tokens_from cur (s ++ rest) ≡ tokens_from (cur ++ s) rest
unfolding tokens_from
tokens_from-plain cur [] rest h = rw append-nil refl
tokens_from-plain cur (c ∷ s) rest (a, h) =
    rw a (tokens_from-plain (cur ++ c ∷ []) s rest h ∙ rw (append_assoc cur (c ∷ []) s) refl)

-- One token of the list.
abbrev pub token_of : Str × Bool → Str
token_of (name, v) = name ++ b':' ∷ onoff v

IsPlain-token_of : (name : Str) (v : Bool) → IsPlain name → IsPlain (token_of (name, v))
unfolding is_delim
IsPlain-token_of name true h = All-append _ _ _ h (refl, (refl, (refl, tt)))
IsPlain-token_of name false h = All-append _ _ _ h (refl, (refl, (refl, (refl, tt))))

item-token_of :
    (name : Str) (v : Bool) (rest : Str)
    → item (name, v) ++ rest ≡ token_of (name, v) ++ b' ' ∷ rest
item-token_of [] true rest = refl
item-token_of [] false rest = refl
item-token_of (c ∷ name) v rest = ap (λ s. c ∷ s) (item-token_of name v rest)

close-token_of :
    (name : Str) (v : Bool) (ts : List Str)
    → close (token_of (name, v)) ts ≡ token_of (name, v) ∷ ts
unfolding close
close-token_of [] v ts = refl
close-token_of (c ∷ name) v ts = refl

tokens_from-text :
    (xs : List (Str × Bool))
    → All (λ x. IsPlain x.0) xs
    → tokens_from [] (text xs) ≡ map token_of xs
unfolding tokens_from
tokens_from-text [] h = refl
tokens_from-text ((name, v) ∷ xs) (a, h) =
    ap (tokens_from []) (item-token_of name v (text xs))
    ∙ tokens_from-plain [] (token_of (name, v)) (b' ' ∷ text xs) (IsPlain-token_of name v a)
    ∙ space (token_of (name, v))
    ∙ close-token_of name v (tokens_from [] (text xs))
    ∙ ap (λ ts. token_of (name, v) ∷ ts) (tokens_from-text xs h)
  where
    space : (cur : Str) → tokens_from cur (b' ' ∷ text xs) ≡ close cur (tokens_from [] (text xs))
    space cur = unfold is_delim in refl

pub split_colon-token :
    (name : Str) (v : Bool) → split_colon (name ++ b':' ∷ onoff v) ≡ some (name, onoff v)
unfolding split_colon
split_colon-token [] true = refl
split_colon-token [] false = refl
split_colon-token (c ∷ name) v = rw (split_colon-token name v) refl

abbrev pub steps : {S : Type 0} → (S → Str × Bool → S) → S → List (Str × Bool) → S
steps step s [] = s
steps step s (x ∷ xs) = steps step (step s x) xs

parse_tokens-map :
    {S : Type 0} (one : S → Str → ℕ × S) (step : S → Str × Bool → S) (xs : List (Str × Bool))
    (s : S)
    → All (λ x. (s' : S) → one s' (token_of x) ≡ (0, step s' x)) xs
    → parse_tokens one s (map token_of xs) ≡ (0, steps step s xs)
unfolding parse_tokens
parse_tokens-map one step [] s h = refl
parse_tokens-map one step (x ∷ xs) s (a, h) = rw (a s) (parse_tokens-map one step xs (step s x) h)

-- A loop over the tokens of a list is a loop over its entries, if each entry's token is accepted.
pub parse_tokens-text :
    {S : Type 0} (one : S → Str → ℕ × S) (step : S → Str × Bool → S) (xs : List (Str × Bool))
    (s : S)
    → All (λ x. IsPlain x.0) xs
    → All (λ x. (s' : S) → one s' (token_of x) ≡ (0, step s' x)) xs
    → parse_tokens one s (tokens (text xs)) ≡ (0, steps step s xs)
unfolding tokens
parse_tokens-text one step xs s plain accept =
    ap (parse_tokens one s) (tokens_from-text xs plain) ∙ parse_tokens-map one step xs s accept
