-- ===== src/Strs/Trip.antt =====
-- A list of strings that is printed is read as it was.
use libvzctl.Common.{
  ◌≡◌, refl, ap, ◌∙◌, false, List, [], ◌∷◌, ◌++◌, append-nil, append_assoc, Str, All, arith,
  contains, str_eq_iff,
}
use libvzctl.Line.{strip_end}
use libvzctl.Line.Strip.{HasNoSpace, strip_end-front, strip_end-last, strip_end_cons, strip_end_nil}
use libvzctl.OnOff.{tokens}
use libvzctl.OnOff.Words.{IsWord, joined, tokens-joined}
use libvzctl.Strs.{parse_words, parse_str_param, print_words, list2str}
use libvzctl.Strs.Merge.{all_works, contains-snoc, found_iff}

-- The strings are words without white space, and each occurs once.
abbrev pub AreWords : List Str → Type 0
AreWords [] = Unit
AreWords (w ∷ ws) = IsWord w × HasNoSpace w × (contains ws w ≡ false) × AreWords ws

strip_end-words : (ws : List Str) → AreWords ws → strip_end (print_words ws) ≡ joined ws
unfolding print_words
strip_end-words [] h = strip_end_nil
strip_end-words ([] ∷ ws) h = absurd h.0
strip_end-words ((c ∷ w) ∷ []) h = strip_end-last (c ∷ w) h.1
strip_end-words ((c ∷ w) ∷ [] ∷ ws) h = absurd h.3.0
strip_end-words ((c ∷ w) ∷ (d ∷ v) ∷ []) h =
    strip_end-front (c ∷ w) (b' ' ∷ print_words ((d ∷ v) ∷ [])) b' ' (d ∷ v)
      (strip_end_cons b' ' d _ v (strip_end-words ((d ∷ v) ∷ []) h.3))
strip_end-words ((c ∷ w) ∷ (d ∷ v) ∷ u ∷ ws) h =
    strip_end-front (c ∷ w) (b' ' ∷ print_words ((d ∷ v) ∷ u ∷ ws)) b' ' (joined ((d ∷ v) ∷ u ∷ ws))
      (strip_end_cons b' ' d _ (v ++ b' ' ∷ joined (u ∷ ws))
        (strip_end-words ((d ∷ v) ∷ u ∷ ws) h.3))

IsWord-All : (ws : List Str) → AreWords ws → All IsWord ws
IsWord-All [] h = tt
IsWord-All (w ∷ ws) (h, _, _, t) = (h, IsWord-All ws t)

-- No string of the second list is in the first.
abbrev AreNew : List Str → List Str → Type 0
AreNew head [] = Unit
AreNew head (w ∷ ws) = (contains head w ≡ false) × AreNew head ws

AreNew-snoc :
    (head ws : List Str) (w : Str)
    → AreNew head ws
    → contains ws w ≡ false
    → AreNew (head ++ w ∷ []) ws
unfolding contains
AreNew-snoc head [] w n c = tt
AreNew-snoc head (v ∷ ws) w n c = (
  ground (arith, contains-snoc head w v, str_eq_iff w v, str_eq_iff v w),
  AreNew-snoc head ws w n.1 (ground arith),
)

parse_words-new :
    (head ws : List Str)
    → AreWords ws
    → AreNew head ws
    → parse_words all_works head ws ≡ (0, head ++ ws)
unfolding parse_words
parse_words-new head [] h n = ground (arith, append-nil head)
parse_words-new head (w ∷ ws) h n = ground (
  arith,
  found_iff head w,
  parse_words-new (head ++ w ∷ []) ws h.3 (AreNew-snoc head ws w n.1 h.2),
  append_assoc head (w ∷ []) ws,
)

AreNew-nil : (ws : List Str) → AreNew [] ws
unfolding contains
AreNew-nil [] = tt
AreNew-nil (w ∷ ws) = (refl, AreNew-nil ws)

-- A list of distinct words without white space or delimiters, printed and parsed into an empty list
-- with allocations that work, is the same list, in the same order.
pub parse_str_param-list2str :
    (ws : List Str) → AreWords ws → parse_str_param all_works [] (list2str [] ws) ≡ (0, ws)
unfolding parse_str_param list2str
parse_str_param-list2str ws h =
    ap (λ s. parse_words all_works [] (tokens s)) (strip_end-words ws h)
    ∙ ap (parse_words all_works []) (tokens-joined ws (IsWord-All ws h))
    ∙ parse_words-new [] ws h (AreNew-nil ws)
