-- ===== src/OnOff/Words.antt =====
-- The tokens of words with one space between them.
use libvzctl.Common.{◌≡◌, refl, sym, ap, ◌∙◌, List, [], ◌∷◌, ◌++◌, append-nil, Str, All}
use libvzctl.OnOff.{close, is_delim, tokens, tokens_from}
use libvzctl.OnOff.Trip.{IsPlain, tokens_from-plain}

-- A word has a byte, and none of its bytes separates.
abbrev pub IsWord : Str → Type 0
IsWord [] = ⊥
IsWord (c ∷ s) = IsPlain (c ∷ s)

abbrev pub joined : List Str → Str
joined [] = []
joined (w ∷ []) = w
joined (w ∷ v ∷ ws) = w ++ b' ' ∷ joined (v ∷ ws)

pub tokens-joined : (ws : List Str) → All IsWord ws → tokens (joined ws) ≡ ws
unfolding tokens close
tokens-joined [] h = refl
tokens-joined ([] ∷ ws) (h, t) = absurd h
tokens-joined ((c ∷ w) ∷ []) (h, t) =
    ap (tokens_from []) (sym (append-nil (c ∷ w))) ∙ tokens_from-plain [] (c ∷ w) [] h
tokens-joined ((c ∷ w) ∷ v ∷ ws) (h, t) =
    tokens_from-plain [] (c ∷ w) (b' ' ∷ joined (v ∷ ws)) h
    ∙ space (c ∷ w)
    ∙ ap (λ ts. (c ∷ w) ∷ ts) (tokens-joined (v ∷ ws) t)
  where
    space :
        (cur : Str)
        → tokens_from cur (b' ' ∷ joined (v ∷ ws)) ≡ close cur (tokens_from [] (joined (v ∷ ws)))
    space cur = unfold is_delim in refl
