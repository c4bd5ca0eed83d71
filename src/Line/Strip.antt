-- ===== src/Line/Strip.antt =====
-- What `strip_end` does to words with spaces behind them.
use libvzctl.Common.{ℕ, ◌≡◌, refl, false, [], ◌∷◌, ◌++◌, Str, All, arith}
use libvzctl.Line.{is_space, strip_end}

-- No byte is white space.
abbrev pub HasNoSpace : Str → Type 0
HasNoSpace s = All (λ c. is_space c ≡ false) s

pub strip_end-last : (w : Str) → HasNoSpace w → strip_end (w ++ b' ' ∷ []) ≡ w
unfolding strip_end
strip_end-last [] h = refl
strip_end-last (c ∷ []) h = ground (arith)
strip_end-last (c ∷ d ∷ w) h = rw (strip_end-last (d ∷ w) h.1, strip_end) refl

pub strip_end-front :
    (w t : Str) (d : ℕ) (u : Str) → strip_end t ≡ d ∷ u → strip_end (w ++ t) ≡ w ++ d ∷ u
unfolding strip_end
strip_end-front [] t d u e = e
strip_end-front (c ∷ []) t d u e = rw (e, strip_end) refl
strip_end-front (c ∷ b ∷ w) t d u e = rw (strip_end-front (b ∷ w) t d u e, strip_end) refl

pub strip_end_nil : strip_end [] ≡ []
unfolding strip_end
strip_end_nil = refl

pub strip_end_cons : (c d : ℕ) (s u : Str) → strip_end s ≡ d ∷ u → strip_end (c ∷ s) ≡ c ∷ d ∷ u
unfolding strip_end
strip_end_cons c d s u e = rw (e, strip_end) refl
