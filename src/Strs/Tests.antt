-- ===== src/Strs/Tests.antt =====
-- Lists of strings at concrete inputs.
use libvzctl.Common.{◌≡◌, refl, not, [], ◌∷◌, Str, codes, str_eq}
use libvzctl.Common.Errors.{e_nomem}
use libvzctl.OnOff.{tokens}
use libvzctl.Strs.{copy_str, parse_str_param}

abbrev a : Str
a = codes "a"

abbrev b : Str
b = codes "b"

-- The second string has no memory: the copy goes on without it.
copy_lost : copy_str (λ s. not (str_eq s b)) [] (a ∷ b ∷ codes "c" ∷ []) ≡ a ∷ codes "c" ∷ []
unfolding copy_str str_eq
copy_lost = refl

parse_lost : parse_str_param (λ s. not (str_eq s b)) [] (codes "a,a b c") ≡ (e_nomem, a ∷ [])
unfolding parse_str_param str_eq tokens
parse_lost = refl
