-- ===== src/Escape/Tests.antt =====
-- Descriptions at concrete inputs.
use libvzctl.Common.{◌≡◌, refl, ◌∷◌, codes}
use libvzctl.Escape.{hex_digit, is_plain, set_description, unescapestr_eq}
use libvzctl.Escape.Trip.{unescapestr_eq-set_description}

set_two : set_description (codes "a b") ≡ codes "a=20b"
unfolding set_description hex_digit
set_two = refl

-- The last of the bytes is lost if all of them are escaped.
set_spaces : set_description (codes "  ") ≡ codes "=20="
unfolding set_description hex_digit
set_spaces = refl

signed : unescapestr_eq (codes "=-1=zz") ≡ 255 ∷ codes "=zz"
unfolding unescapestr_eq
signed = refl

unescapestr_eq-set_description_example :
    unescapestr_eq (set_description (codes "a = b")) ≡ codes "a = b"
unfolding is_plain
unescapestr_eq-set_description_example = unescapestr_eq-set_description (codes "a = b") refl
