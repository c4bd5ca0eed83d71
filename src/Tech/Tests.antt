-- ===== src/Tech/Tests.antt =====
-- The theorems on versions at concrete inputs.
use libvzctl.Common.{◌≡◌, refl, codes, str_eq, some, true}
use libvzctl.OnOff.{no_bits, tokens, is_delim}
use libvzctl.Tech.{tech2name, name2tech, parse_technologies, more, ver_cmp}

ver_cmp_more : ver_cmp (codes "3.10.0-862") (codes "2.6.32") ≡ more
unfolding ver_cmp
ver_cmp_more = refl

tech_names : (tech2name 14 ≡ some (codes "ext4")) × (name2tech (codes "ext4") ≡ some 14)
unfolding tech2name name2tech str_eq
tech_names = (refl, refl)

-- The unknown name is forgotten behind one that is known.
last_counts : (parse_technologies no_bits (codes "none nptl")).0 ≡ true
unfolding parse_technologies tokens is_delim name2tech str_eq
last_counts = refl
