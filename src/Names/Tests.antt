-- ===== src/Names/Tests.antt =====
-- Names and suffixes at concrete inputs.
use libvzctl.Common.{◌≡◌, refl, true, false, some, [], codes}
use libvzctl.Names.{check_name, get_mul, is_env_name_valid, is_networkid_valid, is_str_valid}

no_name : check_name [] [] 5 ≡ false
unfolding check_name
no_name = refl

network_name : is_networkid_valid (codes "net #1") ≡ true
unfolding is_networkid_valid
network_name = refl

mega : get_mul b'm' ≡ some 1048576
unfolding get_mul
mega = refl

dotted_string : is_str_valid (codes "a.b-c") ≡ true
unfolding is_str_valid
dotted_string = refl

no_semicolon : is_env_name_valid (codes "a;b") ≡ false
unfolding is_env_name_valid
no_semicolon = refl
