-- ===== src/Common/Errors.antt =====
-- The error codes of lib/vzerror.h that the modelled functions return; 0 is success.
use Prim.Native.Nat.{ℕ}

abbrev pub e_nomem : ℕ
e_nomem = 4

abbrev pub e_inval : ℕ
e_inval = 21

abbrev pub e_not_enough_params : ℕ
e_not_enough_params = 27

abbrev pub e_setubc : ℕ
e_setubc = 1

abbrev pub e_cap : ℕ
e_cap = 13

abbrev pub e_env_not_run : ℕ
e_env_not_run = 31

abbrev pub e_conf_save : ℕ
e_conf_save = 139

abbrev pub e_create_snapshot : ℕ
e_create_snapshot = 156

abbrev pub e_delete_snapshot : ℕ
e_delete_snapshot = 158

abbrev pub e_switch_snapshot : ℕ
e_switch_snapshot = 159

abbrev pub e_mount_snapshot : ℕ
e_mount_snapshot = 160

abbrev pub e_umount_snapshot : ℕ
e_umount_snapshot = 161

abbrev pub e_long_trunc : ℕ
e_long_trunc = 205

abbrev pub e_config : ℕ
e_config = 206

abbrev pub e_system : ℕ
e_system = 3

abbrev pub e_resource : ℕ
e_resource = 6

abbrev pub e_restore : ℕ
e_restore = 17

abbrev pub e_env_run : ℕ
e_env_run = 32

abbrev pub e_env_stop : ℕ
e_env_stop = 33

abbrev pub e_actionscript : ℕ
e_actionscript = 79

abbrev pub e_wait_failed : ℕ
e_wait_failed = 133

abbrev pub e_cpupools : ℕ
e_cpupools = 170

-- -1, as an `int`.
abbrev pub minus_one : ℕ
minus_one = 4294967295

abbrev pub e_env_manage_disabled : ℕ
e_env_manage_disabled = 141

abbrev pub e_unregister : ℕ
e_unregister = 142

abbrev pub e_fs_mounted : ℕ
e_fs_mounted = 41

abbrev pub e_add_image : ℕ
e_add_image = 163

abbrev pub e_del_image : ℕ
e_del_image = 164

abbrev pub e_private_exists : ℕ
e_private_exists = 44

abbrev pub e_new_private : ℕ
e_new_private = 48

abbrev pub e_cp_config : ℕ
e_cp_config = 82

abbrev pub e_register : ℕ
e_register = 140

abbrev pub e_no_param : ℕ
e_no_param = 211

abbrev pub e_set_name : ℕ
e_set_name = 137
