-- ===== src/Register/Owner.antt =====
-- `vzctl_check_owner_quiet` and `validate_eid` of lib/vz.c.
use libvzctl.Common.{
  ℕ, Bool, true, false, Option, none, some, [], ◌∷◌, Str, str_eq, ◌==◌, if◌then◌else◌,
}
use libvzctl.Common.Errors.{e_system, e_env_manage_disabled}

-- `is_shared_fs`: 1, 0, and -1 without and with ENOENT.
pub data SharedFs : Type 0 where
  on_shared on_local unknown_fs no_path : SharedFs

-- The file VE_PRIVATE/.owner.
pub data OwnerFile : Type 0 where
  no_owner bad_owner : OwnerFile
  owned_by : Str → OwnerFile

-- `is_uuid` is the success of `vzctl2_get_normalized_uuid`, `hostname` that of `get_hostname`, and
-- `serverid` what `get_serverid` stores.
pub record OwnerCalls : Type 0 where
  pub fs : SharedFs
  pub owner_file : OwnerFile
  pub is_uuid : Str → Bool
  pub hostname : Option Str
  pub serverid : Str

-- Up to `strchr(ve_ownerid, '\n')`.
first_line : Str → Str
first_line [] = []
first_line (c ∷ s) = if c == b'\n' then [] else c ∷ first_line s

-- `vzctl_check_owner_quiet` from the `vzctl2_get_normalized_uuid` on.
pub compare_owner : OwnerCalls → Str → ℕ
compare_owner o owner =
    if o.is_uuid owner
    then if str_eq o.serverid owner then 0 else e_env_manage_disabled
    else elim o.hostname [
      | none ↦ e_env_manage_disabled
      | some host ↦ if str_eq host owner then 0 else e_env_manage_disabled
    ]

pub read_owner : OwnerCalls → OwnerFile → ℕ
unfolding compare_owner first_line
read_owner o no_owner = 0
read_owner o bad_owner = e_system
read_owner o (owned_by text) = compare_owner o (first_line text)

check_owner_on : OwnerCalls → SharedFs → ℕ
unfolding read_owner
check_owner_on o on_shared = read_owner o o.owner_file
check_owner_on o on_local = 0
check_owner_on o unknown_fs = e_system
check_owner_on o no_path = 0

unfoldable pub check_owner : OwnerCalls → ℕ
unfolding check_owner_on
check_owner o = check_owner_on o o.fs

unfoldable pub is_shared : SharedFs → Bool
is_shared on_shared = true
is_shared on_local = false
is_shared unknown_fs = false
is_shared no_path = false

-- `stat` of a configuration file, and `cmp_stat` with that of the container.
pub data ConfStat : Type 0 where
  conf_same conf_other conf_absent conf_error : ConfStat

-- `lstat`, and whether the file is a link.
pub data ConfLink : Type 0 where
  is_link is_file link_absent link_error : ConfLink

-- What the file of an id is.
pub record ConfOf : Type 0 where
  pub at_lstat : ConfLink
  pub at_stat : ConfStat

pub is_free_or_same : ConfStat → Bool
is_free_or_same conf_same = true
is_free_or_same conf_other = false
is_free_or_same conf_absent = true
is_free_or_same conf_error = false

check_link : ConfOf → ConfLink → Bool
unfolding is_free_or_same
check_link c is_link = is_free_or_same c.at_stat
check_link c is_file = false
check_link c link_absent = true
check_link c link_error = false

pub is_not_same : ConfStat → Bool
is_not_same conf_same = false
is_not_same conf_other = true
is_not_same conf_absent = true
is_not_same conf_error = false

-- `validate_eid`: 0 is true. Without VEID in the configuration the source reads an id that it has not
-- set; here that id is empty.
unfoldable pub validate_eid : (conf : Str → ConfOf) → (veid : Option Str) → (ctid : Str) → Bool
unfolding check_link is_not_same
validate_eid conf none ctid = check_link (conf ctid) (conf ctid).at_lstat
validate_eid conf (some []) ctid = check_link (conf ctid) (conf ctid).at_lstat
validate_eid conf (some (c ∷ veid)) ctid =
    if is_not_same (conf (c ∷ veid)).at_stat
    then check_link (conf ctid) (conf ctid).at_lstat
    else false
