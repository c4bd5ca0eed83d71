-- ===== src/Create.antt =====
-- Creating a container: `create_env_private` and `vzctl2_env_create` of lib/create.c, as the value
-- returned and the calls that were made. The results of the calls are arguments; the registration is
-- that of Register.
pub mod Private
pub mod Paths
mod Tests
use libvzctl.Common.{
  ℕ, Bool, true, false, not, ◌&&◌, ◌||◌, Option, none, some, List, [], ◌∷◌, ◌++◌, ltb, ◌==◌,
  if◌then◌else◌,
}
use libvzctl.Common.Errors.{
  e_inval, e_private_exists, e_cp_config, e_register, e_no_param, minus_one,
}
use libvzctl.Snapshot.Flow.{Stat, missing, is_there, is_nonzero}
use libvzctl.Register.{RegEvent, RegFlags, RegOutcome}
use libvzctl.Register.Enter.{RegCalls, env_register}
use libvzctl.Create.Private.{PrivateCalls, PrivateEvent, create_env_private}

-- The calls that change something, with their results.
pub data CreateEvent : Type 0 where
  in_private : PrivateEvent → CreateEvent
  in_register : RegEvent → CreateEvent
  copy_conf unlink_conf : Bool → CreateEvent
  mount umount : ℕ → CreateEvent
  post_create : CreateEvent
  set_fs_uuid : CreateEvent
  save_conf : ℕ → CreateEvent
  install_apps : ℕ → CreateEvent
  set_name : ℕ → CreateEvent
  destroy : ℕ → CreateEvent

pub record CreateOutcome : Type 0 where
  pub ret : ℕ
  pub trace : List CreateEvent

abbrev pub create_returns : ℕ → CreateOutcome
create_returns n = record { ret = n; trace = [] }

infixr 6 ◌then_create◌
abbrev pub ◌then_create◌ : CreateEvent → CreateOutcome → CreateOutcome
e then_create o = record o { trace = e ∷ o.trace }

-- The calls of a part of the function, then the rest of it.
infixr 6 ◌all_then◌
abbrev pub ◌all_then◌ : List CreateEvent → CreateOutcome → CreateOutcome
t all_then o = record o { trace = t ++ o.trace }

pub private_events : List PrivateEvent → List CreateEvent
private_events [] = []
private_events (e ∷ t) = in_private e ∷ private_events t

pub register_events : List RegEvent → List CreateEvent
register_events [] = []
register_events (e ∷ t) = in_register e ∷ register_events t

-- The results of the calls. `sample` is the file of `param->config`, if that is given; `conf` is the
-- configuration of the id, `global` that of CONFIGFILE. Allocations work.
pub record CreateCalls : Type 0 where
  pub ids : ℕ
  pub status : ℕ
  pub exists : Bool
  pub sample : Option Stat
  pub conf : Stat
  pub global : Option Stat
  pub open_conf : ℕ
  pub merged : ℕ
  pub has_private : Bool
  pub private_stat : Stat
  pub name_valid : ℕ
  pub has_root : Bool
  pub layout : ℕ
  pub private : PrivateCalls
  pub copied : ℕ
  pub no_root_disk : Bool
  pub mounted : ℕ
  pub umounted : ℕ
  pub saved : ℕ
  pub register : RegCalls
  pub skip_app : Bool
  pub has_apps : Bool
  pub installed : ℕ
  pub named : ℕ
  pub conf_removed : Bool
  pub destroyed : ℕ

-- The label err with an error.
pub create_err : CreateCalls → (use_sample : Bool) → ℕ → CreateOutcome
create_err o use_sample ret =
    if use_sample
    then unlink_conf o.conf_removed then_create destroy o.destroyed then_create create_returns ret
    else destroy o.destroyed then_create create_returns ret

-- From `vzctl2_set_name` on.
pub create_name : CreateCalls → Bool → CreateOutcome
unfolding create_err
create_name o use_sample =
    set_name o.named
    then_create (if o.named == 0 then create_returns 0 else create_err o use_sample o.named)

-- From the application templates on.
pub create_apps : CreateCalls → Bool → CreateOutcome
unfolding create_name create_err
create_apps o use_sample =
    if not o.skip_app && o.has_apps
    then install_apps o.installed
      then_create (if o.installed == 0
          then create_name o use_sample
          else create_err o use_sample o.installed)
    else create_name o use_sample

abbrev pub reg_force : RegFlags
reg_force = record {
  force = true;
  renew = false;
  skip_cluster = false;
  skip_ha_cluster = false;
  skip_owner = false;
  preserve = false;
}

-- From the registration on.
pub create_register : CreateCalls → Bool → CreateOutcome
unfolding create_err
create_register o use_sample =
    let reg = env_register o.register reg_force in
    if ltb o.layout 4
    then create_apps o use_sample
    else register_events reg.trace
      all_then (if reg.ret == minus_one
          then create_err o use_sample e_register
          else create_apps o use_sample)

-- From `vzctl2_env_save_conf` on.
pub create_save : CreateCalls → Bool → CreateOutcome
unfolding create_err
create_save o use_sample =
    save_conf o.saved
    then_create (if o.saved == 0
        then create_register o use_sample
        else create_err o use_sample o.saved)

-- From the mount on.
pub create_mount : CreateCalls → Bool → CreateOutcome
unfolding create_err
create_mount o use_sample =
    if o.no_root_disk
    then create_save o use_sample
    else mount o.mounted
      then_create (if not (o.mounted == 0)
          then create_err o use_sample o.mounted
          else post_create
            then_create umount o.umounted
            then_create (if ltb o.layout 5
                then create_save o use_sample
                else set_fs_uuid then_create create_save o use_sample))

-- From the copy of the sample configuration on.
pub create_copy : CreateCalls → Bool → CreateOutcome
unfolding create_err
create_copy o use_sample =
    if use_sample
    then copy_conf (o.copied == 0)
      then_create (if o.copied == 0
          then create_mount o use_sample
          else create_err o use_sample o.copied)
    else create_mount o use_sample

-- From `create_env_private` on.
pub create_private : CreateCalls → Bool → CreateOutcome
unfolding create_err
create_private o use_sample =
    let p = create_env_private o.private in
    private_events p.trace
    all_then (if p.ret == 0 then create_copy o use_sample else create_err o use_sample p.ret)

-- The tests between `vzctl2_env_open_conf` and `create_env_private`.
pub create_opened : CreateCalls → Bool → CreateOutcome
unfolding is_there is_nonzero
create_opened o use_sample =
    if not (o.open_conf == 0)
    then create_returns o.open_conf
    else if not (o.merged == 0)
    then create_returns o.merged
    else if not o.has_private
    then create_returns e_inval
    else if is_nonzero o.private_stat
    then create_returns e_private_exists
    else if not (o.name_valid == 0)
    then create_returns o.name_valid
    else if is_there o.conf && is_there o.private_stat
    then create_returns e_private_exists
    else if not o.has_root
    then create_returns e_no_param
    else create_private o use_sample

-- The choice of the configuration without `param->config`.
create_default : CreateCalls → Option Stat → CreateOutcome
unfolding is_there
create_default o none = create_opened o (is_there o.conf)
create_default o (some global) = create_opened o (is_there o.conf || is_there global)

create_from : CreateCalls → Option Stat → CreateOutcome
unfolding is_there create_default
create_from o none = create_default o o.global
create_from o (some sample) =
    if is_there sample then create_opened o true else create_returns e_cp_config

-- `vzctl2_env_create`.
pub env_create : CreateCalls → CreateOutcome
unfolding create_from
env_create o =
    if not (o.ids == 0)
    then create_returns o.ids
    else if not (o.status == 0)
    then create_returns o.status
    else if o.exists
    then create_returns e_private_exists
    else create_from o o.sample
