-- ===== src/Create/Tests.antt =====
-- Creating a container at concrete calls.
use libvzctl.Common.{◌≡◌, refl, true, false, none, some, codes, arith}
use libvzctl.Snapshot.Flow.{missing, exists}
use libvzctl.Register.Owner.{OwnerCalls, on_shared, no_owner, link_absent, conf_absent, check_owner}
use libvzctl.Register.Enter.{
  RegCalls, env_register, reg_opened, reg_force, reg_add, reg_owner, reg_private, reg_name,
  reg_save, is_new_layout,
}
use libvzctl.Create.Private.{create_env_private}
use libvzctl.Create.{
  CreateCalls, env_create, create_opened, create_private, create_copy, create_mount, create_save,
  create_register, create_apps, create_name, private_events, register_events,
}
use libvzctl.Create.Paths.{area, conf, env_create_success, env_create_failure}

abbrev new_owner : OwnerCalls
new_owner = record {
  fs = on_shared;
  owner_file = no_owner;
  is_uuid = λ s. true;
  hostname = none;
  serverid = codes "this";
}

abbrev reg_calls : RegCalls
reg_calls = record {
  has_path = true;
  has_realpath = true;
  layout = some 5;
  has_conf = true;
  opened = true;
  ctid = some (codes "101");
  owner = new_owner;
  on_pcs = false;
  ha_off = false;
  external = false;
  ha_configured = true;
  conf_of = λ c. record { at_lstat = link_absent; at_stat = conf_absent };
  veid = none;
  revoked = 0;
  added = 0;
  deleted = 0;
  owner_written = true;
  serverid_known = true;
  param_name = none;
  conf_name = none;
  is_taken = λ n. false;
  uniq_name = λ n. n;
  same_dev = false;
  name_linked = true;
  saved = 0;
  had_link = false;
  linked = true;
}

abbrev calls : CreateCalls
calls = record {
  ids = 0;
  status = 0;
  exists = false;
  sample = none;
  conf = missing;
  global = some exists;
  open_conf = 0;
  merged = 0;
  has_private = true;
  private_stat = missing;
  name_valid = 0;
  has_root = true;
  layout = 5;
  private = record {
    parent = 0;
    locked = true;
    tmp = missing;
    created = 0;
    filled = 0;
    updated = 0;
    is_encrypted = false;
    encrypted = 0;
    renamed = true;
  };
  copied = 0;
  no_root_disk = false;
  mounted = 0;
  umounted = 0;
  saved = 0;
  register = reg_calls;
  skip_app = false;
  has_apps = true;
  installed = 0;
  named = 0;
  conf_removed = true;
  destroyed = 0;
}

env_create_success_example :
    (area false (env_create calls).trace ≡ true) × (conf false (env_create calls).trace ≡ true)
unfolding env_create create_opened create_private create_copy create_mount create_save
    create_register create_apps create_name create_env_private private_events register_events
    env_register reg_opened reg_force reg_add reg_owner reg_private reg_name reg_save check_owner
    is_new_layout
env_create_success_example = env_create_success calls false refl refl

-- Installing the application templates fails.
abbrev no_apps : CreateCalls
no_apps = record calls { installed = 91 }

env_create_failure_example : area false (env_create no_apps).trace ≡ false
unfolding env_create create_opened create_private create_copy create_mount create_save
    create_register create_apps create_name create_env_private private_events register_events
    env_register reg_opened reg_force reg_add reg_owner reg_private reg_name reg_save check_owner
    is_new_layout
env_create_failure_example = env_create_failure no_apps refl (ground arith)
