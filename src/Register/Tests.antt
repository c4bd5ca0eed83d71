-- ===== src/Register/Tests.antt =====
-- Registrations at concrete calls.
use libvzctl.Common.{◌≡◌, refl, true, false, none, some, codes, arith}
use libvzctl.Register.{RegFlags}
use libvzctl.Register.Owner.{
  OwnerCalls, on_shared, no_owner, owned_by, link_absent, conf_absent, check_owner, validate_eid,
}
use libvzctl.Register.Enter.{
  RegCalls, env_register, reg_opened, reg_checked, reg_add, reg_owner, reg_private, reg_name,
  reg_save, reg_link_name, reg_new_name, is_new_layout,
}
use libvzctl.Register.Paths.{linked, resource, announced, env_register_failure}

abbrev no_flags : RegFlags
no_flags = record {
  force = false;
  renew = false;
  skip_cluster = false;
  skip_ha_cluster = false;
  skip_owner = false;
  preserve = false;
}

abbrev free_area : OwnerCalls
free_area = record {
  fs = on_shared;
  owner_file = no_owner;
  is_uuid = λ s. true;
  hostname = none;
  serverid = codes "this";
}

abbrev calls : RegCalls
calls = record {
  has_path = true;
  has_realpath = true;
  layout = some 5;
  has_conf = true;
  opened = true;
  ctid = some (codes "101");
  owner = free_area;
  on_pcs = false;
  ha_off = false;
  external = false;
  ha_configured = true;
  conf_of = λ c. record { at_lstat = link_absent; at_stat = conf_absent };
  veid = none;
  revoked = 0;
  added = 0;
  deleted = 0;
  owner_written = true;
  serverid_known = true;
  param_name = some (codes "web");
  conf_name = none;
  is_taken = λ n. false;
  uniq_name = λ n. n;
  same_dev = false;
  name_linked = true;
  saved = 0;
  had_link = false;
  linked = true;
}

-- The configuration cannot be saved.
abbrev unsaved : RegCalls
unsaved = record calls { saved = 139 }

env_register_failure_example :
    (resource false (env_register unsaved no_flags).trace ≡ false)
    × (announced false (env_register unsaved no_flags).trace ≡ false)
unfolding env_register reg_opened reg_checked reg_add reg_owner reg_private reg_name reg_new_name
    reg_link_name reg_save check_owner validate_eid is_new_layout
env_register_failure_example = env_register_failure unsaved no_flags refl (ground arith)

-- Another server owns the private area.
abbrev foreign : RegCalls
foreign = record calls { owner = record free_area { owner_file = owned_by (codes "other") } }
