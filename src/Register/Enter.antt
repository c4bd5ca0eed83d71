-- ===== src/Register/Enter.antt =====
-- `vzctl2_env_register` of lib/vz.c.
use libvzctl.Common.{
  ℕ, Bool, true, false, not, ◌||◌, ◌&&◌, Option, none, some, [], ◌∷◌, Str, ltb, ◌==◌, if◌then◌else◌,
}
use libvzctl.Common.Errors.{e_env_manage_disabled, minus_one}
use libvzctl.Register.{
  RegFlags, RegOutcome, reg_returns, ◌and_then◌, revoke, del_everywhere, add_resource, del_resource,
  write_owner, put_serverid, renew_private, set_name, unlink_name, link_name, set_ids, save_conf,
  unlink_conf, link_conf, send_registered,
}
use libvzctl.Register.Owner.{OwnerCalls, check_owner, is_shared, ConfOf, validate_eid}

-- The results of the calls. `ha_off` says that HA_ENABLE is off, `is_taken` that another container
-- has the name, `same_dev` that the old link of the name is there and on the device of the
-- configuration. `owner_written` is the `fopen` of the owner file for writing, `serverid_known` the
-- success of `get_serverid`. A layout that is not known is none.
pub record RegCalls : Type 0 where
  pub has_path : Bool
  pub has_realpath : Bool
  pub layout : Option ℕ
  pub has_conf : Bool
  pub opened : Bool
  pub ctid : Option Str
  pub owner : OwnerCalls
  pub on_pcs : Bool
  pub ha_off : Bool
  pub external : Bool
  pub ha_configured : Bool
  pub conf_of : Str → ConfOf
  pub veid : Option Str
  pub revoked : ℕ
  pub added : ℕ
  pub deleted : ℕ
  pub owner_written : Bool
  pub serverid_known : Bool
  pub param_name : Option Str
  pub conf_name : Option Str
  pub is_taken : Str → Bool
  pub uniq_name : Str → Str
  pub same_dev : Bool
  pub name_linked : Bool
  pub saved : ℕ
  pub had_link : Bool
  pub linked : Bool

abbrev skips : RegFlags → Bool
skips flags = flags.skip_cluster || flags.skip_ha_cluster

-- Whether the resource of the container is added to the cluster.
abbrev pub adds_resource : RegCalls → RegFlags → Bool
adds_resource o flags = not (skips flags) && (is_shared o.owner.fs && not o.ha_off)

-- The label err.
unfoldable pub reg_err : RegCalls → (ha_resource_added : Bool) → RegOutcome
reg_err o added =
    if added then del_resource o.deleted and_then reg_returns minus_one else reg_returns minus_one

-- From `vzctl2_env_set_param(h, "VEID", ctid)` on.
unfoldable pub reg_save : RegCalls → Bool → RegOutcome
unfolding reg_err
reg_save o added =
    set_ids
    and_then save_conf o.saved
    and_then (if not (o.saved == 0)
        then reg_err o added
        else unlink_conf o.had_link
          and_then link_conf o.linked
          and_then (if o.linked then send_registered and_then reg_returns 0 else reg_err o added))

-- From the `unlink` in front of the link of the name on.
unfoldable pub reg_link_name : RegCalls → Bool → Str → RegOutcome
unfolding reg_err
reg_link_name o added name =
    unlink_name name
    and_then link_name name o.name_linked
    and_then (if o.name_linked then reg_save o added else reg_err o added)

-- The block under `name != NULL && *name != '\0'`.
unfoldable pub reg_new_name : RegCalls → Bool → Str → RegOutcome
reg_new_name o added name =
    let new_name = if o.is_taken name then o.uniq_name name else name in
    set_name new_name and_then elim o.conf_name [
      | none ↦ reg_link_name o added new_name
      | some old ↦
          if o.same_dev
          then unlink_name old and_then reg_link_name o added new_name
          else reg_link_name o added new_name
    ]

reg_name_or : RegCalls → Bool → Option Str → RegOutcome
reg_name_or o added none = reg_save o added
reg_name_or o added (some []) = reg_save o added
reg_name_or o added (some (c ∷ name)) = reg_new_name o added (c ∷ name)

-- `param->name ?: h->env_param->name->name`.
unfoldable pub reg_name : RegCalls → Bool → RegOutcome
unfolding reg_name_or
reg_name o added = elim o.param_name [
  | none ↦ reg_name_or o added o.conf_name
  | some name ↦ reg_name_or o added (some name)
]

-- From `renew_VE_PRIVATE` on, which returns 0.
unfoldable pub reg_private : RegCalls → Bool → RegOutcome
reg_private o added = renew_private and_then reg_name o added

-- From the test of VZ_REG_SKIP_OWNER on. Without the id of the server the owner file stays empty.
unfoldable pub reg_owner : RegCalls → RegFlags → Bool → RegOutcome
unfolding reg_err reg_private
reg_owner o flags added =
    if flags.skip_owner
    then reg_private o added
    else write_owner o.owner_written
      and_then (if o.owner_written
          then put_serverid o.serverid_known and_then reg_private o added
          else reg_err o added)

-- From `shaman_add_resource` on.
unfoldable pub reg_add : RegCalls → RegFlags → RegOutcome
unfolding reg_err is_shared
reg_add o flags =
    if adds_resource o flags
    then add_resource o.added
      and_then (if o.added == 0 then reg_owner o flags true else reg_err o false)
    else reg_owner o flags false

reg_del_everywhere : RegCalls → RegFlags → RegOutcome
reg_del_everywhere o flags =
    if not (skips flags) && not o.ha_off
    then del_everywhere and_then reg_add o flags
    else reg_add o flags

-- With VZ_REG_FORCE.
unfoldable pub reg_force : RegCalls → RegFlags → RegOutcome
unfolding reg_del_everywhere reg_err is_shared
reg_force o flags =
    if check_owner o.owner == e_env_manage_disabled && is_shared o.owner.fs
    then if o.on_pcs && not (skips flags)
      then revoke o.revoked
        and_then (if o.revoked == 0 then reg_del_everywhere o flags else reg_err o false)
      else reg_del_everywhere o flags
    else reg_add o flags

-- Without VZ_REG_FORCE.
unfoldable pub reg_checked : RegCalls → RegFlags → (ctid : Str) → RegOutcome
unfolding reg_err
reg_checked o flags ctid =
    if not (flags.renew && not o.on_pcs) && not (check_owner o.owner == 0)
    then reg_err o false
    else if validate_eid o.conf_of o.veid ctid
    then reg_add o flags
    else reg_err o false

-- From `get_cid_uuid_pair` on.
unfoldable pub reg_opened : RegCalls → RegFlags → Option Str → RegOutcome
unfolding reg_err
reg_opened o flags none = reg_err o false
reg_opened o flags (some ctid) =
    if o.on_pcs && (not o.ha_off && (o.external && o.ha_configured))
    then reg_err o false
    else if flags.force
    then reg_force o flags
    else reg_checked o flags ctid

-- Whether the layout is known and at least VZCTL_LAYOUT_4.
unfoldable pub is_new_layout : Option ℕ → Bool
is_new_layout none = false
is_new_layout (some layout) = not (ltb layout 4)

-- `vzctl2_env_register`.
unfoldable pub env_register : RegCalls → RegFlags → RegOutcome
unfolding is_new_layout
env_register o flags =
    if o.has_path && (o.has_realpath && (is_new_layout o.layout && (o.has_conf && o.opened)))
    then reg_opened o flags o.ctid
    else reg_returns minus_one
