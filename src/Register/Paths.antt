-- ===== src/Register/Paths.antt =====
-- What registering and unregistering a container leave behind.
use libvzctl.Common.{
  ℕ, zero, ◌⊎◌, ◌≡◌, ◌≢◌, refl, Bool, true, false, not, ◌||◌, ◌&&◌, some, List, [], Str, arith,
  ◌==◌, if◌then◌else◌, after_calls, Option-cases,
}
use libvzctl.Common.Errors.{minus_one, e_env_manage_disabled}
use libvzctl.Register.{
  RegEvent, RegFlags, add_resource, del_resource, write_owner, put_serverid, unlink_owner,
  unlink_conf, link_conf, send_registered, send_unregistered,
}
use libvzctl.Register.Owner.{
  SharedFs, on_shared, on_local, unknown_fs, no_path, is_shared, check_owner, validate_eid,
}
use libvzctl.Register.Enter.{
  RegCalls, adds_resource, reg_err, reg_save, reg_link_name, reg_new_name, reg_name, reg_private,
  reg_owner, reg_add, reg_force, reg_checked, reg_opened, env_register, is_new_layout,
}
use libvzctl.Register.Leave.{
  UnregCalls, unreg_conf_only, unreg_name, unreg_owned, unreg_save, env_unreg, is_unlinked,
}

abbrev pub linked_by : Bool → RegEvent → Bool
linked_by b (link_conf true) = true
linked_by b (unlink_conf true) = false
linked_by b e = b

abbrev pub resource_by : Bool → RegEvent → Bool
resource_by b (add_resource zero) = true
resource_by b (del_resource zero) = false
resource_by b e = b

abbrev pub owned_by_us : Bool → RegEvent → Bool
owned_by_us b (write_owner true) = false
owned_by_us b (put_serverid true) = true
owned_by_us b unlink_owner = false
owned_by_us b e = b

abbrev pub announced_by : Bool → RegEvent → Bool
announced_by b send_registered = true
announced_by b send_unregistered = false
announced_by b e = b

-- Whether the link to the configuration is there.
abbrev pub linked : Bool → List RegEvent → Bool
linked = after_calls linked_by

-- Whether the cluster has the resource that was added.
abbrev pub resource : Bool → List RegEvent → Bool
resource = after_calls resource_by

-- Whether the owner file is this server's.
abbrev pub owned : Bool → List RegEvent → Bool
owned = after_calls owned_by_us

-- Whether the last state that was sent is that of a registered container.
abbrev pub announced : Bool → List RegEvent → Bool
announced = after_calls announced_by

abbrev pub is_on_shared : SharedFs → Bool
is_on_shared on_shared = true
is_on_shared fs = false

is_shared-on : (fs : SharedFs) → is_shared fs ≡ is_on_shared fs
unfolding is_shared
is_shared-on on_shared = refl
is_shared-on on_local = refl
is_shared-on unknown_fs = refl
is_shared-on no_path = refl

reg_name_success :
    (o : RegCalls) (added l r w a : Bool)
    → (reg_name o added).ret ≡ 0
    → (linked l (reg_name o added).trace ≡ true)
      × (resource r (reg_name o added).trace ≡ r)
      × (owned w (reg_name o added).trace ≡ w)
      × (announced a (reg_name o added).trace ≡ true)
unfolding reg_name reg_new_name reg_link_name reg_save reg_err
reg_name_success o added l r w a h = ground arith

reg_name_failure :
    (o : RegCalls) (added : Bool)
    → o.deleted ≡ 0
    → (reg_name o added).ret ≢ 0
    → (resource added (reg_name o added).trace ≡ false)
      × (announced false (reg_name o added).trace ≡ false)
unfolding reg_name reg_new_name reg_link_name reg_save reg_err
reg_name_failure o added d h = ground arith

reg_owner_success :
    (o : RegCalls) (flags : RegFlags) (added l r w a : Bool)
    → (reg_owner o flags added).ret ≡ 0
    → (linked l (reg_owner o flags added).trace ≡ true)
      × (resource r (reg_owner o flags added).trace ≡ r)
      × (owned w (reg_owner o flags added).trace
          ≡ (if flags.skip_owner then w else o.serverid_known))
      × (announced a (reg_owner o flags added).trace ≡ true)
unfolding reg_owner reg_private reg_err
reg_owner_success o flags added l r w a h = ground (
  arith,
  reg_name_success o added l r w a,
  reg_name_success o added l r false a,
  reg_name_success o added l r true a,
)

reg_owner_failure :
    (o : RegCalls) (flags : RegFlags) (added : Bool)
    → o.deleted ≡ 0
    → (reg_owner o flags added).ret ≢ 0
    → (resource added (reg_owner o flags added).trace ≡ false)
      × (announced false (reg_owner o flags added).trace ≡ false)
unfolding reg_owner reg_private reg_err
reg_owner_failure o flags added d h = ground (arith, reg_name_failure o added d)

reg_add_success :
    (o : RegCalls) (flags : RegFlags) (l r w a : Bool)
    → (reg_add o flags).ret ≡ 0
    → (linked l (reg_add o flags).trace ≡ true)
      × (resource r (reg_add o flags).trace ≡ r || adds_resource o flags)
      × (owned w (reg_add o flags).trace ≡ (if flags.skip_owner then w else o.serverid_known))
      × (announced a (reg_add o flags).trace ≡ true)
unfolding reg_add reg_err
reg_add_success o flags l r w a h =
    ground
      (arith, reg_owner_success o flags true l true w a, reg_owner_success o flags false l r w a)

reg_add_failure :
    (o : RegCalls) (flags : RegFlags)
    → o.deleted ≡ 0
    → (reg_add o flags).ret ≢ 0
    → (resource false (reg_add o flags).trace ≡ false)
      × (announced false (reg_add o flags).trace ≡ false)
unfolding reg_add reg_err
reg_add_failure o flags d h =
    ground (arith, reg_owner_failure o flags true d, reg_owner_failure o flags false d)

pub env_register_success :
    (o : RegCalls) (flags : RegFlags) (l r w a : Bool)
    → (env_register o flags).ret ≡ 0
    → (linked l (env_register o flags).trace ≡ true)
      × (resource r (env_register o flags).trace ≡ (
          r
          || not (flags.skip_cluster || flags.skip_ha_cluster)
            && (is_on_shared o.owner.fs && not o.ha_off)))
      × (owned w (env_register o flags).trace ≡ (if flags.skip_owner then w else o.serverid_known))
      × (announced a (env_register o flags).trace ≡ true)
unfolding env_register reg_opened reg_force reg_checked reg_err
env_register_success o flags l r w a h =
    ground (arith, is_shared-on o.owner.fs, Option-cases o.ctid, reg_add_success o flags l r w a)

-- When registering a container that has no resource in the cluster returns an error, and taking a
-- resource back works, it has none afterwards, and no state has been sent.
pub env_register_failure :
    (o : RegCalls) (flags : RegFlags)
    → o.deleted ≡ 0
    → (env_register o flags).ret ≢ 0
    → (resource false (env_register o flags).trace ≡ false)
      × (announced false (env_register o flags).trace ≡ false)
unfolding env_register reg_opened reg_force reg_checked reg_err
env_register_failure o flags d h = ground (arith, Option-cases o.ctid, reg_add_failure o flags d)

-- Without VZ_REG_FORCE a container is not touched if its id is not valid, or if another server owns
-- it and VZ_REG_RENEW is not set or does not count on pstorage.
pub env_register_refuses :
    (o : RegCalls) (flags : RegFlags) (ctid : Str)
    → flags.force ≡ false
    → o.ctid ≡ some ctid
    → (validate_eid o.conf_of o.veid ctid
        && (check_owner o.owner == 0 || flags.renew && not o.on_pcs))
      ≡ false
    → ((env_register o flags).ret ≡ minus_one) × ((env_register o flags).trace ≡ [])
unfolding env_register reg_opened reg_checked reg_err
env_register_refuses o flags ctid f c v = rw c (ground arith)

unreg_name_leaves :
    (o : UnregCalls) (flags : RegFlags) (l w a : Bool)
    → ((unreg_name o flags).ret ≡ 0)
      × (linked l (unreg_name o flags).trace ≡ (if is_unlinked o.link then false else l))
      × (owned w (unreg_name o flags).trace ≡ w)
      × (announced a (unreg_name o flags).trace ≡ false)
unfolding unreg_name
unreg_name_leaves o flags l w a = ground (arith, Option-cases o.name, is_unlinked)

-- When it returns 0 for a container whose private area is there, of a known layout and its own, the
-- state has been sent and, unless VZ_UNREG_PRESERVE is set, the owner file is gone. The link to the
-- configuration is gone too, if removing it worked: whether it did is not in the result.
pub env_unreg_success :
    (o : UnregCalls) (flags : RegFlags) (l w a : Bool)
    → o.has_private ≡ true
    → is_new_layout o.layout ≡ true
    → check_owner o.owner ≡ 0
    → (env_unreg o flags).ret ≡ 0
    → (linked l (env_unreg o flags).trace ≡ (if is_unlinked o.link then false else l))
      × (owned w (env_unreg o flags).trace ≡ (if flags.preserve then w else false))
      × (announced a (env_unreg o flags).trace ≡ false)
unfolding env_unreg unreg_owned unreg_save
env_unreg_success o flags l w a p v c h =
    ground (arith, unreg_name_leaves o flags l w a, unreg_name_leaves o flags l false a)

-- A container that another server owns loses only its link here: the owner file stays.
pub env_unreg_foreign :
    (o : UnregCalls) (flags : RegFlags) (l w : Bool)
    → o.is_run ≡ false
    → check_owner o.owner ≡ e_env_manage_disabled
    → is_new_layout o.layout ≡ true
    → owned w (env_unreg o flags).trace ≡ w
unfolding env_unreg unreg_conf_only
env_unreg_foreign o flags l w r c v = ground arith

abbrev pub Ends : ℕ → Type 0
Ends ret = (ret ≡ 0) ⊎ (ret ≡ minus_one)

reg_name_result : (o : RegCalls) (added : Bool) → Ends (reg_name o added).ret
unfolding reg_name reg_new_name reg_link_name reg_save reg_err
reg_name_result o added = ground arith

reg_add_result : (o : RegCalls) (flags : RegFlags) → Ends (reg_add o flags).ret
unfolding reg_add reg_owner reg_err
reg_add_result o flags = ground (arith, reg_name_result o true, reg_name_result o false)

-- The result is 0 or -1.
pub env_register_result : (o : RegCalls) (flags : RegFlags) → Ends (env_register o flags).ret
unfolding env_register reg_opened reg_force reg_checked reg_err
env_register_result o flags = ground (arith, Option-cases o.ctid, reg_add_result o flags)
