-- ===== src/Net/Apply.antt =====
-- What `add_ip`, `del_ip` and `apply_venet_param` of lib/net.c leave assigned.
use libvzctl.Common.{
  ℕ, ◌≡◌, refl, Bool, true, false, not, ◌&&◌, ◌||◌, some, List, [], ◌∷◌, Str, str_eq_iff, arith,
  ◌==◌, if◌then◌else◌,
}
use libvzctl.Net.{
  IpParam, has_ip, IpOp, invert_ip_op, ve_ip_add, ve_ip_del, Assigned, is_after, env_ip_ctl,
  not_assigned, only_assigned, remove_ipv6_addr,
}
use libvzctl.Net.Assign.{env_ip_ctl_success, env_ip_ctl_rollback, env_ip_ctl_works, all_work}
use libvzctl.Net.Venet.{
  NetState, NetCalls, NetFlags, NetParam, run_net_script, env_ip_configure, err_hn, add_on_node,
  add_new_ips, add_ip, del_these, del_ip, apply_venet_param, no_ips,
}

-- Deleting an address works.
abbrev pub Deletes : NetCalls → Type 0
Deletes o = (ip : Str) → o.ctl ve_ip_del ip ≡ 0

-- `vzctl_get_env_ip` reads the addresses that are assigned.
pub record Reads (o : NetCalls) (a : Assigned) : Type 0 where
  pub addresses : List IpParam
  pub is_read : o.get_env_ip a ≡ some addresses
  pub same : (b : Str) → has_ip addresses b ≡ a b

pub has_ip-not_assigned :
    (iprun ip : List IpParam) (b : Str)
    → has_ip (not_assigned iprun ip) b ≡ (has_ip ip b && not (has_ip iprun b))
unfolding not_assigned has_ip
has_ip-not_assigned iprun [] b = refl
has_ip-not_assigned iprun (it ∷ ip) b =
    ground (arith, str_eq_iff it.ip b, has_ip-not_assigned iprun ip b)

has_ip-only_assigned :
    (iprun ip : List IpParam) (b : Str)
    → has_ip (only_assigned iprun ip) b ≡ (has_ip ip b && has_ip iprun b)
unfolding only_assigned has_ip
has_ip-only_assigned iprun [] b = refl
has_ip-only_assigned iprun (it ∷ ip) b =
    ground (arith, str_eq_iff it.ip b, has_ip-only_assigned iprun ip b)

run_net_script-assigned :
    (o : NetCalls) (op : IpOp) (ip : List IpParam) (s : NetState)
    → (run_net_script o op ip s).1.assigned ≡ s.assigned
unfolding run_net_script
run_net_script-assigned o op ip s = ground arith

env_ip_configure-assigned :
    (o : NetCalls) (flags : NetFlags) (op : IpOp) (ip : List IpParam) (delall : Bool) (s : NetState)
    → (env_ip_configure o flags op ip delall s).1.assigned ≡ s.assigned
unfolding env_ip_configure
env_ip_configure-assigned o flags op ip delall s = ground arith

err_hn-value :
    (o : NetCalls) (ip ipadd : List IpParam) (ret : ℕ) (s : NetState) (b : Str)
    → Deletes o
    → ((err_hn o ip ipadd ret s).0 ≡ ret)
      × ((err_hn o ip ipadd ret s).1.assigned b ≡ (if has_ip ip b then false else s.assigned b))
unfolding err_hn is_after
err_hn-value o ip ipadd ret s b w = (
  refl,
  rw (run_net_script-assigned o ve_ip_del ipadd s)
      (env_ip_ctl_works o.ctl ve_ip_del ip false s.assigned b w),
)

-- The scripts leave the kernel's addresses alone, and err_hn deletes all that are in the list.
add_on_node-value :
    (o : NetCalls) (flags : NetFlags) (net : NetParam) (ipadd : List IpParam) (s : NetState)
    (b : Str)
    → Deletes o
    → let r = add_on_node o flags net ipadd s in
      r.1.assigned b
      ≡ (if r.0 == 0 then s.assigned b else if has_ip net.ip b then false else s.assigned b)
unfolding add_on_node
add_on_node-value o flags net ipadd s b w =
    let node = run_net_script o ve_ip_add ipadd s in
    let env = env_ip_configure o flags ve_ip_add ipadd net.delall node.1 in
    ground (
      arith,
      err_hn-value o net.ip ipadd node.0 node.1 b w,
      err_hn-value o net.ip ipadd env.0 env.1 b w,
      run_net_script-assigned o ve_ip_add ipadd s,
      env_ip_configure-assigned o flags ve_ip_add ipadd net.delall node.1,
    )

-- What `add_ip` leaves of an address when `vzctl_get_env_ip` reads the addresses of `iprun`, which
-- say of this address whether the kernel has it, and deleting an address always works: on success
-- those of the list are assigned too; if the kernel refuses one of the new addresses, all is as before;
-- if a script fails, none of the list is assigned, not even those that were before.
pub add_ip-value :
    (o : NetCalls) (flags : NetFlags) (net : NetParam) (s : NetState) (b : Str)
    (iprun : List IpParam)
    → Deletes o
    → o.get_env_ip s.assigned ≡ some iprun
    → has_ip iprun b ≡ s.assigned b
    → let r = add_ip o flags net s in
      let refused = (env_ip_ctl o.ctl ve_ip_add (not_assigned iprun net.ip) true s.assigned).0 in
      r.1.assigned b ≡ (
        if r.0 == 0
        then has_ip net.ip b || s.assigned b
        else if refused == 0
        then not (has_ip net.ip b) && s.assigned b
        else s.assigned b)
unfolding add_ip add_new_ips has_ip is_after invert_ip_op
add_ip-value o flags net s b iprun w e h =
    let ipadd = not_assigned iprun net.ip in
    let done = env_ip_ctl o.ctl ve_ip_add ipadd true s.assigned in
    let now = record s { assigned = done.1 } in
    rw e (
      ground (
        arith,
        has_ip-not_assigned iprun net.ip b,
        env_ip_ctl_success o.ctl ve_ip_add ipadd true s.assigned b,
        env_ip_ctl_rollback o.ctl ve_ip_add ipadd s.assigned b (all_work o.ctl ve_ip_del ipadd w),
        add_on_node-value o flags net ipadd now b w,
      ))

del_these-value :
    (o : NetCalls) (flags : NetFlags) (delall : Bool) (ipdel : List IpParam) (s : NetState)
    (b : Str)
    → Deletes o
    → (del_these o flags delall ipdel s).assigned b
      ≡ (if has_ip ipdel b then false else s.assigned b)
unfolding del_these is_after
del_these-value o flags delall ipdel s b w =
    let node = (run_net_script o ve_ip_del ipdel s).1 in
    let env = (env_ip_configure o flags ve_ip_del ipdel delall node).1 in
    ground (
      arith,
      run_net_script-assigned o ve_ip_del ipdel s,
      env_ip_configure-assigned o flags ve_ip_del ipdel delall node,
      env_ip_ctl_works o.ctl ve_ip_del ipdel true node.assigned b w,
      env_ip_ctl_works o.ctl ve_ip_del ipdel true env.assigned b w,
    )

-- `del_ip` deletes the addresses of its list, and all of them with IPDELALL or at a start.
pub del_ip-value :
    (o : NetCalls) (flags : NetFlags) (net : NetParam) (s : NetState) (b : Str)
    → Deletes o
    → Reads o s.assigned
    → (del_ip o flags net s).assigned b
      ≡ (if net.delall || flags.is_starting || has_ip net.ip_del b then false else s.assigned b)
unfolding del_ip has_ip
del_ip-value o flags net s b w r =
    let delall = net.delall || flags.is_starting in
    rw (r.is_read) (
      ground (
        arith,
        r.same b,
        has_ip-only_assigned r.addresses r.addresses b,
        has_ip-only_assigned r.addresses net.ip_del b,
        del_these-value o flags delall (only_assigned r.addresses r.addresses) s b w,
        del_these-value o flags delall (only_assigned r.addresses net.ip_del) s b w,
      ))

-- The parameter as it is applied: without IPv6 addresses unless IPV6 is on.
abbrev pub kept_param : (ipv6 : Bool) → NetParam → NetParam
kept_param ipv6 net = if ipv6 then net else record net { ip = remove_ipv6_addr net.ip }

-- Whether `apply_venet_param` deletes all of the addresses.
abbrev pub clears : NetFlags → NetParam → Bool
clears flags net = net.delall || flags.is_starting && not (no_ips net.ip && no_ips net.ip_del)

-- If every deletion of an address by the kernel works, since a failure of one is not returned by
-- `del_ip`, and if the assigned addresses are read as they are, before and after `del_ip`, then a
-- result of 0 means: the addresses that are assigned are those of the parameter, without the IPv6
-- ones unless IPV6 is on, and those from before that were not to be deleted.
pub apply_venet_param_success :
    (o : NetCalls) (flags : NetFlags) (is_run ipv6 : Bool) (net : NetParam) (s : NetState) (b : Str)
    → Deletes o
    → Reads o s.assigned
    → Reads o (del_ip o flags (kept_param ipv6 net) s).assigned
    → (apply_venet_param o flags is_run ipv6 net s).0 ≡ 0
    → (apply_venet_param o flags is_run ipv6 net s).1.assigned b ≡ (
        has_ip (kept_param ipv6 net).ip b
        || not (clears flags net || has_ip net.ip_del b) && s.assigned b)
unfolding apply_venet_param has_ip remove_ipv6_addr
apply_venet_param_success o flags is_run ipv6 net s b w old r h =
    let kept = kept_param ipv6 net in
    ground (
      arith,
      del_ip-value o flags kept s b w old,
      add_ip-value o flags kept (del_ip o flags kept s) b r.addresses w r.is_read (r.same b),
    )
