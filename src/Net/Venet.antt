-- ===== src/Net/Venet.antt =====
-- `run_net_script`, `add_ip`, `del_ip` and `apply_venet_param` of lib/net.c, and `env_ip_configure`
-- of lib/env_configure.c.
use libvzctl.Common.{
  ℕ, Bool, true, false, not, ◌||◌, ◌&&◌, Option, none, some, List, [], ◌∷◌, ◌==◌, if◌then◌else◌,
}
use libvzctl.Common.Errors.{e_env_not_run, minus_one}
use libvzctl.Net.{
  IpParam, IpOp, ve_ip_add, ve_ip_del, Assigned, IpCtl, env_ip_ctl, not_assigned, only_assigned,
  remove_ipv6_addr,
}

-- The scripts that have run, with their results: those of the node, and those in the container.
pub data NetScript : Type 0 where
  on_node : IpOp → List IpParam → ℕ → NetScript
  in_env : IpOp → List IpParam → (delall : Bool) → ℕ → NetScript

-- The last script stands first.
pub record NetState : Type 0 where
  pub assigned : Assigned
  pub scripts : List NetScript

-- `vzctl_get_env_ip` reads the assigned addresses; none is an error.
pub record NetCalls : Type 0 where
  pub ctl : IpCtl
  pub get_env_ip : Assigned → Option (List IpParam)
  pub node_code : IpOp → List IpParam → ℕ
  pub dist_actions : ℕ
  pub has_script : IpOp → Bool
  pub env_code : IpOp → List IpParam → Bool → ℕ

-- VZCTL_SKIP_CONFIGURE and VZCTL_RESTORE, and `h->ctx->state == VZCTL_STATE_STARTING`.
pub record NetFlags : Type 0 where
  pub skip_configure : Bool
  pub restoring : Bool
  pub is_starting : Bool

-- `struct vzctl_net_param`, as far as `apply_venet_param` reads it.
pub record NetParam : Type 0 where
  pub ip : List IpParam
  pub ip_del : List IpParam
  pub delall : Bool

abbrev pub no_ips : List IpParam → Bool
no_ips [] = true
no_ips (it ∷ head) = false

unfoldable pub run_net_script : NetCalls → IpOp → List IpParam → NetState → ℕ × NetState
run_net_script o op ip s =
    if no_ips ip
    then (0, s)
    else (o.node_code op ip, record s { scripts = on_node op ip (o.node_code op ip) ∷ s.scripts })

unfoldable pub env_ip_configure :
    NetCalls → NetFlags → IpOp → List IpParam → (delall : Bool) → NetState → ℕ × NetState
env_ip_configure o flags op ip delall s =
    if flags.skip_configure || flags.restoring
    then (0, s)
    else if no_ips ip && not delall
    then (0, s)
    else if not (o.dist_actions == 0)
    then (o.dist_actions, s)
    else if not (o.has_script op)
    then (0, s)
    else (
      o.env_code op ip delall,
      record s { scripts = in_env op ip delall (o.env_code op ip delall) ∷ s.scripts },
    )

-- The label err_hn of `add_ip`.
unfoldable pub err_hn : NetCalls → (ip ipadd : List IpParam) → ℕ → NetState → ℕ × NetState
err_hn o ip ipadd ret s =
    let now = (run_net_script o ve_ip_del ipadd s).1 in
    (ret, record now { assigned = (env_ip_ctl o.ctl ve_ip_del ip false now.assigned).1 })

-- `add_ip` from `run_net_script` on.
unfoldable pub add_on_node :
    NetCalls → NetFlags → NetParam → (ipadd : List IpParam) → NetState → ℕ × NetState
add_on_node o flags net ipadd s =
    let node = run_net_script o ve_ip_add ipadd s in
    let env = env_ip_configure o flags ve_ip_add ipadd net.delall node.1 in
    if not (node.0 == 0)
    then err_hn o net.ip ipadd node.0 node.1
    else if not (env.0 == 0)
    then err_hn o net.ip ipadd env.0 env.1
    else (0, env.1)

-- `add_ip` from `env_ip_ctl` on.
unfoldable pub add_new_ips :
    NetCalls → NetFlags → NetParam → (ipadd : List IpParam) → NetState → ℕ × NetState
add_new_ips o flags net ipadd s =
    let done = env_ip_ctl o.ctl ve_ip_add ipadd true s.assigned in
    let now = record s { assigned = done.1 } in
    if done.0 == 0 then add_on_node o flags net ipadd now else (done.0, now)

unfoldable pub add_ip : NetCalls → NetFlags → NetParam → NetState → ℕ × NetState
add_ip o flags net s = if no_ips net.ip then (0, s) else elim (o.get_env_ip s.assigned) [
  | none ↦ (minus_one, s)
  | some iprun ↦ add_new_ips o flags net (not_assigned iprun net.ip) s
]

-- `del_ip` with the addresses that are to be deleted; its result is 0.
unfoldable pub del_these :
    NetCalls → NetFlags → (delall : Bool) → List IpParam → NetState → NetState
del_these o flags delall ipdel s =
    let node = (run_net_script o ve_ip_del ipdel s).1 in
    let env =
      if flags.skip_configure
      then node
      else (env_ip_configure o flags ve_ip_del ipdel delall node).1 in
    record env { assigned = (env_ip_ctl o.ctl ve_ip_del ipdel true env.assigned).1 }

-- What `vzctl_get_env_ip` leaves in the list, when its result is not read.
abbrev pub or_empty : Option (List IpParam) → List IpParam
or_empty none = []
or_empty (some iprun) = iprun

unfoldable pub del_ip : NetCalls → NetFlags → NetParam → NetState → NetState
del_ip o flags net s =
    let delall = net.delall || flags.is_starting in
    let iprun = or_empty (o.get_env_ip s.assigned) in
    let ip = if delall then iprun else net.ip_del in
    if no_ips net.ip_del && not delall
    then s
    else if no_ips ip
    then s
    else del_these o flags delall (only_assigned iprun ip) s

-- `apply_venet_param`; `ipv6` says that the parameter IPV6 is on.
unfoldable pub apply_venet_param :
    NetCalls → NetFlags → (is_run ipv6 : Bool) → NetParam → NetState → ℕ × NetState
apply_venet_param o flags is_run ipv6 net s =
    let kept = if ipv6 then net else record net { ip = remove_ipv6_addr net.ip } in
    if no_ips net.ip && (no_ips net.ip_del && not net.delall)
    then (0, s)
    else if not is_run
    then (e_env_not_run, s)
    else add_ip o flags kept (del_ip o flags kept s)
