-- ===== src/Net.antt =====
-- The addresses of a container, lib/net.c: the lists of addresses, and adding and deleting them in
-- the kernel, on the node and in the container. Allocations work. The operations of
-- `get_env_ops()`, the scripts and their results are arguments; an operation that is repeated gives
-- the same result.
pub mod Assign
pub mod Venet
pub mod Apply
mod Tests
use libvzctl.Common.{
  ℕ, suc, Bool, true, false, not, ◌||◌, Option, none, some, List, [], ◌∷◌, ◌++◌, Str, str_eq, ◌==◌,
  if◌then◌else◌,
}

-- `struct vzctl_ip_param`.
pub record IpParam : Type 0 where
  pub ip : Str
  pub mask : ℕ

-- `find_ip(head, ip) != NULL`.
pub has_ip : List IpParam → Str → Bool
has_ip [] ip = false
has_ip (it ∷ head) ip = str_eq it.ip ip || has_ip head ip

-- `strchr(ip, ':') != NULL`.
pub is_ip6 : Str → Bool
is_ip6 [] = false
is_ip6 (c ∷ s) = c == b':' || is_ip6 s

-- `remove_ipv6_addr`.
pub remove_ipv6_addr : List IpParam → List IpParam
unfolding is_ip6
remove_ipv6_addr [] = []
remove_ipv6_addr (it ∷ head) =
    if is_ip6 it.ip then remove_ipv6_addr head else it ∷ remove_ipv6_addr head

-- The loop of `add_ip` that leaves out the assigned addresses.
pub not_assigned : (iprun ip : List IpParam) → List IpParam
unfolding has_ip
not_assigned iprun [] = []
not_assigned iprun (it ∷ ip) =
    if has_ip iprun it.ip then not_assigned iprun ip else it ∷ not_assigned iprun ip

-- The loop of `del_ip` that leaves out the others.
pub only_assigned : (iprun ip : List IpParam) → List IpParam
unfolding has_ip
only_assigned iprun [] = []
only_assigned iprun (it ∷ ip) =
    if has_ip iprun it.ip then it ∷ only_assigned iprun ip else only_assigned iprun ip

-- `VE_IP_ADD` and `VE_IP_DEL`.
pub data IpOp : Type 0 where
  ve_ip_add ve_ip_del : IpOp

pub invert_ip_op : IpOp → IpOp
invert_ip_op ve_ip_add = ve_ip_del
invert_ip_op ve_ip_del = ve_ip_add

-- The addresses that the kernel has assigned to the container.
abbrev pub Assigned : Type 0
Assigned = Str → Bool

-- What an address is after an operation on it.
pub is_after : IpOp → Bool
is_after ve_ip_add = true
is_after ve_ip_del = false

pub assign : IpOp → Str → Assigned → Assigned
unfolding is_after
assign op ip a = λ b. if str_eq ip b then is_after op else a b

-- `env_ip_ctl` of `get_env_ops()`, by its result: it acts if that is 0.
abbrev pub IpCtl : Type 0
IpCtl = IpOp → Str → ℕ

pub call_ip : IpCtl → IpOp → Str → Assigned → Assigned
unfolding assign
call_ip ctl op ip a = if ctl op ip == 0 then assign op ip a else a

-- What the loop of `env_ip_ctl` leaves: its result, the addresses that are done, the last one first,
-- and the kernel.
pub record CtlLoop : Type 0 where
  pub ret : ℕ
  pub over : List IpParam
  pub kernel : Assigned

pub ctl_loop : IpCtl → IpOp → (over head : List IpParam) → Assigned → CtlLoop
unfolding assign
ctl_loop ctl op over [] a = record { ret = 0; over = over; kernel = a }
ctl_loop ctl op over (it ∷ head) a =
    let next = ctl_loop ctl op (it ∷ over) head (assign op it.ip a) in
    if ctl op it.ip == 0 then next else record { ret = ctl op it.ip; over = over; kernel = a }

-- The loop of the rollback.
pub undo : IpCtl → IpOp → List IpParam → Assigned → Assigned
unfolding call_ip
undo ctl op [] a = a
undo ctl op (it ∷ over) a = undo ctl op over (call_ip ctl op it.ip a)

-- `env_ip_ctl` of lib/net.c.
pub env_ip_ctl : IpCtl → IpOp → List IpParam → (rollback : Bool) → Assigned → ℕ × Assigned
unfolding ctl_loop undo invert_ip_op
env_ip_ctl ctl op head rollback a =
    let now = ctl_loop ctl op [] head a in
    if now.ret == 0
    then (0, now.kernel)
    else if rollback
    then (now.ret, undo ctl (invert_ip_op op) now.over now.kernel)
    else (now.ret, now.kernel)
