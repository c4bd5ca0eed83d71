-- ===== src/Net/Assign.antt =====
-- `env_ip_ctl` of lib/net.c: what it leaves assigned, on success and after a rollback.
use libvzctl.Common.{◌≡◌, ◌≢◌, refl, Bool, true, List, [], ◌∷◌, Str, arith, if◌then◌else◌, All}
use libvzctl.Net.{
  IpParam, has_ip, IpOp, invert_ip_op, Assigned, is_after, IpCtl, call_ip, assign, ctl_loop, undo,
  env_ip_ctl,
}

-- The operation works on each of the addresses.
abbrev pub Works : IpCtl → IpOp → List IpParam → Type 0
Works ctl op = All (λ it. ctl op it.ip ≡ 0)

undo-value :
    (ctl : IpCtl) (op : IpOp) (over : List IpParam) (a : Assigned) (b : Str)
    → Works ctl op over
    → undo ctl op over a b ≡ (if has_ip over b then is_after op else a b)
unfolding undo has_ip
undo-value ctl op [] a b w = refl
undo-value ctl op (it ∷ over) a b w =
    ground (arith, undo-value ctl op over (call_ip ctl op it.ip a) b w.1)

ctl_loop-value :
    (ctl : IpCtl) (op : IpOp) (over head : List IpParam) (a : Assigned) (b : Str)
    → (ctl_loop ctl op over head a).ret ≡ 0
    → (ctl_loop ctl op over head a).kernel b ≡ (if has_ip head b then is_after op else a b)
unfolding ctl_loop has_ip
ctl_loop-value ctl op over [] a b h = refl
ctl_loop-value ctl op over (it ∷ head) a b h =
    ground (arith, ctl_loop-value ctl op (it ∷ over) head (assign op it.ip a) b)

-- When it returns 0, the addresses of the list have been added or deleted, and no others.
pub env_ip_ctl_success :
    (ctl : IpCtl) (op : IpOp) (head : List IpParam) (rollback : Bool) (a : Assigned) (b : Str)
    → (env_ip_ctl ctl op head rollback a).0 ≡ 0
    → (env_ip_ctl ctl op head rollback a).1 b ≡ (if has_ip head b then is_after op else a b)
unfolding env_ip_ctl has_ip
env_ip_ctl_success ctl op head rollback a b h = ground (arith, ctl_loop-value ctl op [] head a b)

-- Undoing what the loop has done restores `b`, if `b` was `old` and an address of the lists was not
-- what the operation makes of it.
undo-ctl_loop :
    (ctl : IpCtl) (op : IpOp) (over head : List IpParam) (a : Assigned) (b : Str) (old : Bool)
    → Works ctl (invert_ip_op op) over
    → Works ctl (invert_ip_op op) head
    → a b ≡ (if has_ip over b then is_after op else old)
    → (has_ip over b ≡ true → old ≡ is_after (invert_ip_op op))
    → (has_ip head b ≡ true → old ≡ is_after (invert_ip_op op))
    → let now = ctl_loop ctl op over head a in
      undo ctl (invert_ip_op op) now.over now.kernel b ≡ old
unfolding ctl_loop has_ip
undo-ctl_loop ctl op over [] a b old wo wh now ho hh =
    ground (arith, undo-value ctl (invert_ip_op op) over a b)
undo-ctl_loop ctl op over (it ∷ head) a b old wo wh now ho hh = ground (
  arith,
  undo-value ctl (invert_ip_op op) over a b,
  undo-ctl_loop ctl op (it ∷ over) head (assign op it.ip a) b old (wh.0, wo) wh.1 (ground arith)
      (λ e. ground arith) (λ e. ground arith),
)

-- When it returns an error with a rollback, and the opposite operation works, every address is as
-- before, provided that none of the list was already what the operation makes of it.
pub env_ip_ctl_rollback :
    (ctl : IpCtl) (op : IpOp) (head : List IpParam) (a : Assigned) (b : Str)
    → Works ctl (invert_ip_op op) head
    → (has_ip head b ≡ true → a b ≡ is_after (invert_ip_op op))
    → (env_ip_ctl ctl op head true a).0 ≢ 0
    → (env_ip_ctl ctl op head true a).1 b ≡ a b
unfolding env_ip_ctl has_ip
env_ip_ctl_rollback ctl op head a b w o h =
    ground (arith, undo-ctl_loop ctl op [] head a b (a b) tt w refl (λ e. absurd (cc)) o)

ctl_loop_works :
    (ctl : IpCtl) (op : IpOp) (over head : List IpParam) (a : Assigned)
    → ((ip : Str) → ctl op ip ≡ 0)
    → (ctl_loop ctl op over head a).ret ≡ 0
unfolding ctl_loop
ctl_loop_works ctl op over [] a w = refl
ctl_loop_works ctl op over (it ∷ head) a w =
    ground (arith, w it.ip, ctl_loop_works ctl op (it ∷ over) head (assign op it.ip a) w)

-- An operation that works for every address.
pub env_ip_ctl_works :
    (ctl : IpCtl) (op : IpOp) (head : List IpParam) (rollback : Bool) (a : Assigned) (b : Str)
    → ((ip : Str) → ctl op ip ≡ 0)
    → (env_ip_ctl ctl op head rollback a).1 b ≡ (if has_ip head b then is_after op else a b)
unfolding env_ip_ctl
env_ip_ctl_works ctl op head rollback a b w =
    ground (arith, ctl_loop_works ctl op [] head a w, ctl_loop-value ctl op [] head a b)

pub all_work :
    (ctl : IpCtl) (op : IpOp) (head : List IpParam)
    → ((ip : Str) → ctl op ip ≡ 0)
    → Works ctl op head
all_work ctl op [] w = tt
all_work ctl op (it ∷ head) w = (w it.ip, all_work ctl op head w)
