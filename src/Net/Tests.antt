-- ===== src/Net/Tests.antt =====
-- Addresses at concrete calls.
use libvzctl.Common.{
  ◌≡◌, refl, true, false, some, [], ◌∷◌, Str, codes, str_eq, arith, if◌then◌else◌,
}
use libvzctl.Net.{
  IpParam, has_ip, ve_ip_add, ve_ip_del, Assigned, IpCtl, env_ip_ctl, invert_ip_op, is_after,
  not_assigned, remove_ipv6_addr,
}
use libvzctl.Net.Assign.{env_ip_ctl_rollback}
use libvzctl.Net.Venet.{
  NetState, NetCalls, NetFlags, NetParam, run_net_script, env_ip_configure, err_hn, add_on_node,
  add_new_ips, add_ip, del_ip, apply_venet_param,
}
use libvzctl.Net.Apply.{add_ip-value, apply_venet_param_success}

abbrev ten : Str
ten = codes "10.0.0.1"

abbrev eleven : Str
eleven = codes "10.0.0.2"

abbrev of : Str → IpParam
of ip = record { ip = ip; mask = 0 }

-- The second address is refused.
abbrev refusing : IpCtl
refusing ve_ip_add ip = if str_eq ip eleven then 5 else 0
refusing ve_ip_del ip = 0

abbrev nothing : Assigned
nothing = λ b. false

env_ip_ctl_rollback_example :
    (env_ip_ctl refusing ve_ip_add (of ten ∷ of eleven ∷ []) true nothing).1 ten ≡ false
unfolding invert_ip_op is_after
env_ip_ctl_rollback_example =
    env_ip_ctl_rollback refusing ve_ip_add (of ten ∷ of eleven ∷ []) nothing ten (refl, (refl, tt))
      (λ e. refl) (unfold env_ip_ctl str_eq in (ground arith))

-- One address is assigned; the node's script for new ones fails.
abbrev one_assigned : NetState
one_assigned = record { assigned = λ b. str_eq ten b; scripts = [] }

abbrev calls : NetCalls
calls = record {
  ctl = λ op ip. 0;
  get_env_ip = λ a. if a ten then some (of ten ∷ []) else some [];
  node_code = λ op ip. 0;
  dist_actions = 0;
  has_script = λ op. true;
  env_code = λ op ip delall. 0;
}

abbrev failing_script : NetCalls
failing_script = record calls { node_code = λ op ip. 1 }

abbrev no_flags : NetFlags
no_flags = record { skip_configure = false; restoring = false; is_starting = false }

-- Both addresses are asked for, and one of IPv6.
abbrev wanted : NetParam
wanted = record { ip = of ten ∷ of eleven ∷ of (codes "fe80::1") ∷ []; ip_del = []; delall = false }

-- The address that was assigned before is lost.
add_ip-value_example : (add_ip failing_script no_flags wanted one_assigned).1.assigned ten ≡ false
unfolding str_eq has_ip add_ip add_new_ips add_on_node run_net_script not_assigned env_ip_ctl err_hn
add_ip-value_example =
    add_ip-value failing_script no_flags wanted one_assigned ten (of ten ∷ []) (λ ip. refl) refl
      refl

reads_one : (b : Str) → has_ip (of ten ∷ []) b ≡ str_eq ten b
unfolding has_ip
reads_one b = ground arith

apply_venet_param_success_example :
    (apply_venet_param calls no_flags true false wanted one_assigned).1.assigned eleven ≡ true
unfolding str_eq has_ip remove_ipv6_addr apply_venet_param del_ip add_ip add_new_ips add_on_node
    run_net_script env_ip_configure not_assigned env_ip_ctl
apply_venet_param_success_example =
    apply_venet_param_success calls no_flags true false wanted one_assigned eleven (λ ip. refl)
      record { addresses = of ten ∷ []; is_read = refl; same = reads_one }
      record { addresses = of ten ∷ []; is_read = refl; same = reads_one } refl
