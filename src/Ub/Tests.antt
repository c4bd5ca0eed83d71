-- ===== src/Ub/Tests.antt =====
-- The theorems on limits at concrete inputs.
use libvzctl.Common.{codes, ◌≡◌, ◌≢◌, refl, Bool, true, none, some, arith, ◌==◌}
use libvzctl.Ub.{
  parse_ub, set_ub_limit, env_ub_set_unl, get_ub_param_name, Res, physpages, num_memory_subgroups,
  param_id, UbParam, empty_ub, UbCall, ub_id, set_ub,
}
use libvzctl.Ub.Apply.{passed, set_ub-passes}
use mathlib.Core.List.{Mem}

abbrev res : Res
res = record { b = 5; l = 9223372036854775808 }

abbrev ub : UbParam
ub = record { field = elim [ physpages ↦ some res | _ ↦ none ]; vm_overcommit = none }

abbrev last_fails : UbCall → Bool
last_fails c = c.id == 8

physpages_known : physpages ≢ num_memory_subgroups
physpages_known = λ e. absurd (ground arith)

set_ub-passes_example :
    Mem (passed (ub_id (λ _. 9) physpages) res) (set_ub (λ _. 9) last_fails ub).1
unfolding set_ub
set_ub-passes_example = set_ub-passes (λ _. 9) last_fails ub physpages res refl refl refl

parse_ub_trunc : (parse_ub true empty_ub 65540 (205, res)).0 ≡ 0
unfolding parse_ub param_id
parse_ub_trunc = refl

set_ub_limit_fails : (set_ub_limit (λ _. 8) last_fails 8 (some res)).0 ≡ 1
unfolding set_ub_limit
set_ub_limit_fails = refl

unlimited : (env_ub_set_unl (λ _. 8)).0 ≡ 0
unfolding env_ub_set_unl
unlimited = refl

physpages_name : get_ub_param_name 65540 ≡ codes "PHYSPAGES"
unfolding get_ub_param_name
physpages_name = refl
