-- ===== src/Ub.antt =====
-- lib/ub.c: the beancounter limits of a container. Each field of `struct vzctl_ub_param` is a pointer
-- to a pair of limits, NULL is `none`. The macros that repeat a step for one field after another are
-- recursions over the list of those fields, in the source's order.
pub mod Fields
mod Laws
mod Apply
mod Tests
use libvzctl.Common.{
  ℕ, suc, zero, ◌+◌, ◌-◌, Bool, true, false, ◌&&◌, ◌||◌, not, Option, none, some, List, [], ◌∷◌,
  ltb, Str, codes, ◌==◌, if◌then◌else◌,
}
use libvzctl.Common.Errors.{e_nomem, e_inval, e_setubc, e_not_enough_params, e_long_trunc}

-- `struct vzctl_2UL_res`.
pub record Res : Type 0 where
  pub b : ℕ
  pub l : ℕ

pub data UbField : Type 0 where
  lockedpages privvmpages shmpages numproc physpages vmguarpages numtcpsock numflock numpty
        numsiginfo tcpsndbuf tcprcvbuf othersockbuf dgramrcvbuf numothersock numfile numiptent
        avnumproc swappages num_memory_subgroups :
      UbField

-- VZCTL_PARAM_LOCKEDPAGES and so on (lib/vzctl_param.h).
pub param_id : UbField → ℕ
param_id lockedpages = 65536
param_id privvmpages = 65537
param_id shmpages = 65538
param_id numproc = 65539
param_id physpages = 65540
param_id vmguarpages = 65541
param_id numtcpsock = 65543
param_id numflock = 65544
param_id numpty = 65545
param_id numsiginfo = 65546
param_id tcpsndbuf = 65547
param_id tcprcvbuf = 65548
param_id othersockbuf = 65549
param_id dgramrcvbuf = 65550
param_id numothersock = 65551
param_id numfile = 65553
param_id numiptent = 65554
param_id swappages = 65555
param_id avnumproc = 65587
param_id num_memory_subgroups = 65702

-- `struct vzctl_ub_param`: its limits, and `vm_overcommit`, whose float is only copied: its bits.
pub record UbParam : Type 0 where
  pub field : UbField → Option Res
  pub vm_overcommit : Option ℕ

abbrev pub empty_ub : UbParam
empty_ub = record { field = λ _. none; vm_overcommit = none }

pub is_null : Option Res → Bool
is_null none = true
is_null (some r) = false

-- One field of the struct is written; fields are told apart by their ids.
pub set_field : UbParam → UbField → Res → UbParam
set_field ub f res = record ub {
  field = λ g. if param_id f == param_id g then some res else ub.field g;
}

-- The fields of `set_ub` and `is_ub_empty`.
abbrev pub limit_fields : List UbField
limit_fields =
    lockedpages ∷ privvmpages ∷ shmpages ∷ numproc ∷ physpages ∷ vmguarpages ∷ numtcpsock ∷ numflock
    ∷ numpty ∷ numsiginfo ∷ tcpsndbuf ∷ tcprcvbuf ∷ othersockbuf ∷ dgramrcvbuf ∷ numothersock
    ∷ numfile ∷ numiptent ∷ swappages ∷ []

-- The fields of `vzctl_get_ub_res`.
abbrev pub res_fields : List UbField
res_fields =
    lockedpages ∷ privvmpages ∷ shmpages ∷ numproc ∷ physpages ∷ vmguarpages ∷ numtcpsock ∷ numflock
    ∷ numpty ∷ numsiginfo ∷ tcpsndbuf ∷ tcprcvbuf ∷ othersockbuf ∷ dgramrcvbuf ∷ numothersock
    ∷ numfile ∷ numiptent ∷ avnumproc ∷ swappages ∷ []

-- The fields of `vzctl_add_ub_param` and `merge_ub`.
abbrev pub all_fields : List UbField
all_fields =
    lockedpages ∷ privvmpages ∷ shmpages ∷ numproc ∷ physpages ∷ vmguarpages ∷ numtcpsock ∷ numflock
    ∷ numpty ∷ numsiginfo ∷ tcpsndbuf ∷ tcprcvbuf ∷ othersockbuf ∷ dgramrcvbuf ∷ numothersock
    ∷ numfile ∷ numiptent ∷ avnumproc ∷ swappages ∷ num_memory_subgroups ∷ []

-- The fields of `vzctl_check_ub`.
abbrev pub required_fields : List UbField
required_fields =
    lockedpages ∷ privvmpages ∷ shmpages ∷ numproc ∷ physpages ∷ vmguarpages ∷ numflock ∷ numpty
    ∷ numsiginfo ∷ numfile ∷ numiptent ∷ []

check_from : UbParam → List UbField → ℕ → ℕ
check_from ub [] ret = ret
check_from ub (f ∷ fs) ret =
    check_from ub fs (if is_null (ub.field f) then e_not_enough_params else ret)

-- `vzctl_check_ub`.
pub check_ub : UbParam → ℕ
unfolding check_from is_null
check_ub ub = check_from ub required_fields 0

empty_from : UbParam → List UbField → Bool
empty_from ub [] = true
empty_from ub (f ∷ fs) = if is_null (ub.field f) then empty_from ub fs else false

pub is_ub_empty : Option UbParam → Bool
unfolding empty_from is_null
is_ub_empty none = true
is_ub_empty (some ub) = empty_from ub limit_fields

-- The first of some fields with an id.
pub find_field : List UbField → ℕ → Option UbField
find_field [] id = none
find_field (f ∷ fs) id = if param_id f == id then some f else find_field fs id

-- `vzctl_get_ub_res`.
pub get_ub_res : UbParam → ℕ → Option Res
unfolding find_field
get_ub_res ub id = elim (find_field res_fields id) [ none ↦ none | some f ↦ ub.field f ]

-- The body of ADD_UB_PARAM and of MERGE_P2; `mem` is the result of its allocation.
pub store_res : Bool → UbParam → UbField → Res → ℕ × UbParam
unfolding set_field is_null
store_res mem ub f res =
    if is_null (ub.field f) && not mem then (e_nomem, ub) else (0, set_field ub f res)

-- `vzctl_add_ub_param`.
pub add_ub_param : Bool → UbParam → ℕ → Res → ℕ × UbParam
unfolding find_field store_res
add_ub_param mem ub id res = elim (find_field all_fields id) [
  | none ↦ (e_inval, ub)
  | some f ↦ store_res mem ub f res
]

merge_field : Bool → UbParam → UbField → Option Res → ℕ × UbParam
unfolding store_res
merge_field mem dst f none = (0, dst)
merge_field mem dst f (some res) = store_res mem dst f res

abbrev pub or_else {ℓ} : {A : Type ℓ} → Option A → Option A → Option A
or_else none old = old
or_else (some a) old = some a

-- A step whose result is an error ends the merge.
abbrev then_rest : ℕ × UbParam → (UbParam → ℕ × UbParam) → ℕ × UbParam
then_rest (zero, ub) rest = rest ub
then_rest (suc e, ub) rest = (suc e, ub)

merge_fields : (UbField → Bool) → UbParam → UbParam → List UbField → ℕ × UbParam
unfolding merge_field
merge_fields mem dst src [] =
    (0, record dst { vm_overcommit = or_else src.vm_overcommit dst.vm_overcommit })
merge_fields mem dst src (f ∷ fs) =
    then_rest (merge_field (mem f) dst f (src.field f)) (λ dst'. merge_fields mem dst' src fs)

-- `merge_ub`; `mem f` is the result of the allocation for a field. The one for `vm_overcommit` is
-- not checked, and is taken to succeed.
pub merge_ub : (UbField → Bool) → UbParam → UbParam → ℕ × UbParam
unfolding merge_fields
merge_ub mem dst src = merge_fields mem dst src all_fields

-- `parse_ub`, on what `parse_twoul_sfx` returns and stores.
pub parse_ub : Bool → UbParam → ℕ → ℕ × Res → ℕ × UbParam
unfolding add_ub_param
parse_ub mem ub id (ret, res) =
    if not (ret == 0) && not (ret == e_long_trunc) then (ret, ub) else add_ub_param mem ub id res

abbrev pub long_max : ℕ
long_max = 9223372036854775807

-- The arguments of one `setublimit` system call, without the container's id.
pub record UbCall : Type 0 where
  pub id : ℕ
  pub limit : Res

clamp : ℕ → ℕ
clamp n = if ltb long_max n then long_max else n

-- What `setublimit` passes to the kernel.
pub setublimit : ℕ → Res → UbCall
unfolding clamp
setublimit id res = record { id = id; limit = record { b = clamp res.b; l = clamp res.l } }

module _ (kernel_id : UbField → ℕ) where
  -- `ub_id` names UB_LOCKEDPAGES and so on: UB_IPTENTRIES is defined here, the others by the kernel.
  pub ub_id : UbField → ℕ
  ub_id numiptent = 23
  ub_id f = kernel_id f

  -- `env_ub_set_unl`, from the identifier `i` on for `n` rounds.
  unl_from : ℕ → ℕ → List UbCall
  unfolding setublimit
  unl_from zero i = setublimit (kernel_id swappages) (record { b = 0; l = 0 }) ∷ []
  unl_from (suc n) i = setublimit i (record { b = long_max; l = long_max }) ∷ unl_from n (i + 1)

  pub env_ub_set_unl : ℕ × List UbCall
  unfolding unl_from
  env_ub_set_unl = (0, unl_from 24 0)

module _ (kernel_id : UbField → ℕ) (fails : UbCall → Bool) where
  set_fields : UbParam → List UbField → ℕ × List UbCall
  set_fields ub [] = (0, [])
  set_fields ub (f ∷ fs) = elim (ub.field f) [
    | none ↦ set_fields ub fs
    | some res ↦
        let call = setublimit (ub_id kernel_id f) res in
        let rest = set_fields ub fs in
        if fails call then (e_setubc, call ∷ []) else (rest.0, call ∷ rest.1)
  ]

  -- `set_ub`: its result and the system calls that it makes; `fails` tells which of them fail.
  pub set_ub : UbParam → ℕ × List UbCall
  unfolding set_fields ub_id setublimit
  set_ub ub = set_fields ub limit_fields

  -- `set_ub_limit`.
  pub set_ub_limit : ℕ → Option Res → ℕ × List UbCall
  unfolding setublimit
  set_ub_limit id none = (0, [])
  set_ub_limit id (some res) =
      (if fails (setublimit id res) then e_setubc else 0, setublimit id res ∷ [])

-- The names and parameter ids of `ubname2id`.
abbrev pub ubname2id : List (Str × ℕ)
ubname2id =
    (codes "KMEMSIZE", 65535)
    ∷ (codes "LOCKEDPAGES", 65536)
    ∷ (codes "PRIVVMPAGES", 65537)
    ∷ (codes "SHMPAGES", 65538)
    ∷ (codes "NUMPROC", 65539)
    ∷ (codes "PHYSPAGES", 65540)
    ∷ (codes "VMGUARPAGES", 65541)
    ∷ (codes "OOMGUARPAGES", 65542)
    ∷ (codes "NUMTCPSOCK", 65543)
    ∷ (codes "NUMFLOCK", 65544)
    ∷ (codes "NUMPTY", 65545)
    ∷ (codes "NUMSIGINFO", 65546)
    ∷ (codes "TCPSNDBUF", 65547)
    ∷ (codes "TCPRCVBUF", 65548)
    ∷ (codes "OTHERSOCKBUF", 65549)
    ∷ (codes "DGRAMRCVBUF", 65550)
    ∷ (codes "NUMOTHERSOCK", 65551)
    ∷ (codes "NUMFILE", 65553)
    ∷ (codes "DCACHESIZE", 65552)
    ∷ (codes "NUMIPTENT", 65554)
    ∷ (codes "SWAPPAGES", 65555)
    ∷ []

name_from : List (Str × ℕ) → ℕ → Str
name_from [] id = []
name_from ((name, paramid) ∷ t) id = if paramid == id then name else name_from t id

pub get_ub_param_name : ℕ → Str
unfolding name_from
get_ub_param_name id = name_from ubname2id id
