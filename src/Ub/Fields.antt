-- ===== src/Ub/Fields.antt =====
-- The fields of `struct vzctl_ub_param` by their ids.
use libvzctl.Common.{sym, ◌∙◌, ap, ℕ, ◌≡◌, ◌≢◌, refl, some, List, [], ◌∷◌, arith}
use libvzctl.Ub.{
  UbField, lockedpages, privvmpages, shmpages, numproc, physpages, vmguarpages, numtcpsock,
  numflock, numpty, numsiginfo, tcpsndbuf, tcprcvbuf, othersockbuf, dgramrcvbuf, numothersock,
  numfile, numiptent, avnumproc, swappages, num_memory_subgroups, param_id, find_field, res_fields,
  all_fields,
}

-- A field that a search finds has the id.
pub param_id-find_field :
    (fs : List UbField) (id : ℕ) (f : UbField) → find_field fs id ≡ some f → param_id f ≡ id
unfolding find_field
param_id-find_field [] id f e = cc
param_id-find_field (g ∷ fs) id f e = ground (arith, param_id-find_field fs id f)

pub find_all : (f : UbField) → find_field all_fields (param_id f) ≡ some f
unfolding find_field param_id
find_all lockedpages = refl
find_all privvmpages = refl
find_all shmpages = refl
find_all numproc = refl
find_all physpages = refl
find_all vmguarpages = refl
find_all numtcpsock = refl
find_all numflock = refl
find_all numpty = refl
find_all numsiginfo = refl
find_all tcpsndbuf = refl
find_all tcprcvbuf = refl
find_all othersockbuf = refl
find_all dgramrcvbuf = refl
find_all numothersock = refl
find_all numfile = refl
find_all numiptent = refl
find_all avnumproc = refl
find_all swappages = refl
find_all num_memory_subgroups = refl

pub find_res :
    (f : UbField) → f ≢ num_memory_subgroups → find_field res_fields (param_id f) ≡ some f
unfolding find_field param_id
find_res lockedpages n = refl
find_res privvmpages n = refl
find_res shmpages n = refl
find_res numproc n = refl
find_res physpages n = refl
find_res vmguarpages n = refl
find_res numtcpsock n = refl
find_res numflock n = refl
find_res numpty n = refl
find_res numsiginfo n = refl
find_res tcpsndbuf n = refl
find_res tcprcvbuf n = refl
find_res othersockbuf n = refl
find_res dgramrcvbuf n = refl
find_res numothersock n = refl
find_res numfile n = refl
find_res numiptent n = refl
find_res avnumproc n = refl
find_res swappages n = refl
find_res num_memory_subgroups n = absurd (n refl)

-- Fields differ in their ids.
pub param_id_inj : (f g : UbField) → param_id f ≡ param_id g → f ≡ g
param_id_inj f g e = some_inj (sym (find_all f) ∙ ap (find_field all_fields) e ∙ find_all g)
  where
    some_inj : {x y : UbField} → some x ≡ some y → x ≡ y
    some_inj h = cc
