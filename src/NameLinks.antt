-- ===== src/NameLinks.antt =====
-- lib/name.c, and `vzctl2_get_envid_by_name` of lib/vz.c: the names of containers, which are links to
-- their configurations. The directory of links and the configurations are a state that is passed on.
mod Lookup
mod Safe
mod Assign
mod Tests
use libvzctl.Common.{
  ℕ, zero, suc, ◌+◌, ◌++◌, Bool, true, false, not, ◌&&◌, Option, none, some, [], ◌∷◌, Str, codes,
  str_eq, ◌==◌, if◌then◌else◌,
}
use libvzctl.Common.Errors.{e_inval, e_set_name}
use libvzctl.Names.{is_env_name_valid}
use libvzctl.Bitmap.Text.{decimal}

-- The parameters NAME and VEID of a configuration.
pub record ConfNames : Type 0 where
  pub name : Option Str
  pub veid : Option Str

-- `links` gives the id whose configuration the link of a name leads to, `confs` the configuration of
-- an id.
pub record NameState : Type 0 where
  pub links : Str → Option Str
  pub confs : Str → Option ConfNames

-- The results of the calls. `pair` is `get_cid_uuid_pair`: whether it succeeds, and what its buffer
-- then holds. `bad_conf` and `bad_name` are the errors of `stat_file` on the two paths, `bad_open`
-- those of `vzctl2_env_open_conf`; `replaced` says that a save that fails has renamed the new file
-- before its error; `unset` is what a buffer holds that nothing has set.
pub record NameCalls : Type 0 where
  pub pair : Str → Str → Bool × Str
  pub bad_conf : Str → Bool
  pub bad_name : Str → Bool
  pub bad_open : Str → Bool
  pub linked : Bool
  pub saved : ℕ
  pub replaced : Bool
  pub unset : Str

-- The fields of the handle that the functions read.
pub record NameHandle : Type 0 where
  pub eid : Str
  pub old_name : Option Str

pub record NameOutcome : Type 0 where
  pub ret : ℕ
  pub state : NameState
  pub sent : Bool

abbrev pub has_conf : NameState → Str → Bool
has_conf s id = elim (s.confs id) [ none ↦ false | some c ↦ true ]

-- The configuration that the link of a name leads to.
abbrev pub conf_of_link : NameState → Str → Option ConfNames
conf_of_link s n = elim (s.links n) [ none ↦ none | some id ↦ s.confs id ]

-- `vzctl2_parse_ctid`: its success, and its buffer.
pub parse_ctid : NameCalls → Str → Str → Bool × Str
parse_ctid o [] buf = (false, buf)
parse_ctid o (c ∷ s) buf = o.pair (c ∷ s) buf

pub parse_veid : NameCalls → Option Str → Str → Bool × Str
unfolding parse_ctid
parse_veid o none ctid = (false, ctid)
parse_veid o (some v) ctid = parse_ctid o v ctid

-- From the test of the name in the configuration on.
pub id_of_conf : NameCalls → Str → ConfNames → Str → Bool × Str
unfolding parse_veid
id_of_conf o n c ctid = elim c.name [
  | none ↦ (false, ctid)
  | some m ↦ if str_eq m n then parse_veid o c.veid ctid else (false, ctid)
]

-- From the path of the link on. The path of the empty name is the directory, which is there and
-- cannot be opened as a configuration.
pub id_of_link : NameCalls → NameState → Str → Bool → Str → Bool × Str
unfolding id_of_conf
id_of_link o s [] id_by_ctid ctid = (false, ctid)
id_of_link o s (c ∷ n) id_by_ctid ctid =
    if o.bad_name (c ∷ n) then (false, ctid) else elim (conf_of_link s (c ∷ n)) [
      | none ↦ (id_by_ctid, ctid)
      | some conf ↦ if o.bad_open (c ∷ n) then (false, ctid) else id_of_conf o (c ∷ n) conf ctid
    ]

-- `vzctl2_get_envid_by_name`: whether it returns 0, and its buffer.
pub get_envid_by_name : NameCalls → NameState → Str → Str → Bool × Str
unfolding parse_ctid id_of_link
get_envid_by_name o s n buf =
    let p = parse_ctid o n buf in
    if p.0 && o.bad_conf p.1 then (false, p.1) else id_of_link o s n (p.0 && has_conf s p.1) p.1

pub is_of_other : Str → Bool × Str → Bool
unfolding str_eq
is_of_other eid (found, ctid) = found && (not (str_eq ctid []) && not (str_eq ctid eid))

-- `validate_env_name` for a name that is given.
pub validate_given : NameCalls → NameState → Str → Str → Str → ℕ × Str
unfolding get_envid_by_name is_of_other
validate_given o s eid n buf =
    let found = get_envid_by_name o s n buf in
    if not (is_env_name_valid n)
    then (e_inval, buf)
    else if str_eq eid n
    then (0, buf)
    else if not (o.bad_conf n) && has_conf s n
    then (e_inval, buf)
    else if is_of_other eid found
    then (e_set_name, found.1)
    else (0, found.1)

-- `validate_env_name`: its result, and its buffer.
pub validate_env_name : NameCalls → NameState → Str → Option Str → Str → ℕ × Str
unfolding validate_given
validate_env_name o s eid name buf =
    let found = get_envid_by_name o s eid buf in
    if is_of_other eid found
    then (e_set_name, found.1)
    else elim name [ none ↦ (0, found.1) | some n ↦ validate_given o s eid n found.1 ]

pub without_link : Str → NameState → NameState
unfolding str_eq
without_link n s = record s { links = λ m. if str_eq m n then none else s.links m }

pub with_link : Str → Str → NameState → NameState
unfolding str_eq
with_link n eid s = record s { links = λ m. if str_eq m n then some eid else s.links m }

-- A configuration with another name; the empty name takes NAME away.
abbrev pub named_conf : Option ConfNames → Str → ConfNames
named_conf none n = record { name = if str_eq n [] then none else some n; veid = none }
named_conf (some c) n = record c { name = if str_eq n [] then none else some n }

-- `vzctl2_env_save` after NAME is set: of these parameters only NAME is updated, and the file keeps
-- its VEID. A file that is not there gets what is updated.
pub write_conf : NameHandle → Str → NameState → NameState
unfolding str_eq
write_conf h n s = record s {
  confs = λ id. if str_eq id h.eid then some (named_conf (s.confs id) n) else s.confs id;
}

-- From `vzctl2_env_set_param` on.
pub name_save : NameCalls → NameHandle → NameState → Str → NameOutcome
unfolding write_conf without_link
name_save o h s n =
    if o.saved == 0 then record { ret = 0; state = write_conf h n s; sent = true } else record {
      ret = o.saved;
      state = without_link n (if o.replaced then write_conf h n s else s);
      sent = false;
    }

-- The block under the label del_name.
pub drop_old : NameCalls → NameHandle → NameState → Str → Str → NameState
unfolding get_envid_by_name without_link
drop_old o h s n buf = elim h.old_name [
  | none ↦ s
  | some old ↦
      let found = get_envid_by_name o s old buf in
      if not (str_eq old n) && (found.0 && str_eq found.1 h.eid) then without_link old s else s
]

-- From the label del_name on.
pub name_del : NameCalls → NameHandle → NameState → Str → Str → NameOutcome
unfolding drop_old name_save
name_del o h s n buf = name_save o h (drop_old o h s n buf) n

-- From the `unlink` in front of the `symlink` on.
pub name_link : NameCalls → NameHandle → NameState → Str → Str → NameOutcome
unfolding without_link with_link name_del
name_link o h s n buf =
    if o.linked
    then name_del o h (with_link n h.eid (without_link n s)) n buf
    else record { ret = e_set_name; state = without_link n s; sent = false }

-- The name is not changed.
pub is_same_name : NameHandle → Str → Str → Bool
unfolding str_eq
is_same_name h n ctid = elim h.old_name [
  | none ↦ false
  | some old ↦ str_eq old n && str_eq ctid h.eid
]

-- `vzctl2_set_name`.
pub vz_set_name : NameCalls → NameHandle → NameState → Option Str → NameOutcome
unfolding validate_env_name name_link is_same_name
vz_set_name o h s none = record { ret = 0; state = s; sent = false }
vz_set_name o h s (some []) = name_del o h s [] o.unset
vz_set_name o h s (some (c ∷ n)) =
    let v = validate_env_name o s h.eid (some (c ∷ n)) o.unset in
    if not (v.0 == 0)
    then record { ret = v.0; state = s; sent = false }
    else if is_same_name h (c ∷ n) v.1
    then record { ret = 0; state = s; sent = false }
    else name_link o h s (c ∷ n) v.1

gen_from : (exists : Str → Bool) → (numbered : ℕ → Str) → (left i : ℕ) → Str
gen_from exists numbered zero i = []
gen_from exists numbered (suc left) i =
    let rest = gen_from exists numbered left (i + 1) in
    if exists (numbered i) then rest else numbered i

-- `gen_uniq_name`: `numbered i` is the name with `-(i)` behind it, and `absent` says that `lstat`
-- fails with ENOENT.
pub gen_uniq_name : (is_absent : Str → Bool) → (name : Str) → Str
unfolding gen_from
gen_uniq_name is_absent name =
    gen_from (λ n. not (is_absent n)) (λ i. name ++ codes "-(" ++ decimal i ++ codes ")") 65535 0
