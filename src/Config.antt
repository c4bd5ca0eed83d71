-- ===== src/Config.antt =====
-- lib/config.c: a configuration as an array of NAME=VALUE entries with marks, read from and saved to
-- files. A pointer into the array is the entry, NULL is `none`. What `fgets` returns is computed from
-- the file's bytes; the file system's other answers are arguments.
pub mod Map
pub mod Save
use libvzctl.Common.{
  ℕ, zero, suc, ◌+◌, ◌%◌, ◌-◌, Bool, true, false, not, ◌&&◌, ◌||◌, Option, none, some, List, [],
  ◌∷◌, ◌++◌, Str, length, codes, contains, str_eq, leb, ◌==◌, if◌then◌else◌,
}
use libvzctl.Common.Errors.{e_nomem, e_config}
use libvzctl.Line.{parse_line}

-- `struct vzctl_config_param`; the table ends at an id of -1, here at the end of the list.
pub record Param : Type 0 where
  pub name : Option Str
  pub id : ℕ

-- `param_get_by_name`: entries with no name are passed over.
pub param_get_by_name : List Param → Str → Option Param
param_get_by_name [] name = none
param_get_by_name (p ∷ ps) name =
    let rest = param_get_by_name ps name in
    elim p.name [ none ↦ rest | some n ↦ if str_eq n name then some p else rest ]

pub param_get_by_id : List Param → ℕ → Option Param
param_get_by_id [] id = none
param_get_by_id (p ∷ ps) id = if p.id == id then some p else param_get_by_id ps id

-- `get_conf_param`, by the name and the id of a `struct vzctl_data_param`.
pub get_conf_param : List Param → Option Str → ℕ → Option Param
unfolding param_get_by_name param_get_by_id
get_conf_param ps (some name) id = param_get_by_name ps name
get_conf_param ps none id = param_get_by_id ps id

-- The `mask` of an entry, a set of CONF_DATA_NEW, CONF_DATA_UPDATED and CONF_DATA_STORED.
pub record Marks : Type 0 where
  pub new : Bool
  pub updated : Bool
  pub stored : Bool

abbrev pub no_marks : Marks
no_marks = record { new = false; updated = false; stored = false }

abbrev pub data_new : Marks
data_new = record { new = true; updated = false; stored = false }

abbrev pub data_updated : Marks
data_updated = record { new = false; updated = true; stored = false }

-- `mask |= more` and `mask == 0 ? CONF_DATA_NEW : mask`.
abbrev pub or_marks : Marks → Marks → Marks
or_marks m n = record {
  new = m.new || n.new;
  updated = m.updated || n.updated;
  stored = m.stored || n.stored;
}

abbrev pub marks_or_new : Marks → Marks
marks_or_new m = if m.new || m.updated || m.stored then m else data_new

-- `struct vzctl_config_data`.
pub record ConfData : Type 0 where
  pub name : Str
  pub val : Option Str
  pub mask : Marks

-- The `map` of a `struct vzctl_config`; `map.last` is its length.
abbrev pub Conf : Type 0
Conf = List ConfData

pub find_conf_data : Conf → Str → Option ConfData
find_conf_data [] name = none
find_conf_data (d ∷ ds) name = if str_eq d.name name then some d else find_conf_data ds name

-- The entry that `find_conf_data` finds gets a value and more marks.
pub update_data : Conf → Str → Option Str → Marks → Conf
update_data [] name val mask = []
update_data (d ∷ ds) name val mask =
    if str_eq d.name name
    then record d { val = val; mask = or_marks d.mask mask } ∷ ds
    else d ∷ update_data ds name val mask

is_some : Option Str → Bool
is_some none = false
is_some (some s) = true

append_data : Bool → Conf → Str → Option Str → Marks → ℕ × Conf
append_data mem conf name val mask =
    if length conf % 255 == 0 && not mem
    then (e_nomem, conf)
    else (0, conf ++ record { name = name; val = val; mask = marks_or_new mask } ∷ [])

-- `add_conf_data`. `mem` is the result of the allocation that it checks: the copy of a new value for
-- an old entry, or the room for 255 more entries.
pub add_conf_data : Bool → Conf → Str → Option Str → Marks → ℕ × Conf
unfolding find_conf_data update_data is_some append_data
add_conf_data mem conf name val mask = elim (find_conf_data conf name) [
  | some d ↦ if is_some val && not mem then (e_nomem, conf) else (0, update_data conf name val mask)
  | none ↦ append_data mem conf name val mask
]

-- `vzctl_conf_add_param` and `vzctl_conf_del_param`.
pub conf_add_param : Bool → Conf → Str → Str → ℕ × Conf
unfolding add_conf_data
conf_add_param mem conf name str = add_conf_data mem conf name (some str) data_updated

pub conf_del_param : Bool → Conf → Str → ℕ × Conf
unfolding add_conf_data
conf_del_param mem conf name = add_conf_data mem conf name none data_updated

value_of : Option ConfData → Option Str
value_of none = none
value_of (some d) = d.val

-- `vzctl2_conf_get_param`.
pub conf_get_param : Conf → Str → Option Str
unfolding find_conf_data value_of
conf_get_param conf name = value_of (find_conf_data conf name)

-- `is_private_param` and `local_param_filter` (lib/env_config.c).
pub is_private_param : Str → Bool
unfolding contains
is_private_param name =
    contains
      (codes "HOSTNAME"
        ∷ codes "IP_ADDRESS"
        ∷ codes "OSTEMPLATE"
        ∷ codes "TEMPLATE"
        ∷ codes "TEMPLATES"
        ∷ codes "VE_ROOT"
        ∷ codes "VE_PRIVATE"
        ∷ codes "NETIF"
        ∷ codes "VEID"
        ∷ codes "UUID"
        ∷ codes "DISTRIBUTION"
        ∷ codes "VEFORMAT"
        ∷ codes "VEFSTYPE"
        ∷ codes "TECHNOLOGIES"
        ∷ codes "PCI"
        ∷ codes "DISK"
        ∷ [])
      name

pub local_param_filter : Str → Bool
unfolding contains
local_param_filter name = contains (codes "NETFILTER" ∷ codes "VEID" ∷ codes "UUID" ∷ []) name

-- A step whose result is an error ends a loop.
abbrev pub then_rest : ℕ × Conf → (Conf → ℕ × Conf) → ℕ × Conf
then_rest (zero, conf) rest = rest conf
then_rest (suc e, conf) rest = (suc e, conf)

-- `merge_conf_data` from index `i` on; `mem i` is the allocation result of round `i`.
merge_from : (ℕ → Bool) → ℕ → Conf → Conf → (Str → Bool) → ℕ × Conf
merge_from mem i dst [] filter = (0, dst)
merge_from mem i dst (d ∷ src) filter =
    let skip = merge_from mem (i + 1) dst src filter in
    if filter d.name
    then skip
    else then_rest (add_conf_data (mem i) dst d.name d.val no_marks)
        (λ dst'. merge_from mem (i + 1) dst' src filter)

pub merge_conf_data : (ℕ → Bool) → Conf → Conf → (Str → Bool) → ℕ × Conf
unfolding merge_from add_conf_data
merge_conf_data mem dst src filter = merge_from mem 0 dst src filter

-- The strings that `fgets` with a buffer of `size` bytes returns: each ends behind a newline or at
-- `size - 1` bytes. `room` bytes are left for the current one.
fgets_from : ℕ → ℕ → Str → Str → List Str
fgets_from size room cur [] = elim cur [ [] ↦ [] | c ∷ s ↦ (c ∷ s) ∷ [] ]
fgets_from size room cur (c ∷ s) =
    let line = cur ++ c ∷ [] in
    let cut = line ∷ fgets_from size (size - 1) [] s in
    let more = fgets_from size (room - 1) line s in if c == b'\n' || leb room 1 then cut else more

pub fgets_all : ℕ → Str → List Str
unfolding fgets_from
fgets_all size file = fgets_from size (size - 1) [] file

abbrev pub ltoken_size : ℕ
ltoken_size = 4096

-- The loop of `parse_conf_data` over the lines that are read, from line `i` on.
pub parse_lines : (ℕ → Bool) → ℕ → Conf → List Str → Bool → ℕ × Conf
parse_lines mem i conf [] skip_private = (0, conf)
parse_lines mem i conf (l ∷ ls) skip_private = elim (parse_line l ltoken_size) [
  | none ↦ parse_lines mem (i + 1) conf ls skip_private
  | some (name, val) ↦
      if skip_private && is_private_param name
      then parse_lines mem (i + 1) conf ls skip_private
      else then_rest (add_conf_data (mem i) conf name (some val) no_marks)
          (λ conf'. parse_lines mem (i + 1) conf' ls skip_private)
]

-- The result of `fopen(fname, "r")`: the bytes of the file, ENOENT, or another error.
pub data Open : Type 0 where
  opened : Str → Open
  no_entry : Open
  open_failed : Open

-- The flags VZCTL_CONF_SKIP_GLOBAL, _SKIP_NON_EXISTS and _SKIP_PRIVATE.
pub record Flags : Type 0 where
  pub skip_global : Bool
  pub skip_non_exists : Bool
  pub skip_private : Bool

-- `parse_conf_data`.
pub parse_conf_data : (ℕ → Bool) → Conf → Open → Flags → ℕ × Conf
unfolding parse_lines add_conf_data is_private_param parse_line fgets_all
parse_conf_data mem conf (opened file) flags =
    parse_lines mem 0 conf (fgets_all 40960 file) flags.skip_private
parse_conf_data mem conf no_entry flags =
    if flags.skip_non_exists then (0, conf) else (e_config, conf)
parse_conf_data mem conf open_failed flags = (e_config, conf)

-- The global configuration that is kept between calls, with its file's modification time.
pub record Cached : Type 0 where
  pub mtime : ℕ
  pub conf : Conf

-- Loading it afresh: the new cache, and what the caller gets.
reload : Option Cached → ℕ → ℕ × Conf → Option Cached × Option Conf
reload cache mtime (zero, conf) = (some (record { mtime = mtime; conf = conf }), some conf)
reload cache mtime (suc e, conf) = (cache, none)

load_global : (ℕ → Bool) → Bool → Option Cached → ℕ → Open → Option Cached × Option Conf
unfolding reload
load_global mem alloc cache mtime file =
    if alloc
    then reload cache mtime (
        parse_conf_data mem [] file
          (record { skip_global = false; skip_non_exists = false; skip_private = false }))
    else (cache, none)

-- `vzctl_global_conf`: `st` is the result of `stat` on the global file, `alloc` that of `alloc_conf`.
pub global_conf : (ℕ → Bool) → Bool → Option Cached → Option ℕ → Open → Option Cached × Option Conf
unfolding load_global
global_conf mem alloc cache none file = (cache, none)
global_conf mem alloc none (some mtime) file = load_global mem alloc none mtime file
global_conf mem alloc (some c) (some mtime) file =
    if c.mtime == mtime then (some c, some c.conf) else load_global mem alloc (some c) mtime file

-- The part of `conf_parse` that merges the global configuration `g`.
merge_global : (ℕ → Bool) → Conf → Flags → Option Conf → ℕ × Conf
merge_global mem conf flags g = if flags.skip_global then (0, conf) else elim g [
  | none ↦ (e_nomem, conf)
  | some gc ↦ merge_conf_data mem conf gc local_param_filter
]

-- `conf_parse`; `named` tells whether the copy of the file's name is made.
pub conf_parse : (ℕ → Bool) → (ℕ → Bool) → Bool → Conf → Flags → Option Conf → Open → ℕ × Conf
unfolding merge_global parse_conf_data
conf_parse gmem mem named conf flags g file =
    then_rest (merge_global gmem conf flags g)
      (λ conf'. if named then parse_conf_data mem conf' file flags else (e_nomem, conf'))
