-- ===== src/Config/Save.antt =====
-- `vzctl2_conf_save` of lib/config.c: the file is written anew, with updated entries in place of
-- their old lines or behind them, and renamed over the old one.
pub mod Reread
pub mod Value
mod Files
mod Failure
mod Tests
use libvzctl.Common.{
  ℕ, Bool, true, false, not, ◌&&◌, Option, none, some, List, [], ◌∷◌, ◌++◌, Str, str_eq,
  if◌then◌else◌,
}
use libvzctl.Line.{parse_line}
use libvzctl.Line.Print.{printed}
use libvzctl.Config.{
  Marks, data_new, ConfData, Conf, find_conf_data, fgets_all, ltoken_size, Open, opened, no_entry,
  open_failed,
}

-- `data->mask |= CONF_DATA_STORED` for the entry that `find_conf_data` finds.
pub mark_stored : Conf → Str → Conf
mark_stored [] name = []
mark_stored (d ∷ ds) name =
    if str_eq d.name name
    then record d { mask = record { new = d.mask.new; updated = d.mask.updated; stored = true } }
      ∷ ds
    else d ∷ mark_stored ds name

print_value : Str → Option Str → List Str
print_value name none = []
print_value name (some val) = printed name val ∷ []

-- What is written for a line, and whether the entry found for it is marked.
save_found : Str → Option ConfData → Bool × List Str
save_found line none = (false, line ∷ [])
save_found line (some d) =
    if d.mask.updated then (true, print_value d.name d.val) else (false, line ∷ [])

pub save_line : Conf → Str → Conf × List Str
unfolding save_found print_value mark_stored
save_line conf line = elim (parse_line line ltoken_size) [
  | none ↦ (conf, line ∷ [])
  | some (name, val) ↦ (
    if (save_found line (find_conf_data conf name)).0 then mark_stored conf name else conf,
    (save_found line (find_conf_data conf name)).1,
  )
]

-- The `fgets` loop: the configuration with its marks, and the strings written.
pub save_lines : Conf → List Str → Conf × List Str
save_lines conf [] = (conf, [])
save_lines conf (l ∷ ls) =
    let (conf', out) = save_line conf l in let rest = save_lines conf' ls in (rest.0, out ++ rest.1)

-- The loop behind `skip_read`: what it writes, and the marks that it leaves.
pub save_rest : Conf → List Str
unfolding print_value
save_rest [] = []
save_rest (d ∷ ds) =
    (if not d.mask.stored && d.mask.updated then print_value d.name d.val else []) ++ save_rest ds

reset_marks : Conf → Conf
reset_marks [] = []
reset_marks (d ∷ ds) = record d { mask = data_new } ∷ reset_marks ds

-- The strings in one file.
abbrev pub concat : List Str → Str
concat [] = []
concat (l ∷ ls) = l ++ concat ls

-- `realpath`: found, ENOENT, another error.
pub data RealPath : Type 0 where
  resolved not_there unresolved : RealPath

-- The results of the calls: `realpath`, the two `fopen`, the first `rename` that does not say EBUSY
-- (the loop tries again on EBUSY) and `fclose`.
pub record SaveCalls : Type 0 where
  pub path : RealPath
  pub open_out : Bool
  pub in_file : Open
  pub renamed : Bool
  pub closed : Bool

-- The values 0, -1 and VZCTL_E_CONF_SAVE.
pub data SaveRet : Type 0 where
  saved bad_path save_failed : SaveRet

-- `file` is the new content that replaced the old file, if it did.
pub record Saved : Type 0 where
  pub ret : SaveRet
  pub conf : Conf
  pub file : Option Str

-- From the `rename` on.
save_rename : SaveCalls → Conf → Str → Saved
save_rename o conf text =
    if not o.renamed
    then record { ret = save_failed; conf = conf; file = none }
    else record { ret = if o.closed then saved else save_failed; conf = conf; file = some text }

save_to : SaveCalls → Conf × List Str → Saved
unfolding save_rename save_rest reset_marks
save_to o (conf, out) = save_rename o (reset_marks conf) (concat (out ++ save_rest conf))

save_from : SaveCalls → Conf → Open → Saved
unfolding save_to save_lines save_line fgets_all
save_from o conf (opened text) = save_to o (save_lines conf (fgets_all 65536 text))
save_from o conf no_entry = save_to o (conf, [])
save_from o conf open_failed = record { ret = save_failed; conf = conf; file = none }

save_resolved : SaveCalls → Conf → Saved
unfolding save_from
save_resolved o conf =
    if o.open_out
    then save_from o conf o.in_file
    else record { ret = save_failed; conf = conf; file = none }

-- `vzctl2_conf_save`.
pub conf_save : SaveCalls → Conf → Saved
unfolding save_resolved
conf_save o conf = elim o.path [
  | unresolved ↦ record { ret = bad_path; conf = conf; file = none }
  | resolved ↦ save_resolved o conf
  | not_there ↦ save_resolved o conf
]
