-- ===== src/Config/Save/Tests.antt =====
-- The theorems on configurations and their files at concrete inputs.
use libvzctl.Common.{
  contains, ◌<◌, ℕ, ◌≡◌, ◌≢◌, refl, Bool, true, false, Option, none, some, List, [], ◌∷◌, arith,
  Str, codes, str_eq, contains, All,
}
use libvzctl.Line.{is_space, parse_line}
use libvzctl.Line.Print.{printed, IsKey, IsValue}
use libvzctl.Config.{
  parse_conf_data, conf_add_param, conf_del_param, global_conf, conf_parse, no_entry, fgets_all,
  ConfData, Conf, Marks, data_new, data_updated, find_conf_data, add_conf_data, conf_get_param,
  merge_conf_data, local_param_filter, parse_lines, opened,
}
use libvzctl.Config.Map.{IsMap}
use libvzctl.Config.Save.{SaveCalls, resolved, saved, conf_save, concat}
use libvzctl.Config.Save.Reread.{IsLine}
use libvzctl.Config.Save.Value.{reread}
use libvzctl.Config.Save.Files.{plain, IsSavable, read_file, conf_save-reread}

abbrev entry : Str → Option Str → Marks → ConfData
entry name val mask = record { name = name; val = val; mask = mask }

-- A is updated to 2, B is removed, C stands as it was read.
abbrev conf : Conf
conf =
    entry (codes "A") (some (codes "2")) data_updated
    ∷ entry (codes "B") none data_updated
    ∷ entry (codes "C") (some (codes "1")) data_new
    ∷ []

abbrev lines : List Str
lines =
    printed (codes "A") (codes "1")
    ∷ printed (codes "B") (codes "1")
    ∷ printed (codes "C") (codes "1")
    ∷ []

abbrev calls : Bool → SaveCalls
calls renamed = record {
  path = resolved;
  open_out = true;
  in_file = opened (concat lines);
  renamed = renamed;
  closed = true;
}

conf-IsMap : IsMap conf
unfolding find_conf_data str_eq
conf-IsMap = (refl, (refl, (refl, tt)))

letter-IsKey : (c : ℕ) → 64 < c → c < 91 → IsKey (c ∷ [])
unfolding is_space
letter-IsKey c a b = (
  (cc),
  ((ground arith, ground arith, ground arith, ground arith, ground arith, ground arith), tt),
)

digit-IsValue : (c : ℕ) → 47 < c → c < 58 → IsValue (c ∷ [])
digit-IsValue c a b = ((omega arith, omega arith), tt)

parses : (parse_lines (λ _. true) 0 [] lines false).0 ≡ 0
unfolding parse_lines parse_line add_conf_data str_eq
parses = refl

-- A line of one name byte and one value byte.
short-IsLine : (c v : ℕ) → c ≢ 10 → v ≢ 10 → IsLine 40959 (printed (c ∷ []) (v ∷ []))
short-IsLine c v a b = (
  a,
  omega arith,
  (
    omega arith,
    omega arith,
    (omega arith, omega arith, (b, omega arith, (omega arith, omega arith, refl))),
  ),
)

some_value : (v : Str) → some (codes "2") ≡ some v → codes "2" ≡ v
some_value v e = cc

two : (v : Str) → codes "2" ≡ v → IsValue v × IsLine 40959 (printed (codes "A") v)
two v e =
    rw (← e)
      (digit-IsValue 50 (omega arith) (omega arith), short-IsLine 65 50 (omega arith) (omega arith))

conf-IsSavable : All IsSavable conf
conf-IsSavable = (
  record {
    fresh = refl;
    named = λ _. (letter-IsKey 65 (omega arith) (omega arith), omega arith);
    valued = λ _ v e. two v (some_value v e);
  },
  (
    record {
      fresh = refl;
      named = λ _. (letter-IsKey 66 (omega arith) (omega arith), omega arith);
      valued = λ _ v e. absurd (ground arith);
    },
    (
      record {
        fresh = refl;
        named = λ e. absurd (ground arith);
        valued = λ e v f. absurd (ground arith);
      },
      tt,
    ),
  ),
)

lines-IsLine : All (IsLine 40959) lines
lines-IsLine = (
  short-IsLine 65 49 (omega arith) (omega arith),
  (
    short-IsLine 66 49 (omega arith) (omega arith),
    (short-IsLine 67 49 (omega arith) (omega arith), tt),
  ),
)

saves : (conf_save (calls true) conf).ret ≡ saved
unfolding conf_save
saves = refl

conf_save-reread_example :
    (text : Str) × ((conf_save (calls true) conf).file ≡ some text)
    × (conf_get_param (read_file text) (codes "A")
        ≡ reread
            (find_conf_data conf (codes "A"))
            (conf_get_param (read_file (concat lines)) (codes "A")))
conf_save-reread_example =
    conf_save-reread (calls true) conf lines (codes "A") conf-IsMap conf-IsSavable lines-IsLine refl
      saves

changed :
    ((conf_add_param true conf (codes "C") (codes "3")).0 ≡ 0)
    × ((conf_del_param true conf (codes "C")).0 ≡ 0)
unfolding conf_add_param conf_del_param str_eq
changed = (refl, refl)

no_global : global_conf (λ _. true) true none (some 5) no_entry ≡ (none, none)
unfolding global_conf parse_conf_data
no_global = refl

parsed :
    (conf_parse (λ _. true) (λ _. true) true [] plain (some conf) (opened (concat lines))).0 ≡ 0
unfolding conf_parse str_eq contains fgets_all parse_line merge_conf_data local_param_filter
parsed = refl
