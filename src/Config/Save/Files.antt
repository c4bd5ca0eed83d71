-- ===== src/Config/Save/Files.antt =====
-- Lines in files, and the theorem on saving and reading again.
use libvzctl.Common.{
  ℕ, ◌+◌, ◌-◌, ◌<◌, ◌≤◌, ◌≡◌, inl, inr, ◌∙◌, refl, ap, Bool, true, false, not, ◌&&◌, Option, none,
  some, List, [], ◌∷◌, ◌++◌, arith, Str, All, All-append, str_eq, Bool-cases, Option-cases,
  append_assoc, length,
}
use libvzctl.Line.{parse_line}
use libvzctl.Line.Print.{printed, IsKey, IsValue, parse_line-printed}
use libvzctl.Config.{
  Marks, no_marks, ConfData, Conf, find_conf_data, ltoken_size, fgets_from, fgets_all, parse_lines,
  parse_conf_data, conf_get_param, opened, Flags, add_conf_data,
}
use libvzctl.Config.Map.{IsMap, line_value, parse_lines-value}
use libvzctl.Config.Save.{
  print_value, save_found, save_line, save_lines, save_rest, concat, SaveCalls, saved, conf_save,
}
use libvzctl.Config.Save.Reread.{IsLine, PrintsBack, find-All, All-save_line}
use libvzctl.Config.Save.Value.{reread, save-value, All-save_lines}

fgets_line :
    (l : Str) (size room : ℕ) (cur rest : Str)
    → IsLine room l
    → fgets_from size room cur (l ++ rest) ≡ (cur ++ l) ∷ fgets_from size (size - 1) [] rest
unfolding fgets_from
fgets_line [] size room cur rest h = absurd h
fgets_line (c ∷ []) size room cur rest h = ground arith
fgets_line (c ∷ d ∷ s) size room cur rest (n, f, h) = ground (
  arith,
  fgets_line (d ∷ s) size (room - 1) (cur ++ c ∷ []) rest h,
  append_assoc cur (c ∷ []) (d ∷ s),
)

fgets_concat :
    (ls : List Str) (size : ℕ)
    → All (IsLine (size - 1)) ls
    → fgets_from size (size - 1) [] (concat ls) ≡ ls
fgets_concat [] size h = unfold fgets_from in refl
fgets_concat (l ∷ ls) size (a, h) =
    fgets_line l size (size - 1) [] (concat ls) a ∙ ap (◌∷◌ l) (fgets_concat ls size h)

IsLine-mono : (l : Str) (room more : ℕ) → room ≤ more → IsLine room l → IsLine more l
IsLine-mono [] room more le h = h
IsLine-mono (c ∷ []) room more le h = h
IsLine-mono (c ∷ d ∷ s) room more le (n, f, h) =
    (n, omega arith, IsLine-mono (d ∷ s) (room - 1) (more - 1) (omega arith) h)

All-IsLine-mono :
    (ls : List Str) (room more : ℕ) → room ≤ more → All (IsLine room) ls → All (IsLine more) ls
All-IsLine-mono [] room more le h = tt
All-IsLine-mono (l ∷ ls) room more le (a, h) =
    (IsLine-mono l room more le a, All-IsLine-mono ls room more le h)

add-zero :
    (conf : Conf) (name : Str) (val : Option Str) (mask : Marks)
    → (add_conf_data true conf name val mask).0 ≡ 0
unfolding add_conf_data
add-zero conf name val mask = ground arith

parse_lines-zero :
    (i : ℕ) (conf : Conf) (ls : List Str) (skip : Bool)
    → (parse_lines (λ _. true) i conf ls skip).0 ≡ 0
unfolding parse_lines
parse_lines-zero i conf [] skip = refl
parse_lines-zero i conf (l ∷ ls) skip = elim (Option-cases (parse_line l ltoken_size)) [
  | inl n ↦ ground (arith, parse_lines-zero (i + 1) conf ls skip)
  | inr (p, f) ↦ ground (
    arith,
    add-zero conf p.0 (some p.1) no_marks,
    parse_lines-zero (i + 1) (add_conf_data true conf p.0 (some p.1) no_marks).1 ls skip,
    parse_lines-zero (i + 1) conf ls skip,
  )
]

print_value-IsLine :
    (d : ConfData)
    → PrintsBack d
    → d.mask.updated ≡ true
    → All (IsLine 40959) (print_value d.name d.val)
unfolding print_value
print_value-IsLine d h u = elim (Option-cases d.val) [
  | inl n ↦ rw (n, All) tt
  | inr (v, e) ↦ rw (e, All) ((h u v e).1, tt)
]

save_rest-IsLine : (conf : Conf) → All PrintsBack conf → All (IsLine 40959) (save_rest conf)
unfolding save_rest
save_rest-IsLine [] h = tt
save_rest-IsLine (d ∷ ds) (a, h) = elim (Bool-cases (not d.mask.stored && d.mask.updated)) [
  | inr n ↦ rw (n, All) (save_rest-IsLine ds h)
  | inl y ↦ rw y (All-append _ _ _ (print_value-IsLine d a (ground arith)) (save_rest-IsLine ds h))
]

save_line-IsLine :
    (conf : Conf) (l : Str)
    → All PrintsBack conf
    → IsLine 40959 l
    → All (IsLine 40959) (save_line conf l).1
unfolding save_line save_found
save_line-IsLine conf l h a = elim (Option-cases (parse_line l ltoken_size)) [
  | inl n ↦ rw (n, All) (a, tt)
  | inr (p, f) ↦ elim (Option-cases (find_conf_data conf p.0)) [
    | inl z ↦ rw (f, All) (rw (z, All) (a, tt))
    | inr (d, g) ↦ rw (f, All) (rw (g, All) (choose d (find-All conf p.0 d h g).0))
  ]
]
  where
    choose : (d : ConfData) → PrintsBack d → All (IsLine 40959) (save_found l (some d)).1
    choose d b = elim (Bool-cases d.mask.updated) [
      | inl u ↦ rw (u, All) (print_value-IsLine d b u)
      | inr u ↦ rw (u, All) (a, tt)
    ]

save_lines-IsLine :
    (ls : List Str) (conf : Conf)
    → All PrintsBack conf
    → All (IsLine 40959) ls
    → All (IsLine 40959) (save_lines conf ls).1
unfolding save_lines
save_lines-IsLine [] conf h a = tt
save_lines-IsLine (l ∷ ls) conf h (a, as') =
    All-append _ _ _ (save_line-IsLine conf l h a)
      (save_lines-IsLine ls (save_line conf l).0 (All-save_line conf l h) as')

-- The bytes of an entry that can be written: a name that `parse_line` reads, a value with no quote,
-- backslash or newline, and a line that fits its buffer.
pub record IsSavable (d : ConfData) : Type 0 where
  pub fresh : d.mask.stored ≡ false
  pub named : d.mask.updated ≡ true → IsKey d.name × (length d.name < ltoken_size)
  pub valued :
      d.mask.updated ≡ true
      → (v : Str) → d.val ≡ some v
      → IsValue v × IsLine 40959 (printed d.name v)

IsSavable-PrintsBack : (conf : Conf) → All IsSavable conf → All PrintsBack conf
IsSavable-PrintsBack [] h = tt
IsSavable-PrintsBack (d ∷ ds) (a, h) = (
  λ u v e.
      let (key, fits) = a.named u in
      let (value, line) = a.valued u v e in
      (parse_line-printed d.name v ltoken_size key value fits, line),
  IsSavable-PrintsBack ds h,
)

find-fresh :
    (conf : Conf) (k : Str) (d : ConfData)
    → All IsSavable conf
    → find_conf_data conf k ≡ some d
    → d.mask.stored ≡ false
unfolding find_conf_data
find-fresh [] k d h e = cc
find-fresh (x ∷ ds) k d (a, h) e = elim (Bool-cases (str_eq x.name k)) [
  | inl y ↦ let e' : x ≡ d = ground arith in rw (← e') a.fresh
  | inr n ↦ find-fresh ds k d h (ground arith)
]

abbrev pub plain : Flags
plain = record { skip_global = false; skip_non_exists = false; skip_private = false }

-- Reading a file of lines into an empty configuration, when its allocations succeed.
abbrev pub read_file : Str → Conf
read_file text = (parse_conf_data (λ _. true) [] (opened text) plain).1

read_file-value :
    (ls : List Str) (k : Str)
    → All (IsLine 40959) ls
    → conf_get_param (read_file (concat ls)) k ≡ line_value false ls none k
unfolding parse_conf_data fgets_all
read_file-value ls k h =
    ap (λ x. conf_get_param (parse_lines (λ _. true) 0 [] x false).1 k) (fgets_concat ls 40960 h)
    ∙ parse_lines-value (λ _. true) 0 [] ls false k (parse_lines-zero 0 [] ls false)
    ∙ ap (λ x. line_value false ls x k) (nothing_set k)
  where
    nothing_set : (n : Str) → conf_get_param [] n ≡ none
    nothing_set n = unfold conf_get_param in refl

-- Saving a configuration over a file of lines, and reading the file that results: a name whose entry
-- is updated has the entry's value (none, if the value was removed), any other name has the value
-- that the old file gave it. It needs that names stand once in the configuration, that entries can
-- be written, and that every line of the old file ends in a newline and fits the buffer.
pub conf_save-reread :
    (o : SaveCalls) (conf : Conf) (ls : List Str) (k : Str)
    → IsMap conf
    → All IsSavable conf
    → All (IsLine 40959) ls
    → o.in_file ≡ opened (concat ls)
    → (conf_save o conf).ret ≡ saved
    → (text : Str) × ((conf_save o conf).file ≡ some text)
      × (conf_get_param (read_file text) k
          ≡ reread (find_conf_data conf k) (conf_get_param (read_file (concat ls)) k))
unfolding conf_save
conf_save-reread o conf ls k m h lines f e =
    let b = IsSavable-PrintsBack conf h in
    let out = (save_lines conf ls).1 ++ save_rest (save_lines conf ls).0 in
    let whole =
      All-append _ _ _ (save_lines-IsLine ls conf b lines)
        (save_rest-IsLine (save_lines conf ls).0 (All-save_lines ls conf b)) in
    (
      concat out,
      ground (arith, fgets_concat ls 65536 (All-IsLine-mono ls 40959 65535 (omega arith) lines)),
      rw (read_file-value out k whole) (
          rw (read_file-value ls k lines)
            (save-value ls conf k m b (λ d g. find-fresh conf k d h g))),
    )
