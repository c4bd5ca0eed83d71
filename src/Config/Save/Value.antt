-- ===== src/Config/Save/Value.antt =====
-- Saving a configuration and reading the file again.
use libvzctl.Common.{
  ◌≡◌, inl, inr, ◌∙◌, refl, Bool, true, false, not, ◌&&◌, Option, none, some, List, [], ◌∷◌, ◌++◌,
  arith, Str, All, str_eq, str_eq_iff, if◌then◌else◌, Bool-cases, Option-cases,
}
use libvzctl.Line.{parse_line}
use libvzctl.Config.{ConfData, Conf, find_conf_data, ltoken_size}
use libvzctl.Config.Map.{IsMap, line_value}
use libvzctl.Config.Save.{mark_stored, print_value, save_found, save_line, save_lines, save_rest}
use libvzctl.Config.Save.Reread.{
  PrintsBack, set_stored, save_lines-value, find-save_lines, find-mark, All-save_line,
  line_value-append,
}

-- What the strings written at the end give a name.
abbrev emitted : Option ConfData → Option Str → Option Str
emitted none old = old
emitted (some d) old =
    if not d.mask.stored && d.mask.updated then elim d.val [ none ↦ old | some v ↦ some v ] else old

line_value_print :
    (d : ConfData) (old : Option Str) (k : Str)
    → PrintsBack d
    → d.mask.updated ≡ true
    → line_value false (print_value d.name d.val) old k
      ≡ (if str_eq d.name k then elim d.val [ none ↦ old | some v ↦ some v ] else old)
unfolding print_value
line_value_print d old k h u = elim (Option-cases d.val) [
  | inl n ↦ ground arith
  | inr (v, e) ↦ ground (arith, (h u v e).0)
]

save_rest-value :
    (conf : Conf) (old : Option Str) (k : Str)
    → IsMap conf
    → All PrintsBack conf
    → line_value false (save_rest conf) old k ≡ emitted (find_conf_data conf k) old
unfolding save_rest find_conf_data
save_rest-value [] old k m h = refl
save_rest-value (d ∷ ds) old k (a, m) (b, h) =
    elim (Bool-cases (not d.mask.stored && d.mask.updated)) [
      | inr n ↦ ground (arith, save_rest-value ds old k m h, str_eq_iff d.name k)
      | inl y ↦
          let shown = line_value_print d old k b (ground arith) in
          rw y (
            line_value-append (print_value d.name d.val) (save_rest ds) old k
            ∙ rw shown (
                ground (
                  arith,
                  save_rest-value ds
                      (if str_eq d.name k
                        then (elim d.val [ none ↦ old | some v ↦ some v ])
                        else old)
                      k m h,
                  str_eq_iff d.name k,
                )))
    ]

IsMap-mark : (conf : Conf) (n : Str) → IsMap conf → IsMap (mark_stored conf n)
unfolding mark_stored
IsMap-mark [] n h = tt
IsMap-mark (d ∷ ds) n (a, h) = elim (Bool-cases (str_eq d.name n)) [
  | inl y ↦ rw y (a, h)
  | inr z ↦ rw z (rw find-mark (rw a), IsMap-mark ds n h)
]

IsMap-save_line : (conf : Conf) (l : Str) → IsMap conf → IsMap (save_line conf l).0
unfolding save_line
IsMap-save_line conf l h = elim (Option-cases (parse_line l ltoken_size)) [
  | inl n ↦ rw (n, IsMap) h
  | inr (p, f) ↦ rw (f, IsMap) (choose (save_found l (find_conf_data conf p.0)).0 p.0)
]
  where
    choose : (b : Bool) (n : Str) → IsMap (if b then mark_stored conf n else conf)
    choose true n = IsMap-mark conf n h
    choose false n = h

IsMap-save_lines : (ls : List Str) (conf : Conf) → IsMap conf → IsMap (save_lines conf ls).0
unfolding save_lines
IsMap-save_lines [] conf h = h
IsMap-save_lines (l ∷ ls) conf h =
    IsMap-save_lines ls (save_line conf l).0 (IsMap-save_line conf l h)

pub All-save_lines :
    (ls : List Str) (conf : Conf) → All PrintsBack conf → All PrintsBack (save_lines conf ls).0
unfolding save_lines
All-save_lines [] conf h = h
All-save_lines (l ∷ ls) conf h = All-save_lines ls (save_line conf l).0 (All-save_line conf l h)

-- What a saved file gives a name, by the entry that the configuration has for it.
abbrev pub reread : Option ConfData → Option Str → Option Str
reread none old = old
reread (some d) old = if d.mask.updated then d.val else old

pub save-value :
    (ls : List Str) (conf : Conf) (k : Str)
    → IsMap conf
    → All PrintsBack conf
    → ((d : ConfData) → find_conf_data conf k ≡ some d → d.mask.stored ≡ false)
    → line_value false ((save_lines conf ls).1 ++ save_rest (save_lines conf ls).0) none k
      ≡ reread (find_conf_data conf k) (line_value false ls none k)
save-value ls conf k m h fresh =
    line_value-append (save_lines conf ls).1 _ none k
    ∙ save_rest-value (save_lines conf ls).0 _ k (IsMap-save_lines ls conf m)
        (All-save_lines ls conf h)
    ∙ rw find-save_lines (
        rw (save_lines-value ls conf none k h) (elim (Option-cases (find_conf_data conf k)) [
          | inl n ↦ rw n refl
          | inr (d, f) ↦ rw f (unfold set_stored in ground (arith, fresh d f))
        ]))
