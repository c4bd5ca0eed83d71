-- ===== src/Config/Save/Reread.antt =====
-- What reading a saved file gives: updated entries have their new values, all else the old ones.
use mathlib.Core.Option
use libvzctl.Common.{
  ℕ, ◌<◌, ◌-◌, ◌≡◌, ◌≢◌, inl, inr, ◌∙◌, refl, Bool, true, false, ◌&&◌, ◌||◌, Option, none, some,
  List, [], ◌∷◌, ◌++◌, arith, Str, All, str_eq, str_eq_iff, if◌then◌else◌, Bool-cases, Option-cases,
}
use libvzctl.Line.{parse_line}
use libvzctl.Line.Print.{printed}
use libvzctl.Config.{ConfData, Conf, find_conf_data, ltoken_size}
use libvzctl.Config.Map.{line_value}
use libvzctl.Config.Save.{mark_stored, print_value, save_found, save_line, save_lines}

-- Whether a line of the name is among the lines.
abbrev pub mentions : List Str → Str → Bool
mentions [] k = false
mentions (l ∷ ls) k =
    (elim (parse_line l ltoken_size) [ none ↦ false | some (n, v) ↦ str_eq n k ]) || mentions ls k

-- A line of a file: its only newline is its last byte, and `fgets` with `room` bytes reads it whole.
abbrev pub IsLine : ℕ → Str → Type 0
IsLine room [] = ⊥
IsLine room (c ∷ []) = c ≡ b'\n'
IsLine room (c ∷ d ∷ s) = (c ≢ b'\n') × (1 < room) × IsLine (room - 1) (d ∷ s)

-- The line that is printed for an updated entry reads back.
abbrev pub PrintsBack : ConfData → Type 0
PrintsBack d =
    d.mask.updated ≡ true
    → (v : Str) → d.val ≡ some v
    → (parse_line (printed d.name v) ltoken_size ≡ some (d.name, v))
      × IsLine 40959 (printed d.name v)

unfoldable pub set_stored : Bool → ConfData → ConfData
set_stored b d = record d {
  mask = record { new = d.mask.new; updated = d.mask.updated; stored = d.mask.stored || b };
}

pub find-mark :
    (conf : Conf) (n k : Str)
    → find_conf_data (mark_stored conf n) k
      ≡ Option.map (set_stored (str_eq n k)) (find_conf_data conf k)
unfolding find_conf_data mark_stored set_stored
find-mark [] n k = refl
find-mark (d ∷ ds) n k =
    ground (arith, str_eq_iff d.name n, str_eq_iff d.name k, str_eq_iff n k, find-mark ds n k)

All-mark : (conf : Conf) (n : Str) → All PrintsBack conf → All PrintsBack (mark_stored conf n)
unfolding mark_stored
All-mark [] n h = tt
All-mark (d ∷ ds) n (a, h) = elim (Bool-cases (str_eq d.name n)) [
  | inl y ↦ rw y (a, h)
  | inr z ↦ rw z (a, All-mark ds n h)
]

pub find-All :
    (conf : Conf) (n : Str) (d : ConfData)
    → All PrintsBack conf
    → find_conf_data conf n ≡ some d
    → PrintsBack d × (d.name ≡ n)
unfolding find_conf_data
find-All [] n d h e = cc
find-All (x ∷ ds) n d (a, h) e = elim (Bool-cases (str_eq x.name n)) [
  | inl y ↦ let e' : x ≡ d = ground arith in rw (← e') (a, (str_eq_iff x.name n).0 y)
  | inr z ↦ find-All ds n d h (ground arith)
]

pub line_value-append :
    (a b : List Str) (old : Option Str) (k : Str)
    → line_value false (a ++ b) old k ≡ line_value false b (line_value false a old k) k
line_value-append [] b old k = refl
line_value-append (l ∷ a) b old k = line_value-append a b _ k

-- What the saved lines give a name, by the entry that the configuration has for it.
abbrev pub after_lines : Option ConfData → List Str → Option Str → Str → Option Str
after_lines none ls old k = line_value false ls old k
after_lines (some d) ls old k =
    if d.mask.updated
    then elim d.val [ none ↦ old | some v ↦ if mentions ls k then some v else old ]
    else line_value false ls old k

-- Marking changes neither what an entry is worth nor whether its line reads back.
after_lines-stored :
    (o : Option ConfData) (b : Bool) (ls : List Str) (old : Option Str) (k : Str)
    → after_lines (Option.map (set_stored b) o) ls old k ≡ after_lines o ls old k
unfolding set_stored
after_lines-stored none b ls old k = refl
after_lines-stored (some d) b ls old k = refl

abbrev StepValue : Conf → Str → List Str → Option Str → Str → Type 0
StepValue conf l ls old k =
    after_lines (find_conf_data conf k) ls (line_value false (save_line conf l).1 old k) k
    ≡ after_lines (find_conf_data conf k) (l ∷ ls) old k

save_line-value :
    (conf : Conf) (l : Str) (ls : List Str) (old : Option Str) (k : Str)
    → All PrintsBack conf
    → StepValue conf l ls old k
unfolding save_line save_found print_value
save_line-value conf l ls old k h = elim (Option-cases (parse_line l ltoken_size)) [
  | inl n ↦ ground arith
  | inr (p, f) ↦ elim (Option-cases (find_conf_data conf p.0)) [
    | inl z ↦ ground (arith, str_eq_iff p.0 k)
    | inr (d, g) ↦ elim (Bool-cases d.mask.updated) [
      | inr u ↦ ground (arith, str_eq_iff p.0 k)
      | inl u ↦ elim (Option-cases d.val) [
        | inl vn ↦ ground (arith, str_eq_iff p.0 k)
        | inr (w, vs) ↦
            let (back, named) = find-All conf p.0 d h g in
            ground (arith, str_eq_iff p.0 k, str_eq_iff d.name k, (back u w vs).0)
      ]
    ]
  ]
]

-- The marks after some lines: the entries that were written are stored.
abbrev pub marked : List Str → Str → Option ConfData → Option ConfData
marked ls k none = none
marked ls k (some d) = some (set_stored (d.mask.updated && mentions ls k) d)

after_lines-marked :
    (o : Option ConfData) (xs ls : List Str) (old : Option Str) (k : Str)
    → after_lines (marked xs k o) ls old k ≡ after_lines o ls old k
unfolding set_stored
after_lines-marked none xs ls old k = refl
after_lines-marked (some d) xs ls old k = refl

find-save_line :
    (conf : Conf) (l k : Str)
    → find_conf_data (save_line conf l).0 k ≡ marked (l ∷ []) k (find_conf_data conf k)
unfolding save_line save_found set_stored
find-save_line conf l k = elim (Option-cases (parse_line l ltoken_size)) [
  | inl n ↦ ground arith
  | inr (p, f) ↦ ground (arith, f, str_eq_iff p.0 k, find-mark conf p.0 k)
]

pub All-save_line :
    (conf : Conf) (l : Str) → All PrintsBack conf → All PrintsBack (save_line conf l).0
unfolding save_line
All-save_line conf l h = elim (Option-cases (parse_line l ltoken_size)) [
  | inl n ↦ rw (n, All) h
  | inr (p, f) ↦ rw (f, All) (choose (save_found l (find_conf_data conf p.0)).0 p.0)
]
  where
    choose : (b : Bool) (n : Str) → All PrintsBack (if b then mark_stored conf n else conf)
    choose true n = All-mark conf n h
    choose false n = h

pub save_lines-value :
    (ls : List Str) (conf : Conf) (old : Option Str) (k : Str)
    → All PrintsBack conf
    → line_value false (save_lines conf ls).1 old k ≡ after_lines (find_conf_data conf k) ls old k
unfolding save_lines
save_lines-value [] conf old k h = ground arith
save_lines-value (l ∷ ls) conf old k h =
    line_value-append (save_line conf l).1 _ old k
    ∙ save_lines-value ls (save_line conf l).0 (line_value false (save_line conf l).1 old k) k
        (All-save_line conf l h)
    ∙ rw find-save_line (after_lines-marked (find_conf_data conf k) (l ∷ []) ls _ k)
    ∙ save_line-value conf l ls old k h

marked-marked :
    (o : Option ConfData) (l : Str) (ls : List Str) (k : Str)
    → marked ls k (marked (l ∷ []) k o) ≡ marked (l ∷ ls) k o
unfolding set_stored
marked-marked none l ls k = refl
marked-marked (some d) l ls k = ground arith

pub find-save_lines :
    (ls : List Str) (conf : Conf) (k : Str)
    → find_conf_data (save_lines conf ls).0 k ≡ marked ls k (find_conf_data conf k)
unfolding save_lines
find-save_lines [] conf k = unfold set_stored in ground arith
find-save_lines (l ∷ ls) conf k =
    find-save_lines ls (save_line conf l).0 k
    ∙ rw find-save_line (marked-marked (find_conf_data conf k) l ls k)
