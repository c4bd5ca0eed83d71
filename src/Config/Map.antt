-- ===== src/Config/Map.antt =====
-- A configuration as a map from names to values: adding, merging and reading lines.
use libvzctl.Common.{
  ℕ, ◌+◌, ◌≡◌, ◌⊎◌, inl, inr, refl, Bool, true, false, ◌&&◌, Option, none, some, List, [], ◌∷◌,
  ◌++◌, arith, Str, str_eq, str_eq_iff, if◌then◌else◌, Bool-cases, Option-cases,
}
use libvzctl.Common.Errors.{e_nomem}
use libvzctl.Line.{parse_line}
use libvzctl.Config.{
  parse_lines, ltoken_size, is_private_param, Marks, no_marks, marks_or_new, ConfData, Conf,
  find_conf_data, update_data, append_data, add_conf_data, conf_get_param, value_of, merge_from,
  merge_conf_data,
}

-- Names are found once.
abbrev pub IsMap : Conf → Type 0
IsMap [] = Unit
IsMap (d ∷ ds) = (find_conf_data ds d.name ≡ none) × IsMap ds

find-update :
    (conf : Conf) (name k : Str) (val : Option Str) (mask : Marks) (x : ConfData)
    → find_conf_data conf name ≡ some x
    → value_of (find_conf_data (update_data conf name val mask) k)
      ≡ (if str_eq name k then val else value_of (find_conf_data conf k))
unfolding find_conf_data update_data value_of
find-update [] name k val mask x h = cc
find-update (d ∷ ds) name k val mask x h = ground (
  arith,
  str_eq_iff d.name name,
  str_eq_iff d.name k,
  str_eq_iff name k,
  find-update ds name k val mask x,
)

find-append :
    (conf : Conf) (k : Str) (d : ConfData)
    → find_conf_data conf d.name ≡ none
    → value_of (find_conf_data (conf ++ d ∷ []) k)
      ≡ (if str_eq d.name k then d.val else value_of (find_conf_data conf k))
unfolding find_conf_data value_of
find-append [] k d h = ground arith
find-append (e ∷ conf) k d h = ground (
  arith,
  str_eq_iff d.name k,
  str_eq_iff e.name k,
  str_eq_iff e.name d.name,
  find-append conf k d,
)

-- A successful `add_conf_data` sets the value of its name, and of no other. One that fails returns
-- VZCTL_E_NOMEM and changes nothing.
pub conf_get-add :
    (mem : Bool) (conf : Conf) (name : Str) (val : Option Str) (mask : Marks) (k : Str)
    → ((add_conf_data mem conf name val mask).0 ≡ 0)
        × (conf_get_param (add_conf_data mem conf name val mask).1 k
            ≡ (if str_eq name k then val else conf_get_param conf k))
      ⊎ (add_conf_data mem conf name val mask ≡ (e_nomem, conf))
unfolding add_conf_data conf_get_param
conf_get-add mem conf name val mask k = elim (Option-cases (find_conf_data conf name)) [
  | inl n ↦
      ground
        (arith, find-append conf k (record { name = name; val = val; mask = marks_or_new mask }) n)
  | inr (d, f) ↦ ground (arith, find-update conf name k val mask d f)
]

find-other :
    (conf : Conf) (name k : Str) (val : Option Str) (mask : Marks)
    → find_conf_data conf k ≡ none
    → find_conf_data (update_data conf name val mask) k ≡ none
unfolding find_conf_data update_data
find-other [] name k val mask h = refl
find-other (d ∷ ds) name k val mask h = ground (arith, find-other ds name k val mask)

update-IsMap :
    (conf : Conf) (name : Str) (val : Option Str) (mask : Marks)
    → IsMap conf
    → IsMap (update_data conf name val mask)
unfolding update_data
update-IsMap [] name val mask h = tt
update-IsMap (d ∷ ds) name val mask (a, h) = elim (Bool-cases (str_eq d.name name)) [
  | inl y ↦ rw y (a, h)
  | inr n ↦ rw n (find-other ds name d.name val mask a, update-IsMap ds name val mask h)
]

find-append_none :
    (conf : Conf) (k : Str) (d : ConfData)
    → find_conf_data conf k ≡ none
    → str_eq d.name k ≡ false
    → find_conf_data (conf ++ d ∷ []) k ≡ none
unfolding find_conf_data
find-append_none [] k d h n = ground arith
find-append_none (e ∷ conf) k d h n = ground (arith, find-append_none conf k d)

append-IsMap :
    (conf : Conf) (d : ConfData)
    → IsMap conf
    → find_conf_data conf d.name ≡ none
    → IsMap (conf ++ d ∷ [])
unfolding find_conf_data
append-IsMap [] d h n = (refl, tt)
append-IsMap (e ∷ conf) d (a, h) n = (
  find-append_none conf e.name d a
      (ground (arith, str_eq_iff e.name d.name, str_eq_iff d.name e.name)),
  append-IsMap conf d h (ground arith),
)

choose-IsMap : (b : Bool) (x y : ℕ × Conf) → IsMap x.1 → IsMap y.1 → IsMap (if b then x else y).1
choose-IsMap true x y h k = h
choose-IsMap false x y h k = k

-- `add_conf_data` keeps every name at one place.
pub add-IsMap :
    (mem : Bool) (conf : Conf) (name : Str) (val : Option Str) (mask : Marks)
    → IsMap conf
    → IsMap (add_conf_data mem conf name val mask).1
unfolding add_conf_data
add-IsMap mem conf name val mask h = elim (Option-cases (find_conf_data conf name)) [
  | inl n ↦
      rw (n, add_conf_data) (unfold append_data in choose-IsMap _ _ _ h (append-IsMap conf _ h n))
  | inr (d, f) ↦ rw (f, add_conf_data) (choose-IsMap _ _ _ h (update-IsMap conf name val mask h))
]

-- The value of a name after a merge: that of the source, unless it has none or is filtered out.
abbrev pub merge_value : Conf → (Str → Bool) → Option Str → Str → Option Str
merge_value src filter old k = elim (find_conf_data src k) [
  | none ↦ old
  | some d ↦ if filter k then old else d.val
]

merge_from-value :
    (mem : ℕ → Bool) (i : ℕ) (dst src : Conf) (filter : Str → Bool) (k : Str)
    → IsMap src
    → (merge_from mem i dst src filter).0 ≡ 0
    → conf_get_param (merge_from mem i dst src filter).1 k
      ≡ merge_value src filter (conf_get_param dst k) k
unfolding merge_from find_conf_data conf_get_param
merge_from-value mem i dst [] filter k m e = refl
merge_from-value mem i dst (d ∷ src) filter k (a, m) e = elim (Bool-cases (filter d.name)) [
  | inl y ↦ ground (arith, merge_from-value mem (i + 1) dst src filter k m, str_eq_iff d.name k)
  | inr n ↦ elim (conf_get-add (mem i) dst d.name d.val no_marks k) [
    | inl (z, g) ↦ ground (
      arith,
      merge_from-value mem (i + 1) (add_conf_data (mem i) dst d.name d.val no_marks).1 src filter k
          m,
      str_eq_iff d.name k,
    )
    | inr f ↦ ground arith
  ]
]

-- After a merge that returns 0 each name has the source's value, or the old one where the source
-- does not hold the name or the filter takes it.
pub merge_conf_data-value :
    (mem : ℕ → Bool) (dst src : Conf) (filter : Str → Bool) (k : Str)
    → IsMap src
    → (merge_conf_data mem dst src filter).0 ≡ 0
    → conf_get_param (merge_conf_data mem dst src filter).1 k
      ≡ merge_value src filter (conf_get_param dst k) k
unfolding merge_conf_data
merge_conf_data-value mem dst src filter k m e = merge_from-value mem 0 dst src filter k m e

-- The value that lines give a name, from the one before: the last line of the name counts.
abbrev pub line_value : Bool → List Str → Option Str → Str → Option Str
line_value skip [] old k = old
line_value skip (l ∷ ls) old k =
    line_value skip ls
      (elim (parse_line l ltoken_size) [
        | none ↦ old
        | some (n, v) ↦
            if skip && is_private_param n then old else if str_eq n k then some v else old
      ])
      k

-- After the lines of a file are read with the result 0, each name has the value of its last line, or
-- the old one where no line that counts gives it any.
pub parse_lines-value :
    (mem : ℕ → Bool) (i : ℕ) (conf : Conf) (ls : List Str) (skip : Bool) (k : Str)
    → (parse_lines mem i conf ls skip).0 ≡ 0
    → conf_get_param (parse_lines mem i conf ls skip).1 k
      ≡ line_value skip ls (conf_get_param conf k) k
unfolding parse_lines
parse_lines-value mem i conf [] skip k e = refl
parse_lines-value mem i conf (l ∷ ls) skip k e = elim (Option-cases (parse_line l ltoken_size)) [
  | inl n ↦ ground (arith, parse_lines-value mem (i + 1) conf ls skip k)
  | inr (p, f) ↦ elim (Bool-cases (skip && is_private_param p.0)) [
    | inl y ↦ ground (arith, parse_lines-value mem (i + 1) conf ls skip k)
    | inr z ↦ elim (conf_get-add (mem i) conf p.0 (some p.1) no_marks k) [
      | inl (o, g) ↦ ground (
        arith,
        parse_lines-value mem (i + 1) (add_conf_data (mem i) conf p.0 (some p.1) no_marks).1 ls skip
            k,
      )
      | inr g ↦ ground arith
    ]
  ]
]
