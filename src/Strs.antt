-- ===== src/Strs.antt =====
-- The lists of strings of lib/util.c, as the lists that their heads stand for (Links). Whether
-- the allocation for a string works is an argument.
pub mod Merge
mod Tests
pub mod Trip
use libvzctl.Common.{
  ℕ, Bool, true, false, not, ◌&&◌, ◌||◌, Option, none, some, List, [], ◌∷◌, ◌++◌, Str, str_eq,
  contains, if◌then◌else◌,
}
use libvzctl.Common.Errors.{e_nomem}
use libvzctl.Line.{strip_end}
use libvzctl.OnOff.{tokens}

-- The result of the allocations for a string.
abbrev pub Alloc : Type 0
Alloc = Str → Bool

-- `find_str`.
pub find_str : List Str → Str → Option Str
find_str [] str = none
find_str (x ∷ xs) str = let rest = find_str xs str in if str_eq x str then some x else rest

-- `add_str_param`: the list behind it, and whether it returned an element.
pub add_str_param : Alloc → List Str → Str → List Str × Bool
add_str_param mem head str = if mem str then (head ++ str ∷ [], true) else (head, false)

-- `find_str(head, str) != NULL`.
abbrev pub is_found : List Str → Str → Bool
is_found head str = elim (find_str head str) [ none ↦ false | some s ↦ true ]

-- The list behind `add_str_param`, whose result the loop does not read.
abbrev pub with_added : Alloc → List Str → Str → List Str
with_added mem head str = (add_str_param mem head str).0

-- The `strtok_r` loop of `parse_str_param`.
parse_words : Alloc → List Str → List Str → ℕ × List Str
unfolding add_str_param find_str
parse_words mem head [] = (0, head)
parse_words mem head (t ∷ ts) =
    let next = parse_words mem (if is_found head t then head else with_added mem head t) ts in
    if not (is_found head t) && not (mem t) then (e_nomem, head) else next

-- `parse_str_param` behind its `strdup`.
pub parse_str_param : Alloc → List Str → Str → ℕ × List Str
unfolding parse_words
parse_str_param mem head val = parse_words mem head (tokens val)

-- The loop of `copy_str`.
copy_onto : Alloc → List Str → List Str → List Str
unfolding add_str_param
copy_onto mem dst [] = dst
copy_onto mem dst (s ∷ src) = copy_onto mem (with_added mem dst s) src

pub copy_str : Alloc → (dst src : List Str) → List Str
unfolding copy_onto
copy_str mem dst src = copy_onto mem [] src

-- The first loop of `merge_str_list`.
keep_old : Alloc → (del : List Str) → List Str → List Str → List Str
unfolding add_str_param find_str
keep_old mem del [] merged = merged
keep_old mem del (s ∷ old) merged =
    keep_old mem del old (if is_found del s then merged else with_added mem merged s)

-- Its second loop.
add_new : Alloc → (del : List Str) → List Str → List Str → List Str
unfolding add_str_param find_str
add_new mem del [] merged = merged
add_new mem del (s ∷ add) merged =
    add_new mem del add
      (if is_found merged s || is_found del s then merged else with_added mem merged s)

pub is_empty_list : List Str → Bool
is_empty_list [] = true
is_empty_list (x ∷ xs) = false

-- `merge_str_list`: the list `merged` behind it.
pub merge_str_list :
    Alloc → (old add del : List Str) → (delall : Bool) → (merged : List Str) → List Str
unfolding keep_old add_new is_empty_list
merge_str_list mem old add del delall merged =
    if not delall && is_empty_list add && is_empty_list del
    then merged
    else add_new mem del add (if delall then merged else keep_old mem del old merged)

-- What the loop of `list2str` prints.
print_words : List Str → Str
print_words [] = []
print_words (w ∷ ws) = w ++ b' ' ∷ print_words ws

-- `list2str` behind its `malloc`; `prefix` is empty for NULL.
pub list2str : (prefix : Str) → List Str → Str
unfolding print_words
list2str prefix head = strip_end (prefix ++ print_words head)
