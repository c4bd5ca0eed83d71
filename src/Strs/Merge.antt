-- ===== src/Strs/Merge.antt =====
-- What merging lists of strings keeps.
use libvzctl.Common.{
  ◌≡◌, refl, ap, Bool, true, false, not, ◌&&◌, ◌||◌, List, [], ◌∷◌, ◌++◌, arith, Str, str_eq,
  str_eq_iff, contains,
}
use libvzctl.Strs.{find_str, is_found, keep_old, add_new, merge_str_list, is_empty_list}

pub found_iff : (xs : List Str) (s : Str) → is_found xs s ≡ contains xs s
unfolding contains find_str
found_iff [] s = refl
found_iff (x ∷ xs) s = ground (arith, found_iff xs s)

-- Allocations that work.
abbrev pub all_works : Str → Bool
all_works s = true

pub contains-snoc :
    (xs : List Str) (s g : Str) → contains (xs ++ s ∷ []) g ≡ (contains xs g || str_eq s g)
unfolding contains
contains-snoc [] s g = ground arith
contains-snoc (x ∷ xs) s g = ground (arith, contains-snoc xs s g)

contains-str_eq : (xs : List Str) (s g : Str) → str_eq s g ≡ true → contains xs s ≡ contains xs g
contains-str_eq xs s g e = ap (contains xs) ((str_eq_iff s g).0 e)

keep_old-contains :
    (del old merged : List Str) (g : Str)
    → contains (keep_old all_works del old merged) g
      ≡ (contains merged g || (contains old g && not (contains del g)))
unfolding keep_old contains
keep_old-contains del [] merged g = ground arith
keep_old-contains del (s ∷ old) merged g = ground (
  arith,
  keep_old-contains del old merged g,
  keep_old-contains del old (merged ++ s ∷ []) g,
  contains-snoc merged s g,
  found_iff del s,
  contains-str_eq del s g,
)

add_new-contains :
    (del add merged : List Str) (g : Str)
    → contains (add_new all_works del add merged) g
      ≡ (contains merged g || (contains add g && not (contains del g)))
unfolding add_new contains
add_new-contains del [] merged g = ground arith
add_new-contains del (s ∷ add) merged g = ground (
  arith,
  add_new-contains del add merged g,
  add_new-contains del add (merged ++ s ∷ []) g,
  contains-snoc merged s g,
  found_iff del s,
  found_iff merged s,
  contains-str_eq del s g,
  contains-str_eq merged s g,
)

-- When something is to change and every allocation works, the merged list holds the strings of the
-- old list, unless all of them are to go, and the added ones, but none that is to go.
pub merge_str_list-contains :
    (old add del : List Str) (delall : Bool) (g : Str)
    → (not delall && is_empty_list add && is_empty_list del) ≡ false
    → contains (merge_str_list all_works old add del delall []) g
      ≡ (((not delall && contains old g) || contains add g) && not (contains del g))
unfolding merge_str_list contains
merge_str_list-contains old add del delall g h = ground (
  arith,
  keep_old-contains del old [] g,
  add_new-contains del add [] g,
  add_new-contains del add (keep_old all_works del old []) g,
)
