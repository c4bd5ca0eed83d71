-- ===== src/Ub/Laws.antt =====
-- The limits as a map from parameter ids to pairs: adding, looking up, merging.
use libvzctl.Ub.Fields.{param_id_inj, param_id-find_field, find_res, find_all}
use libvzctl.Common.{
  ◌∙◌, ℕ, ◌≡◌, ◌≢◌, ◌⊎◌, inl, inr, refl, Bool, true, false, not, ◌&&◌, ◌||◌, Option, none, some,
  List, [], ◌∷◌, arith, ◌==◌, if◌then◌else◌, Bool-cases, Option-cases,
}
use libvzctl.Common.Errors.{e_nomem}
use libvzctl.Ub.{
  Res, UbField, num_memory_subgroups, param_id, UbParam, set_field, is_null, store_res, find_field,
  all_fields, get_ub_res, add_ub_param, merge_field, merge_fields, or_else, merge_ub,
}

store_res-cases :
    (mem : Bool) (ub : UbParam) (f : UbField) (res : Res)
    → (store_res mem ub f res ≡ (0, set_field ub f res))
      ⊎ (store_res mem ub f res ≡ (e_nomem, ub)) × (mem ≡ false)
unfolding store_res
store_res-cases mem ub f res = elim (Bool-cases (is_null (ub.field f) && not mem)) [
  | inl y ↦ inr (rw (y, store_res) refl, ground arith)
  | inr n ↦ inl (rw (n, store_res) refl)
]

pub get_ub_res-at :
    (ub : UbParam) (f : UbField)
    → f ≢ num_memory_subgroups
    → get_ub_res ub (param_id f) ≡ ub.field f
unfolding get_ub_res
get_ub_res-at ub f known = rw (find_res f known, get_ub_res) refl

stored-at :
    (ub : UbParam) (id : ℕ) (res : Res) (f g : UbField)
    → f ≢ num_memory_subgroups
    → param_id g ≡ id
    → get_ub_res (set_field ub g res) (param_id f)
      ≡ (if id == param_id f then some res else get_ub_res ub (param_id f))
unfolding set_field
stored-at ub id res f g known e =
    get_ub_res-at (set_field ub g res) f known ∙ rw (get_ub_res-at ub f known) (rw e refl)

-- A successful `vzctl_add_ub_param` sets what `vzctl_get_ub_res` returns for its id and for no other,
-- where the id is not that of `num_memory_subgroups`, which `vzctl_get_ub_res` does not know. A
-- failed one changes nothing.
pub get_ub_res-add :
    (mem : Bool) (ub : UbParam) (id : ℕ) (res : Res) (f : UbField)
    → f ≢ num_memory_subgroups
    → ((add_ub_param mem ub id res).0 ≡ 0)
        × (get_ub_res (add_ub_param mem ub id res).1 (param_id f)
            ≡ (if id == param_id f then some res else get_ub_res ub (param_id f)))
      ⊎ ((add_ub_param mem ub id res).0 ≢ 0) × ((add_ub_param mem ub id res).1 ≡ ub)
unfolding add_ub_param
get_ub_res-add mem ub id res f known = elim (Option-cases (find_field all_fields id)) [
  | inl n ↦ inr (rw (n, add_ub_param) (omega arith), rw (n, add_ub_param) refl)
  | inr (g, e) ↦ elim (store_res-cases mem ub g res) [
    | inl s ↦ inl (
      rw (e, s, add_ub_param) refl,
      rw (e, s, add_ub_param)
          (stored-at ub id res f g known (param_id-find_field all_fields id g e)),
    )
    | inr (s, _) ↦ inr (rw (e, s, add_ub_param) (omega arith), rw (e, s, add_ub_param) refl)
  ]
]

-- What one round of the merge stores.
merged : UbParam → UbField → Option Res → UbParam
merged dst f none = dst
merged dst f (some res) = set_field dst f res

merge_field-cases :
    (mem : Bool) (dst : UbParam) (f : UbField) (r : Option Res)
    → (merge_field mem dst f r ≡ (0, merged dst f r))
      ⊎ (merge_field mem dst f r ≡ (e_nomem, dst)) × (mem ≡ false)
unfolding merge_field merged
merge_field-cases mem dst f none = inl refl
merge_field-cases mem dst f (some res) = store_res-cases mem dst f res

merged-field :
    (dst : UbParam) (f g : UbField) (src : UbField → Option Res)
    → ((merged dst f (src f)).field g
        ≡ (if param_id f == param_id g then or_else (src g) (dst.field g) else dst.field g))
unfolding merged set_field
merged-field dst f g src = elim (Bool-cases (param_id f == param_id g)) [
  | inl y ↦
      let e : f ≡ g = param_id_inj f g (ground arith) in
      rw (← e) (elim (Option-cases (src f)) [
        | inl n ↦ rw (n, merged) (ground arith)
        | inr (r, h) ↦ rw (h, merged) (ground arith)
      ])
  | inr n ↦ elim (Option-cases (src f)) [
    | inl o ↦ rw (o, n, merged) refl
    | inr (r, h) ↦ rw (h, n, merged) refl
  ]
]

has_field : List UbField → UbField → Bool
has_field [] g = false
has_field (f ∷ fs) g = param_id f == param_id g || has_field fs g

merge_fields-field :
    (mem : UbField → Bool) (fs : List UbField) (dst src : UbParam) (g : UbField)
    → (merge_fields mem dst src fs).0 ≡ 0
    → (merge_fields mem dst src fs).1.field g
      ≡ (if has_field fs g then or_else (src.field g) (dst.field g) else dst.field g)
unfolding merge_fields has_field
merge_fields-field mem [] dst src g z = refl
merge_fields-field mem (f ∷ fs) dst src g z = elim (merge_field-cases (mem f) dst f (src.field f)) [
  | inl s ↦ ground (
    arith,
    s,
    merge_fields-field mem fs (merged dst f (src.field f)) src g,
    merged-field dst f g src.field,
  )
  | inr (s, _) ↦ absurd (ground arith)
]

has_field-find :
    (fs : List UbField) (g : UbField) → find_field fs (param_id g) ≡ some g → has_field fs g ≡ true
unfolding has_field find_field
has_field-find [] g e = cc
has_field-find (f ∷ fs) g e = ground (arith, has_field-find fs g)

merge_fields-done :
    (mem : UbField → Bool) (fs : List UbField) (dst src : UbParam)
    → ((f : UbField) → mem f ≡ true)
    → (merge_fields mem dst src fs).0 ≡ 0
unfolding merge_fields
merge_fields-done mem [] dst src h = refl
merge_fields-done mem (f ∷ fs) dst src h = elim (merge_field-cases (mem f) dst f (src.field f)) [
  | inl s ↦ rw s (merge_fields-done mem fs (merged dst f (src.field f)) src h)
  | inr (_, n) ↦ absurd (ground (arith, h f))
]

-- `merge_ub` returns 0 when its allocations succeed, and then each limit is that of the source,
-- or the old one where the source has none.
pub merge_ub-field :
    (mem : UbField → Bool) (dst src : UbParam) (f : UbField)
    → ((g : UbField) → mem g ≡ true)
    → ((merge_ub mem dst src).0 ≡ 0)
      × ((merge_ub mem dst src).1.field f ≡ or_else (src.field f) (dst.field f))
unfolding merge_ub
merge_ub-field mem dst src f h =
    let done = merge_fields-done mem all_fields dst src h in
    (
      done,
      merge_fields-field mem all_fields dst src f done
          ∙ rw (has_field-find all_fields f (find_all f)) refl,
    )
