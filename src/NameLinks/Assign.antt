-- ===== src/NameLinks/Assign.antt =====
-- The name that `vzctl2_set_name` gives, and what is left of names when it fails.
use libvzctl.Common.{
  ◌≡◌, ◌≢◌, inl, inr, refl, sym, ◌∙◌, ap, ℕ, Bool, true, false, Option, none, some, [], ◌∷◌, Str,
  ◌==◌, str_eq, str_eq_iff, str_eq_refl, str_eq_no, no_str_eq, subst, arith, Bool-cases,
  if◌then◌else◌, Option-cases, ◌&&◌, zero, suc, ◌+◌,
}
use libvzctl.NameLinks.Lookup.{IsOwn, IsParser, get_envid_by_name-same}
use libvzctl.NameLinks.{
  ConfNames, NameState, NameCalls, NameHandle, has_conf, parse_ctid, id_of_conf, id_of_link,
  get_envid_by_name, parse_veid, without_link, with_link, write_conf, drop_old, name_save, name_del,
  name_link, validate_env_name, is_same_name, vz_set_name, gen_from,
}

and_false : (b : Bool) → (b && false) ≡ false
and_false true = refl
and_false false = refl

links-drop_old :
    (o : NameCalls) (h : NameHandle) (s : NameState) (m buf : Str)
    → (drop_old o h s m buf).links m ≡ s.links m
unfolding drop_old without_link
links-drop_old o h s m buf = elim (Option-cases h.old_name) [
  | inl a ↦ rw a refl
  | inr (old, a) ↦ elim (Bool-cases (str_eq old m)) [
    | inl y ↦ rw (a, y) refl
    | inr f ↦ ground (arith, a, f, no_str_eq m old (λ q. str_eq_no old m f (sym q)))
  ]
]

confs-drop_old :
    (o : NameCalls) (h : NameHandle) (s : NameState) (m buf : Str)
    → (drop_old o h s m buf).confs ≡ s.confs
unfolding drop_old without_link
confs-drop_old o h s m buf = elim (Option-cases h.old_name) [
  | inl a ↦ rw a refl
  | inr (old, a) ↦ ground (arith, a)
]

id_of_link-written :
    (o : NameCalls) (h : NameHandle) (s : NameState) (x : ℕ) (m : Str) (g : Bool) (t : Str)
    (c : ConfNames)
    → s.confs h.eid ≡ some c
    → s.links (x ∷ m) ≡ some h.eid
    → o.bad_name (x ∷ m) ≡ false
    → o.bad_open (x ∷ m) ≡ false
    → id_of_link o (write_conf h (x ∷ m) s) (x ∷ m) g t ≡ parse_veid o c.veid t
unfolding id_of_link write_conf id_of_conf str_eq
id_of_link-written o h s x m g t c there l bn bo =
    ground (arith, there, l, bn, bo, str_eq_refl h.eid, str_eq_refl (x ∷ m))

-- The configuration is written in a state in which the link of the name is there, and in which the
-- configurations are as they were.
abbrev IsWritten : NameHandle → Str → (before after : NameState) → Type 0
IsWritten h n s s' =
    (t : NameState) × (s' ≡ write_conf h n t) × (t.links n ≡ some h.eid) × (t.confs ≡ s.confs)

name_link-IsWritten :
    (o : NameCalls) (h : NameHandle) (s : NameState) (n buf : Str)
    → (name_link o h s n buf).ret ≡ 0
    → IsWritten h n s (name_link o h s n buf).state
unfolding name_link name_del name_save with_link
name_link-IsWritten o h s n buf z = elim (Bool-cases o.linked) [
  | inr f ↦ absurd (ground (arith, f, z))
  | inl y ↦ elim (Bool-cases (o.saved == 0)) [
    | inr f ↦ absurd (ground (arith, y, f, z))
    | inl w ↦
        let t = drop_old o h (with_link n h.eid (without_link n s)) n buf in
        let there : (with_link n h.eid (without_link n s)).links n ≡ some h.eid =
          rw (str_eq_refl n) refl in
        rw (y, w)
          (
            t,
            refl,
            links-drop_old o h (with_link n h.eid (without_link n s)) n buf ∙ there,
            confs-drop_old o h (with_link n h.eid (without_link n s)) n buf,
          )
  ]
]

vz_set_name-IsWritten :
    (o : NameCalls) (h : NameHandle) (s : NameState) (x : ℕ) (m : Str)
    → h.old_name ≢ some (x ∷ m)
    → (vz_set_name o h s (some (x ∷ m))).ret ≡ 0
    → IsWritten h (x ∷ m) s (vz_set_name o h s (some (x ∷ m))).state
unfolding vz_set_name is_same_name
vz_set_name-IsWritten o h s x m new z =
    let v = validate_env_name o s h.eid (some (x ∷ m)) o.unset in
    elim (Bool-cases (v.0 == 0)) [
      | inr f ↦ absurd (ground (arith, f, z))
      | inl y ↦ elim (Bool-cases (is_same_name h (x ∷ m) v.1)) [
        | inl i ↦ elim (Option-cases h.old_name) [
          | inl a ↦ absurd (ground (arith, a, i))
          | inr (old, a) ↦
              let q : str_eq old (x ∷ m) ≡ true = ground (arith, a, i) in
              absurd (new (a ∙ ap some ((str_eq_iff old (x ∷ m)).0 q)))
        ]
        | inr j ↦ rw (y, j) (name_link-IsWritten o h s (x ∷ m) v.1 (ground (arith, y, j, z)))
      ]
    ]

get_envid_by_name-written :
    (o : NameCalls) (h : NameHandle) (s : NameState) (x : ℕ) (m b : Str)
    → IsOwn o h s
    → ((id : Str) → o.bad_conf id ≡ false)
    → o.bad_name (x ∷ m) ≡ false
    → o.bad_open (x ∷ m) ≡ false
    → s.links (x ∷ m) ≡ some h.eid
    → get_envid_by_name o (write_conf h (x ∷ m) s) (x ∷ m) b ≡ (true, h.eid)
unfolding get_envid_by_name
get_envid_by_name-written o h s x m b (c, there, own) bc bn bo l =
    let p = parse_ctid o (x ∷ m) b in
    let g = p.0 && has_conf (write_conf h (x ∷ m) s) p.1 in
    rw (bc p.1, and_false p.0) (id_of_link-written o h s x m g p.1 c there l bn bo ∙ own p.1)

-- When `vzctl2_set_name` returns 0 for a name that is not the one the handle has, the name leads to
-- the container of the handle. The configuration of the handle is there with its own VEID, and the
-- files can be read.
pub vz_set_name-found :
    (o : NameCalls) (h : NameHandle) (s : NameState) (x : ℕ) (m b : Str)
    → IsOwn o h s
    → ((id : Str) → o.bad_conf id ≡ false)
    → o.bad_name (x ∷ m) ≡ false
    → o.bad_open (x ∷ m) ≡ false
    → h.old_name ≢ some (x ∷ m)
    → (vz_set_name o h s (some (x ∷ m))).ret ≡ 0
    → get_envid_by_name o (vz_set_name o h s (some (x ∷ m))).state (x ∷ m) b ≡ (true, h.eid)
vz_set_name-found o h s x m b own bc bn bo new z =
    let (t, e, l, k) = vz_set_name-IsWritten o h s x m new z in
    let (c, there, veid) = own in
    ap (λ q. get_envid_by_name o q (x ∷ m) b) e
    ∙ get_envid_by_name-written o h t x m b (c, ap (λ f. f h.eid) k ∙ there, veid) bc bn bo l

get_envid_by_name-same_link :
    (o : NameCalls) (s : NameState) (ls : Str → Option Str) (n b : Str)
    → ls n ≡ s.links n
    → get_envid_by_name o (record s { links = ls }) n b ≡ get_envid_by_name o s n b
unfolding get_envid_by_name id_of_link parse_ctid
get_envid_by_name-same_link o s ls [] b l = refl
get_envid_by_name-same_link o s ls (x ∷ n) b l = rw l refl

name_link_unsaved :
    (o : NameCalls) (h : NameHandle) (s : NameState) (n old buf : Str)
    → h.old_name ≡ some old
    → old ≢ n
    → get_envid_by_name o s old buf ≡ (true, h.eid)
    → o.linked ≡ true
    → o.saved ≢ 0
    → ((name_link o h s n buf).ret ≡ o.saved)
      × ((name_link o h s n buf).state.links n ≡ none)
      × ((name_link o h s n buf).state.links old ≡ none)
      × ((name_link o h s n buf).state.confs ≡ (if o.replaced then write_conf h n s else s).confs)
unfolding name_link name_del name_save drop_old without_link with_link write_conf
name_link_unsaved o h s n old buf a d e l f =
    let s1 = with_link n h.eid (without_link n s) in
    let apart : str_eq old n ≡ false = no_str_eq old n d in
    let g : get_envid_by_name o s1 old buf ≡ (true, h.eid) =
      get_envid_by_name-same_link o s s1.links old buf (rw apart refl) ∙ e in
    let dropped : drop_old o h s1 n buf ≡ without_link old s1 =
      rw (a, apart, g, str_eq_refl h.eid) refl in
    let fails : (o.saved == 0) ≡ false = ground (arith, f) in
    elim (Bool-cases o.replaced) [
      | inl w ↦
          rw (l, fails, dropped, w)
            (refl, rw (str_eq_refl n) refl, rw (apart, str_eq_refl old) refl, refl)
      | inr w ↦
          rw (l, fails, dropped, w)
            (refl, rw (str_eq_refl n) refl, rw (apart, str_eq_refl old) refl, refl)
    ]

is_same_name-apart :
    (h : NameHandle) (n old ctid : Str)
    → h.old_name ≡ some old
    → old ≢ n
    → is_same_name h n ctid ≡ false
unfolding is_same_name
is_same_name-apart h n old ctid a d = rw (a, no_str_eq old n d) refl

vz_set_name-name_link :
    (o : NameCalls) (h : NameHandle) (s : NameState) (x : ℕ) (m : Str)
    → (validate_env_name o s h.eid (some (x ∷ m)) o.unset).0 ≡ 0
    → is_same_name h (x ∷ m) (validate_env_name o s h.eid (some (x ∷ m)) o.unset).1 ≡ false
    → vz_set_name o h s (some (x ∷ m))
      ≡ name_link o h s (x ∷ m) (validate_env_name o s h.eid (some (x ∷ m)) o.unset).1
unfolding vz_set_name
vz_set_name-name_link o h s x m v i = rw (v, i) refl

-- When a new name is valid and its link is made, but saving the configuration returns an error,
-- that error is returned and no link is left to the container: neither that of the new name nor
-- that of the old name, which led to the container before. The configuration is as it was, unless
-- its file had been replaced before the error. What the parser of ids stores does not depend on
-- what its buffer held.
pub vz_set_name_unsaved :
    (o : NameCalls) (h : NameHandle) (s : NameState) (x : ℕ) (m old : Str)
    → IsParser o
    → h.old_name ≡ some old
    → old ≢ x ∷ m
    → get_envid_by_name o s old [] ≡ (true, h.eid)
    → (validate_env_name o s h.eid (some (x ∷ m)) o.unset).0 ≡ 0
    → o.linked ≡ true
    → o.saved ≢ 0
    → ((vz_set_name o h s (some (x ∷ m))).ret ≡ o.saved)
      × ((vz_set_name o h s (some (x ∷ m))).state.links (x ∷ m) ≡ none)
      × ((vz_set_name o h s (some (x ∷ m))).state.links old ≡ none)
      × ((vz_set_name o h s (some (x ∷ m))).state.confs
          ≡ (if o.replaced then write_conf h (x ∷ m) s else s).confs)
vz_set_name_unsaved o h s x m old p a d e v l f =
    let ctid = (validate_env_name o s h.eid (some (x ∷ m)) o.unset).1 in
    let g = get_envid_by_name-same o p s old [] ctid h.eid e in
    subst
      (λ q.
        (q.ret ≡ o.saved)
        × (q.state.links (x ∷ m) ≡ none)
        × (q.state.links old ≡ none)
        × (q.state.confs ≡ (if o.replaced then write_conf h (x ∷ m) s else s).confs))
      (sym (vz_set_name-name_link o h s x m v (is_same_name-apart h (x ∷ m) old ctid a d)))
      (name_link_unsaved o h s (x ∷ m) old ctid a d g l f)

gen_from-absent :
    (present : Str → Bool) (numbered : ℕ → Str) (left i : ℕ)
    → gen_from present numbered left i ≢ []
    → present (gen_from present numbered left i) ≡ false
unfolding gen_from
gen_from-absent present numbered zero i ne = absurd (ne refl)
gen_from-absent present numbered (suc left) i ne =
    ground (arith, ne, gen_from-absent present numbered left (i + 1))
