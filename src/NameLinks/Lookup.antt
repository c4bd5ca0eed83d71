-- ===== src/NameLinks/Lookup.antt =====
-- `vzctl2_get_envid_by_name`: what its result depends on.
use libvzctl.Common.{
  ◌≡◌, ◌≢◌, inl, inr, sym, ◌∙◌, ap, true, false, Option, none, some, [], ◌∷◌, Str, arith,
  Bool-cases, Option-cases,
}
use libvzctl.NameLinks.{
  ConfNames, NameState, NameCalls, NameHandle, conf_of_link, parse_ctid, id_of_conf, id_of_link,
  get_envid_by_name, parse_veid,
}

-- What `get_cid_uuid_pair` stores when it succeeds does not depend on what its buffer holds.
abbrev pub IsParser : NameCalls → Type 0
IsParser o = (v b b' : Str) → (o.pair v b).0 ≡ true → o.pair v b' ≡ o.pair v b

-- The configuration of the handle is there, and its VEID is the id of the handle.
abbrev pub IsOwn : NameCalls → NameHandle → NameState → Type 0
IsOwn o h s =
    (c : ConfNames) × (s.confs h.eid ≡ some c) × ((b : Str) → parse_veid o c.veid b ≡ (true, h.eid))

parse_ctid-same :
    (o : NameCalls)
    → IsParser o
    → (v b b' : Str) → (parse_ctid o v b).0 ≡ true
    → parse_ctid o v b' ≡ parse_ctid o v b
unfolding parse_ctid
parse_ctid-same o p [] b b' e = cc
parse_ctid-same o p (x ∷ v) b b' e = p (x ∷ v) b b' e

parse_veid-same :
    (o : NameCalls)
    → IsParser o
    → (v : Option Str) (b b' c : Str) → parse_veid o v b ≡ (true, c)
    → parse_veid o v b' ≡ (true, c)
unfolding parse_veid
parse_veid-same o p none b b' c e = cc
parse_veid-same o p (some v) b b' c e = parse_ctid-same o p v b b' (ap (λ x. x.0) e) ∙ e

id_of_conf-same :
    (o : NameCalls)
    → IsParser o
    → (n : Str) (k : ConfNames) (b b' c : Str) → id_of_conf o n k b ≡ (true, c)
    → id_of_conf o n k b' ≡ (true, c)
unfolding id_of_conf
id_of_conf-same o p n k b b' c e = elim (Option-cases k.name) [
  | inl a ↦ ground (arith, a, e)
  | inr (m, a) ↦ ground (arith, a, e, parse_veid-same o p k.veid b b' c)
]

id_of_link-same :
    (o : NameCalls)
    → IsParser o
    → (s : NameState) (n b b' c : Str) → id_of_link o s n false b ≡ (true, c)
    → id_of_link o s n false b' ≡ (true, c)
unfolding id_of_link
id_of_link-same o p s [] b b' c e = cc
id_of_link-same o p s (x ∷ n) b b' c e = elim (Option-cases (conf_of_link s (x ∷ n))) [
  | inl a ↦ ground (arith, a, e)
  | inr (k, a) ↦ ground (arith, a, e, id_of_conf-same o p (x ∷ n) k b b' c)
]

-- A container that is found by its name is found whatever the buffer holds.
pub get_envid_by_name-same :
    (o : NameCalls)
    → IsParser o
    → (s : NameState) (n b b' c : Str) → get_envid_by_name o s n b ≡ (true, c)
    → get_envid_by_name o s n b' ≡ (true, c)
unfolding get_envid_by_name
get_envid_by_name-same o p s n b b' c e = elim (Bool-cases (parse_ctid o n b).0) [
  | inl y ↦ rw (parse_ctid-same o p n b b' y) e
  | inr f ↦ elim (Bool-cases (parse_ctid o n b').0) [
    | inl y' ↦
        absurd (true_false (sym y' ∙ ap (λ x. x.0) (sym (parse_ctid-same o p n b' b y')) ∙ f))
    | inr f' ↦
        ground
          (arith, f, f', e, id_of_link-same o p s n (parse_ctid o n b).1 (parse_ctid o n b').1 c)
  ]
]
  where
    true_false : true ≢ false
    true_false h = cc
