-- ===== src/NameLinks/Safe.antt =====
-- What `vzctl2_set_name` does to the names of other containers.
use libvzctl.Common.{
  ◌≡◌, ◌≢◌, inl, inr, refl, sym, ◌∙◌, ap, subst, Bool, true, false, Option, none, some, [], ◌∷◌,
  Str, str_eq, str_eq_iff, str_eq_no, no_str_eq, arith, Bool-cases, Option-cases, ◌&&◌, ◌==◌, not,
  if◌then◌else◌,
}
use libvzctl.NameLinks.{
  ConfNames, NameState, NameCalls, NameHandle, has_conf, parse_ctid, id_of_conf, id_of_link,
  get_envid_by_name, parse_veid, without_link, with_link, write_conf, drop_old, name_save, name_del,
  name_link, validate_given, validate_env_name, is_of_other, is_same_name, vz_set_name,
}
use libvzctl.NameLinks.Lookup.{IsParser, IsOwn, get_envid_by_name-same}

-- The link of a name and the configurations of other containers stay.
abbrev pub Keeps : NameHandle → Str → NameState → NameState → Type 0
Keeps h n s s' = (s'.links n ≡ s.links n) × ((id : Str) → id ≢ h.eid → s'.confs id ≡ s.confs id)

id_of_conf-own :
    (o : NameCalls) (h : NameHandle) (n : Str) (k : ConfNames) (t c : Str)
    → ((b : Str) → parse_veid o k.veid b ≡ (true, h.eid))
    → c ≢ h.eid
    → id_of_conf o n k t ≢ (true, c)
unfolding id_of_conf
id_of_conf-own o h n k t c own ne e = elim (Option-cases k.name) [
  | inl a ↦ ground (arith, a, e)
  | inr (m, a) ↦ ground (arith, a, e, own t, ne)
]

id_of_link-kept :
    (o : NameCalls) (h : NameHandle) (s s' : NameState) (n t c : Str) (g g' : Bool)
    → IsOwn o h s
    → Keeps h n s s'
    → c ≢ h.eid
    → (t ≢ h.eid → g' ≡ g)
    → id_of_link o s n g t ≡ (true, c)
    → id_of_link o s' n g' t ≡ (true, c)
unfolding id_of_link
id_of_link-kept o h s s' [] t c g g' own k ne same e = cc
id_of_link-kept o h s s' (x ∷ n) t c g g' own k ne same e = elim (Bool-cases (o.bad_name (x ∷ n))) [
  | inl y ↦ ground (arith, y, e)
  | inr f ↦ elim (Option-cases (s.links (x ∷ n))) [
    | inl a ↦
        let ee : ◌≡◌ {A = Bool × Str} (g, t) (true, c) = ground (arith, a, f, e) in
        let te : t ≡ c = ap (λ q. q.1) ee in
        let ge : g' ≡ g = same (λ q. ne (sym te ∙ q)) in ground (arith, k.0, a, f, ee, ge)
    | inr (d, a) ↦ elim (Bool-cases (str_eq d h.eid)) [
      | inl y ↦
          let at : s.confs d ≡ some own.0 = ap s.confs ((str_eq_iff d h.eid).0 y) ∙ own.1 in
          absurd (id_of_conf-own o h (x ∷ n) own.0 t c own.2 ne (ground (arith, a, at, f, e)))
      | inr ff ↦
          let at : s'.confs d ≡ s.confs d = k.1 d (str_eq_no d h.eid ff) in
          ground (arith, k.0, a, at, f, e)
    ]
  ]
]

-- A name of another container leads to it in a state that keeps its link.
pub get_envid_by_name-kept :
    (o : NameCalls) (h : NameHandle) (s s' : NameState) (n b c : Str)
    → IsOwn o h s
    → Keeps h n s s'
    → c ≢ h.eid
    → get_envid_by_name o s n b ≡ (true, c)
    → get_envid_by_name o s' n b ≡ (true, c)
unfolding get_envid_by_name
get_envid_by_name-kept o h s s' n b c own k ne e =
    elim (Bool-cases ((parse_ctid o n b).0 && o.bad_conf (parse_ctid o n b).1)) [
      | inl y ↦ ground (arith, y, e)
      | inr f ↦
          let p = parse_ctid o n b in
          let e' : id_of_link o s n (p.0 && has_conf s p.1) p.1 ≡ (true, c) =
            ground (arith, f, e) in
          let r =
            id_of_link-kept o h s s' n p.1 c (p.0 && has_conf s p.1) (p.0 && has_conf s' p.1) own k
              ne (λ q. ground (arith, k.1 p.1 q)) e' in
          ground (arith, f, r)
    ]

Keeps-without_link :
    (h : NameHandle) (m n : Str) (s : NameState) → m ≢ n → Keeps h n s (without_link m s)
unfolding without_link
Keeps-without_link h m n s ne = (ground (arith, no_str_eq n m (λ q. ne (sym q))), λ id q. refl)

Keeps-with_link :
    (h : NameHandle) (m n : Str) (s : NameState) → m ≢ n → Keeps h n s (with_link m h.eid s)
unfolding with_link
Keeps-with_link h m n s ne = (ground (arith, no_str_eq n m (λ q. ne (sym q))), λ id q. refl)

Keeps-write_conf : (h : NameHandle) (m n : Str) (s : NameState) → Keeps h n s (write_conf h m s)
unfolding write_conf
Keeps-write_conf h m n s = (refl, λ id q. ground (arith, no_str_eq id h.eid q))

Keeps-trans :
    (h : NameHandle) (n : Str) (s t u : NameState) → Keeps h n s t → Keeps h n t u → Keeps h n s u
Keeps-trans h n s t u k l = (l.0 ∙ k.0, λ id q. l.1 id q ∙ k.1 id q)

and_false : (b : Bool) → (b && false) ≡ false
and_false true = refl
and_false false = refl

Keeps-if :
    (h : NameHandle) (n : Str) (s t : NameState) (b : Bool)
    → Keeps h n s t
    → Keeps h n s (if b then t else s)
Keeps-if h n s t true k = k
Keeps-if h n s t false k = (refl, λ id q. refl)

Keeps-drop_old :
    (o : NameCalls) (h : NameHandle) (s : NameState) (m n buf c : Str)
    → IsParser o
    → c ≢ h.eid
    → get_envid_by_name o s n buf ≡ (true, c)
    → Keeps h n s (drop_old o h s m buf)
unfolding drop_old
Keeps-drop_old o h s m n buf c p ne e = elim (Option-cases h.old_name) [
  | inl a ↦ rw a (refl, λ id q. refl)
  | inr (old, a) ↦ elim (Bool-cases (str_eq old n)) [
    | inl y ↦
        let g : get_envid_by_name o s old buf ≡ (true, c) =
          ap (λ q. get_envid_by_name o s q buf) ((str_eq_iff old n).0 y) ∙ e in
        rw (a, g, no_str_eq c h.eid ne, and_false (not (str_eq old m))) (refl, λ id q. refl)
    | inr f ↦ rw a (
        Keeps-if h n s (without_link old s)
          (not (str_eq old m)
            && ((get_envid_by_name o s old buf).0
                && str_eq (get_envid_by_name o s old buf).1 h.eid))
          (Keeps-without_link h old n s (str_eq_no old n f)))
  ]
]

Keeps-name_save :
    (o : NameCalls) (h : NameHandle) (s : NameState) (m n : Str)
    → m ≢ n
    → Keeps h n s (name_save o h s m).state
unfolding name_save
Keeps-name_save o h s m n ne = elim (Bool-cases (o.saved == 0)) [
  | inl y ↦ rw y (Keeps-write_conf h m n s)
  | inr f ↦ elim (Bool-cases o.replaced) [
    | inl w ↦
        rw (f, w)
          (Keeps-trans h n s (write_conf h m s) (without_link m (write_conf h m s))
            (Keeps-write_conf h m n s) (Keeps-without_link h m n (write_conf h m s) ne))
    | inr w ↦ rw (f, w) (Keeps-without_link h m n s ne)
  ]
]

IsOwn-links :
    (o : NameCalls) (h : NameHandle) (m : Str) (s : NameState)
    → IsOwn o h s
    → IsOwn o h (with_link m h.eid (without_link m s))
unfolding with_link without_link
IsOwn-links o h m s own = own

Keeps-name_link :
    (o : NameCalls) (h : NameHandle) (s : NameState) (m n buf c : Str)
    → IsParser o
    → IsOwn o h s
    → c ≢ h.eid
    → m ≢ n
    → get_envid_by_name o s n buf ≡ (true, c)
    → Keeps h n s (name_link o h s m buf).state
unfolding name_link name_del
Keeps-name_link o h s m n buf c p own ne d e =
    let s1 = with_link m h.eid (without_link m s) in
    let k1 : Keeps h n s s1 =
      Keeps-trans h n s (without_link m s) s1 (Keeps-without_link h m n s d)
        (Keeps-with_link h m n (without_link m s) d) in
    elim (Bool-cases o.linked) [
      | inl y ↦
          let s2 = drop_old o h s1 m buf in
          let k2 =
            Keeps-drop_old o h s1 m n buf c p ne
              (get_envid_by_name-kept o h s s1 n buf c own k1 ne e) in
          rw y (
            Keeps-trans h n s s1 (name_save o h s2 m).state k1
              (Keeps-trans h n s1 s2 (name_save o h s2 m).state k2 (Keeps-name_save o h s2 m n d)))
      | inr f ↦ rw f (Keeps-without_link h m n s d)
    ]

-- A name of another container is refused.
pub validate_env_name-refuses :
    (o : NameCalls) (s : NameState) (eid n buf c : Str)
    → IsParser o
    → c ≢ eid
    → c ≢ []
    → get_envid_by_name o s n buf ≡ (true, c)
    → (validate_env_name o s eid (some n) buf).0 ≢ 0
unfolding validate_env_name validate_given is_of_other
validate_env_name-refuses o s eid n buf c p ne full e z = elim (Bool-cases (str_eq eid n)) [
  | inl y ↦
      let g : get_envid_by_name o s eid buf ≡ (true, c) =
        ap (λ q. get_envid_by_name o s q buf) ((str_eq_iff eid n).0 y) ∙ e in
      ground (arith, g, no_str_eq c eid ne, no_str_eq c [] full, z)
  | inr f ↦
      let g = get_envid_by_name-same o p s n buf (get_envid_by_name o s eid buf).1 c e in
      ground (arith, f, g, no_str_eq c eid ne, no_str_eq c [] full, z)
]

not_found : (o : NameCalls) (s : NameState) (b c : Str) → get_envid_by_name o s [] b ≢ (true, c)
unfolding get_envid_by_name id_of_link parse_ctid
not_found o s b c e = cc

Keeps-vz_set_name :
    (o : NameCalls) (h : NameHandle) (s : NameState) (name : Option Str) (n b c : Str)
    → IsParser o
    → IsOwn o h s
    → c ≢ h.eid
    → c ≢ []
    → get_envid_by_name o s n b ≡ (true, c)
    → Keeps h n s (vz_set_name o h s name).state
unfolding vz_set_name is_same_name name_del
Keeps-vz_set_name o h s none n b c p own ne full e = (refl, λ id q. refl)
Keeps-vz_set_name o h s (some []) n b c p own ne full e =
    let s1 = drop_old o h s [] o.unset in
    Keeps-trans h n s s1 (name_save o h s1 []).state
      (Keeps-drop_old o h s [] n o.unset c p ne (get_envid_by_name-same o p s n b o.unset c e))
      (Keeps-name_save o h s1 [] n
        (λ q. not_found o s b c (subst (λ m. get_envid_by_name o s m b ≡ (true, c)) (sym q) e)))
Keeps-vz_set_name o h s (some (x ∷ m)) n b c p own ne full e =
    let v = validate_env_name o s h.eid (some (x ∷ m)) o.unset in
    elim (Bool-cases (v.0 == 0)) [
      | inr f ↦ rw f (refl, λ id q. refl)
      | inl y ↦ elim (Bool-cases (is_same_name h (x ∷ m) v.1)) [
        | inl i ↦ rw (y, i) (refl, λ id q. refl)
        | inr j ↦
            let apart : (x ∷ m) ≢ n = λ q.
              validate_env_name-refuses o s h.eid (x ∷ m) o.unset c p ne full
                (subst (λ t. get_envid_by_name o s t o.unset ≡ (true, c)) (sym q)
                  (get_envid_by_name-same o p s n b o.unset c e))
                (ground (arith, y)) in
            rw (y, j)
              (Keeps-name_link o h s (x ∷ m) n v.1 c p own ne apart
                (get_envid_by_name-same o p s n b v.1 c e))
      ]
    ]

-- Whatever name is set, and however `vzctl2_set_name` ends, the name of every other container still
-- leads to that container. The other container's id is not empty, the configuration of the handle is
-- there with its own VEID, and what the parser of ids stores does not depend on what its buffer held.
pub vz_set_name-others :
    (o : NameCalls) (h : NameHandle) (s : NameState) (name : Option Str) (n b c : Str)
    → IsParser o
    → IsOwn o h s
    → c ≢ h.eid
    → c ≢ []
    → get_envid_by_name o s n b ≡ (true, c)
    → get_envid_by_name o (vz_set_name o h s name).state n b ≡ (true, c)
vz_set_name-others o h s name n b c p own ne full e =
    get_envid_by_name-kept o h s (vz_set_name o h s name).state n b c own
      (Keeps-vz_set_name o h s name n b c p own ne full e) ne e
