-- ===== src/Create/Paths.antt =====
-- What creating a container leaves behind.
use libvzctl.Common.{
  ℕ, zero, ◌≡◌, ◌≢◌, refl, ap, Bool, true, false, not, Option, none, some, List, [], ◌∷◌, arith,
  ltb, ◌==◌, after_calls, after-append, Option-cases,
}
use libvzctl.Common.Errors.{e_register}
use libvzctl.Snapshot.Flow.{Stat, is_there}
use libvzctl.Register.{RegEvent}
use libvzctl.Register.Enter.{env_register}
use libvzctl.Register.Paths.{linked_by, linked, env_register_success, env_register_result}
use libvzctl.Create.Private.{
  PrivateCalls, PrivateEvent, lock_area, unlock_area, destroy_tmp, create_tmp, rename_tmp,
  create_env_private,
}
use libvzctl.Create.{
  CreateEvent, in_private, in_register, copy_conf, unlink_conf, destroy, CreateOutcome,
  private_events, register_events, CreateCalls, create_err, create_name, create_apps, reg_force,
  create_register, create_save, create_mount, create_copy, create_private, create_opened,
  create_from, env_create,
}

abbrev pub placed_by : Bool → PrivateEvent → Bool
placed_by b (rename_tmp true) = true
placed_by b e = b

abbrev pub tmp_left_by : Bool → PrivateEvent → Bool
tmp_left_by b (create_tmp r) = true
tmp_left_by b (rename_tmp true) = false
tmp_left_by b destroy_tmp = false
tmp_left_by b e = b

abbrev pub area_locked_by : Bool → PrivateEvent → Bool
area_locked_by b (lock_area true) = true
area_locked_by b unlock_area = false
area_locked_by b e = b

abbrev pub area_by : Bool → CreateEvent → Bool
area_by b (in_private e) = placed_by b e
area_by b (destroy zero) = false
area_by b e = b

abbrev pub conf_by : Bool → CreateEvent → Bool
conf_by b (in_register e) = linked_by b e
conf_by b (copy_conf true) = true
conf_by b (unlink_conf true) = false
conf_by b e = b

-- Whether the private area is in its place.
abbrev pub area : Bool → List CreateEvent → Bool
area = after_calls area_by

-- Whether the configuration of the id is there.
abbrev pub conf : Bool → List CreateEvent → Bool
conf = after_calls conf_by

-- The private area is in its place if and only if 0 is returned; no temporary directory stays, and
-- the area is not locked.
pub create_env_private_leaves :
    (o : PrivateCalls)
    → (after_calls placed_by false (create_env_private o).trace ≡ ((create_env_private o).ret == 0))
      × (after_calls tmp_left_by false (create_env_private o).trace ≡ false)
      × (after_calls area_locked_by false (create_env_private o).trace ≡ false)
unfolding create_env_private
create_env_private_leaves o = ground arith

area-private_events :
    (b : Bool) (t : List PrivateEvent) → area b (private_events t) ≡ after_calls placed_by b t
unfolding private_events
area-private_events b [] = refl
area-private_events b (e ∷ t) = area-private_events (placed_by b e) t

conf-private_events : (b : Bool) (t : List PrivateEvent) → conf b (private_events t) ≡ b
unfolding private_events
conf-private_events b [] = refl
conf-private_events b (e ∷ t) = conf-private_events b t

area-register_events : (b : Bool) (t : List RegEvent) → area b (register_events t) ≡ b
unfolding register_events
area-register_events b [] = refl
area-register_events b (e ∷ t) = area-register_events b t

conf-register_events : (b : Bool) (t : List RegEvent) → conf b (register_events t) ≡ linked b t
unfolding register_events
conf-register_events b [] = refl
conf-register_events b (e ∷ t) = conf-register_events (linked_by b e) t

-- The error path removes the private area if `vzctl2_env_destroy` works.
create_err_leaves :
    (o : CreateCalls) (s : Bool) (ret : ℕ) (a : Bool)
    → ((create_err o s ret).ret ≡ ret)
      × (o.destroyed ≡ 0 → area a (create_err o s ret).trace ≡ false)
unfolding create_err
create_err_leaves o s ret a = ground arith

-- What a part of the function makes of the area and of the configuration.
abbrev Keeps : CreateCalls → (a c : Bool) → (must : Bool) → CreateOutcome → Type 0
Keeps o a c must r =
    (r.ret ≡ 0 → (area a r.trace ≡ a) × (must ≡ true → conf c r.trace ≡ true))
    × (r.ret ≢ 0 → o.destroyed ≡ 0 → area a r.trace ≡ false)

create_apps-Keeps : (o : CreateCalls) (s a c : Bool) → Keeps o a c c (create_apps o s)
unfolding create_apps create_name create_err
create_apps-Keeps o s a c = (λ h. ground arith, λ h d. ground arith)

create_register-Keeps :
    (o : CreateCalls) (s a c : Bool) → Keeps o a c (not (ltb o.layout 4)) (create_register o s)
unfolding create_register
create_register-Keeps o s a c =
    let t = (env_register o.register reg_force).trace in
    let e = (create_err o s e_register).trace in
    let n = (create_apps o s).trace in
    (
      λ h. ground (
        arith,
        create_err_leaves o s e_register a,
        env_register_result o.register reg_force,
        env_register_success o.register reg_force c false false false,
        create_apps-Keeps o s a c,
        create_apps-Keeps o s a (linked c t),
        after-append area_by a (register_events t) n,
        after-append conf_by c (register_events t) n,
        area-register_events a t,
        conf-register_events c t,
      ),
      λ h d. ground (
        arith,
        create_err_leaves o s e_register a,
        create_apps-Keeps o s a c,
        create_apps-Keeps o s a (linked c t),
        after-append area_by a (register_events t) n,
        after-append area_by a (register_events t) e,
        area-register_events a t,
      ),
    )

create_mount-Keeps :
    (o : CreateCalls) (s a c : Bool) → Keeps o a c (not (ltb o.layout 4)) (create_mount o s)
unfolding create_mount create_save create_err
create_mount-Keeps o s a c = (
  λ h. ground (arith, create_register-Keeps o s a c),
  λ h d. ground (arith, create_register-Keeps o s a c),
)

create_copy-Keeps :
    (o : CreateCalls) (s a c : Bool) → Keeps o a c (not (ltb o.layout 4)) (create_copy o s)
unfolding create_copy create_err
create_copy-Keeps o s a c = (
  λ h. ground (arith, create_mount-Keeps o s a c, create_mount-Keeps o s a true),
  λ h d. ground (arith, create_mount-Keeps o s a c, create_mount-Keeps o s a true),
)

create_private_leaves :
    (o : CreateCalls) (s c : Bool)
    → let r = create_private o s in
      (r.ret ≡ 0
        → (area false r.trace ≡ true) × (not (ltb o.layout 4) ≡ true → conf c r.trace ≡ true))
      × (r.ret ≢ 0 → o.destroyed ≡ 0 → area false r.trace ≡ false)
unfolding create_private
create_private_leaves o s c =
    let p = create_env_private o.private in
    let placed = after_calls placed_by false p.trace in
    let e = (create_err o s p.ret).trace in
    let n = (create_copy o s).trace in
    (
      λ h. ground (
        arith,
        create_env_private_leaves o.private,
        create_err_leaves o s p.ret placed,
        create_copy-Keeps o s placed c,
        after-append area_by false (private_events p.trace) n,
        after-append conf_by c (private_events p.trace) n,
        area-private_events false p.trace,
        conf-private_events c p.trace,
      ),
      λ h d. ground (
        arith,
        create_env_private_leaves o.private,
        create_err_leaves o s p.ret placed,
        create_copy-Keeps o s placed c,
        after-append area_by false (private_events p.trace) n,
        after-append area_by false (private_events p.trace) e,
        area-private_events false p.trace,
      ),
    )

create_from_leaves :
    (o : CreateCalls) (c : Bool) (s : Option Stat)
    → let r = create_from o s in
      (r.ret ≡ 0
        → (area false r.trace ≡ true) × (not (ltb o.layout 4) ≡ true → conf c r.trace ≡ true))
      × (r.ret ≢ 0 → o.destroyed ≡ 0 → area false r.trace ≡ false)
unfolding create_from create_opened
create_from_leaves o c none = (
  λ h. ground (
    arith,
    Option-cases o.global,
    create_private_leaves o (is_there o.conf) c,
    create_private_leaves o true c,
  ),
  λ h d. ground (
    arith,
    Option-cases o.global,
    create_private_leaves o (is_there o.conf) c,
    create_private_leaves o true c,
  ),
)
create_from_leaves o c (some s) = (
  λ h. ground (arith, create_private_leaves o true c),
  λ h d. ground (arith, create_private_leaves o true c),
)

env_create_leaves :
    (o : CreateCalls) (c : Bool)
    → let r = env_create o in
      (r.ret ≡ 0
        → (area false r.trace ≡ true) × (not (ltb o.layout 4) ≡ true → conf c r.trace ≡ true))
      × (r.ret ≢ 0 → o.destroyed ≡ 0 → area false r.trace ≡ false)
unfolding env_create
env_create_leaves o c = (
  λ h. ground (arith, create_from_leaves o c o.sample),
  λ h d. ground (arith, create_from_leaves o c o.sample),
)

-- When it returns 0 for a layout from 4 on, the private area is in its place and the configuration of
-- the id is there.
pub env_create_success :
    (o : CreateCalls) (c : Bool)
    → ltb o.layout 4 ≡ false
    → (env_create o).ret ≡ 0
    → (area false (env_create o).trace ≡ true) × (conf c (env_create o).trace ≡ true)
env_create_success o c l h = let r = (env_create_leaves o c).0 h in (r.0, r.1 (ap not l))

-- When creating a container whose private area is not there returns an error, and
-- `vzctl2_env_destroy` works, there is no private area afterwards.
pub env_create_failure :
    (o : CreateCalls)
    → o.destroyed ≡ 0
    → (env_create o).ret ≢ 0
    → area false (env_create o).trace ≡ false
env_create_failure o d h = (env_create_leaves o false).1 h d

-- A configuration of the id that was there before is used, and is removed if the private area cannot
-- be made.
pub create_private_drops_conf :
    (o : CreateCalls) (c : Bool)
    → (create_env_private o.private).ret ≢ 0
    → o.conf_removed ≡ true
    → conf c (create_private o true).trace ≡ false
unfolding create_private create_err
create_private_drops_conf o c h r =
    let p = create_env_private o.private in
    let e = (create_err o true p.ret).trace in
    ground (arith, after-append conf_by c (private_events p.trace) e)
