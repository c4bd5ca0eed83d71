-- ===== src/Create/Private.antt =====
-- `create_env_private` of lib/create.c: the private area is made beside its place and then renamed.
use libvzctl.Common.{ℕ, Bool, not, List, [], ◌∷◌, ◌==◌, if◌then◌else◌}
use libvzctl.Common.Errors.{e_new_private}
use libvzctl.Snapshot.Flow.{Stat, is_there}

pub data PrivateEvent : Type 0 where
  make_parent : ℕ → PrivateEvent
  lock_area : Bool → PrivateEvent
  unlock_area : PrivateEvent
  destroy_tmp : PrivateEvent
  create_tmp fill_tmp update_param encrypt_tmp : ℕ → PrivateEvent
  rename_tmp : Bool → PrivateEvent

pub record PrivateOutcome : Type 0 where
  pub ret : ℕ
  pub trace : List PrivateEvent

abbrev private_returns : ℕ → PrivateOutcome
private_returns n = record { ret = n; trace = [] }

infixr 6 ◌then_in◌
abbrev ◌then_in◌ : PrivateEvent → PrivateOutcome → PrivateOutcome
e then_in o = record o { trace = e ∷ o.trace }

pub record PrivateCalls : Type 0 where
  pub parent : ℕ
  pub locked : Bool
  pub tmp : Stat
  pub created : ℕ
  pub filled : ℕ
  pub updated : ℕ
  pub is_encrypted : Bool
  pub encrypted : ℕ
  pub renamed : Bool

-- The label err.
pub private_err : ℕ → PrivateOutcome
private_err ret =
    if ret == 0
    then unlock_area then_in private_returns 0
    else destroy_tmp then_in unlock_area then_in private_returns ret

private_rename : PrivateCalls → PrivateOutcome
unfolding private_err
private_rename o = rename_tmp o.renamed then_in private_err (if o.renamed then 0 else e_new_private)

-- From `update_param` on.
private_update : PrivateCalls → PrivateOutcome
unfolding private_rename private_err
private_update o =
    update_param o.updated
    then_in (if not (o.updated == 0)
        then private_err o.updated
        else if o.is_encrypted
        then encrypt_tmp o.encrypted
          then_in (if o.encrypted == 0 then private_rename o else private_err o.encrypted)
        else private_rename o)

-- From `vzctl2_create_env_private` on.
private_fill : PrivateCalls → PrivateOutcome
unfolding private_update private_err
private_fill o =
    create_tmp o.created
    then_in (if not (o.created == 0)
        then private_err o.created
        else fill_tmp o.filled
          then_in (if o.filled == 0 then private_update o else private_err o.filled))

unfoldable pub create_env_private : PrivateCalls → PrivateOutcome
unfolding private_fill is_there
create_env_private o =
    make_parent o.parent
    then_in (if not (o.parent == 0)
        then private_returns o.parent
        else lock_area o.locked
          then_in (if not o.locked
              then private_returns e_new_private
              else if is_there o.tmp
              then destroy_tmp then_in private_fill o
              else private_fill o))
