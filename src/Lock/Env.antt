-- ===== src/Lock/Env.antt =====
-- `vzctl2_env_lock_prvt`, `vzctl2_unlock`, `vzctl2_env_unlock_prvt`, `vzctl2_env_unlock` and the enter
-- lock of lib/lock.c: the two locks of a container, on the file .lck of its private directory and
-- the lock file.
use libvzctl.Common.{
  ℕ, ◌≡◌, ◌≢◌, Bool, true, false, not, ◌&&◌, Option, none, some, ltb, if◌then◌else◌, arith,
}
use libvzctl.Snapshot.Flow.{Stat, is_nonzero}
use libvzctl.Lock.{LockRet, got, failed, busy, is_got}

-- The descriptor that holds the lock on .lck, whether .lck is there, and whether the lock file is.
pub record EnvLocks : Type 0 where
  pub held : Option ℕ
  pub lck : Bool
  pub file : Bool

-- The results of the calls that `vzctl2_env_lock_prvt` makes: of the configuration, `stat_file`,
-- `vzctl2_lock` and `_lock_file`.
pub record EnvLockCalls : Type 0 where
  pub conf : Bool
  pub prvt : Bool
  pub prvt_there : Stat
  pub lock : LockRet
  pub file : LockRet

-- `vzctl2_unlock`; `named` says that `lockfile` is not NULL.
pub unlock_fd : LockRet → (named : Bool) → EnvLocks → EnvLocks
unlock_fd (got fd) named s = record s { held = none; lck = if named then false else s.lck }
unlock_fd failed named s = s
unlock_fd busy named s = s

-- `lckfd > 0 ? lckfd : ret`, for `ret` 0.
positive_or_zero : LockRet → LockRet
positive_or_zero (got fd) = if ltb 0 fd then got fd else got 0
positive_or_zero failed = got 0
positive_or_zero busy = got 0

-- From `_lock_file` on, with the descriptor of the private directory.
lock_old : EnvLockCalls → LockRet → EnvLocks → LockRet × EnvLocks
unfolding unlock_fd positive_or_zero
lock_old o lckfd s = elim o.file [
  | got n ↦ (positive_or_zero lckfd, record s { file = true })
  | failed ↦ (failed, unlock_fd lckfd true s)
  | busy ↦ (busy, unlock_fd lckfd true s)
]

-- `vzctl2_env_lock_prvt`.
pub env_lock_prvt : EnvLockCalls → EnvLocks → LockRet × EnvLocks
unfolding lock_old is_nonzero
env_lock_prvt o s =
    if not o.conf
    then (failed, s)
    else if o.prvt && is_nonzero o.prvt_there
    then (elim o.lock [
      | got fd ↦ lock_old o (got fd) (record s { held = some fd; lck = true })
      | failed ↦ (failed, s)
      | busy ↦ (busy, s)
    ])
    else lock_old o failed s

-- `vzctl2_env_unlock_prvt`; `dir` says that the configuration names a lock directory.
pub env_unlock_prvt : (dir : Bool) → LockRet → (prvt : Bool) → EnvLocks → EnvLocks
unfolding unlock_fd
env_unlock_prvt dir (got fd) prvt s =
    let after = if ltb 0 fd then unlock_fd (got fd) prvt s else s in
    if dir then record after { file = false } else after
env_unlock_prvt dir failed prvt s = if dir then record s { file = false } else s
env_unlock_prvt dir busy prvt s = if dir then record s { file = false } else s

-- `vzctl2_env_unlock`.
unfoldable pub env_unlock : (dir has_handle : Bool) → LockRet → EnvLocks → EnvLocks
unfolding env_unlock_prvt unlock_fd
env_unlock dir has_handle lckfd s =
    if has_handle then env_unlock_prvt dir lckfd false s else unlock_fd lckfd false s

-- `stat` of the directory of the enter locks, whether errno is ENOENT, and `mkdir`, for which EEXIST
-- is fine.
pub record EnterCalls : Type 0 where
  pub has_dir : Bool
  pub is_enoent : Bool
  pub made : Bool
  pub lock : LockRet

-- `do_enter_lock`.
pub enter_lock_ret : EnterCalls → LockRet
enter_lock_ret o =
    if o.has_dir
    then o.lock
    else if not o.is_enoent
    then failed
    else if o.made
    then o.lock
    else failed

-- `is_enter_locked`.
unfoldable pub is_enter_locked : EnterCalls → Bool
unfolding enter_lock_ret
is_enter_locked o = elim (enter_lock_ret o) [ got fd ↦ false | failed ↦ true | busy ↦ true ]

-- No lock of the container is held.
abbrev pub unlocked : EnvLocks
unlocked = record { held = none; lck = false; file = false }

-- When locking a container that has no lock returns an error, no lock is left.
pub env_lock_prvt_failure :
    (o : EnvLockCalls)
    → is_got (env_lock_prvt o unlocked).0 ≡ false
    → (env_lock_prvt o unlocked).1 ≡ unlocked
unfolding env_lock_prvt
env_lock_prvt_failure o h = ground arith

-- A container that is locked and then unlocked with the same private directory has no lock, if the
-- descriptor of its lock is not 0.
pub env_unlock-lock :
    (o : EnvLockCalls)
    → o.lock ≢ got 0
    → env_unlock_prvt true (env_lock_prvt o unlocked).0 o.prvt (env_lock_prvt o unlocked).1
      ≡ unlocked
unfolding env_lock_prvt env_unlock_prvt
env_unlock-lock o h = ground arith

-- The descriptor, if there is one.
abbrev pub held_by : LockRet → Option ℕ
held_by (got fd) = some fd
held_by failed = none
held_by busy = none

-- When locking a container that has no lock, and has a private directory, does not return an error,
-- both of its locks are held.
pub env_lock_prvt_success :
    (o : EnvLockCalls)
    → (o.prvt && is_nonzero o.prvt_there) ≡ true
    → is_got (env_lock_prvt o unlocked).0 ≡ true
    → (is_got o.lock ≡ true)
      × ((env_lock_prvt o unlocked).1 ≡ record { held = held_by o.lock; lck = true; file = true })
unfolding env_lock_prvt
env_lock_prvt_success o p h = ground arith
