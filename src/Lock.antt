-- ===== src/Lock.antt =====
-- The locks of lib/lock.c.
pub mod Env
pub mod File
pub mod Flock
mod Tests
use libvzctl.Common.{ℕ, Bool, true, false}

-- What a lock function returns: a value that is not negative, such as a descriptor, -1, or -2.
pub data LockRet : Type 0 where
  got : ℕ → LockRet
  failed busy : LockRet

-- The value is not negative.
abbrev pub is_got : LockRet → Bool
is_got (got fd) = true
is_got failed = false
is_got busy = false
