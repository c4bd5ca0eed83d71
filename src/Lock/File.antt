-- ===== src/Lock/File.antt =====
-- `_lock_file` and `_unlock_file` of lib/lock.c: the lock file that holds the process id of its
-- owner. Other processes may act between any two system calls.
pub mod Alone
pub mod Exclusion
use libvzctl.Common.{
  ℕ, zero, suc, ◌+◌, Bool, true, false, not, Option, none, some, ltb, ◌==◌, if◌then◌else◌,
}
use libvzctl.Lock.{LockRet, got, failed, busy}

-- The lock file: none if there is none, else the process id that `sscanf` reads from it, 0 if it is
-- not one. A negative number in it is left out.
abbrev pub LockFile : Type 0
LockFile = Option ℕ

-- What a system call finds around it: the processes that /proc has, whether `link` works if the file
-- is not there, and whether a file that is there can be opened and read.
pub record Around : Type 0 where
  pub is_alive : ℕ → Bool
  pub can_link : Bool
  pub can_read : Bool

-- The system call that comes next, with `retry`: `link`, the reading of `getlockpid` with the `stat`
-- of /proc, `unlink`; or the end of the loop.
pub data Pc : Type 0 where
  linking reading removing : ℕ → Pc
  done : LockRet → Pc

-- `retry++`, and `while (retry < 3)`.
next_try : ℕ → Pc
next_try retry = if ltb (retry + 1) 3 then linking (retry + 1) else done failed

-- What the temporary file holds: a `write` that fails is only logged, and leaves it without an id.
unfoldable pub temp_pid : (is_written : Bool) → (self : ℕ) → ℕ
temp_pid is_written self = if is_written then self else 0

-- One system call, with the lock file before and behind it; `temp` is what the temporary file holds.
unfoldable pub call : Around → (temp : ℕ) → Pc → LockFile → Pc × LockFile
unfolding next_try
call w temp (linking r) none = if w.can_link then (done (got 0), some temp) else (reading r, none)
call w temp (linking r) (some pid) = (reading r, some pid)
call w temp (reading r) none = (next_try r, none)
call w temp (reading r) (some pid) = if not w.can_read then (next_try r, some pid) else (
  if pid == 0 then removing r else if w.is_alive pid then done busy else removing r,
  some pid,
)
call w temp (removing r) file = (next_try r, none)
call w temp (done ret) file = (done ret, file)

-- `n` calls of one process; `others` is what the other processes do to the lock file before each.
unfoldable pub run_calls :
    (ℕ → Around) → ℕ → (others : ℕ → LockFile → LockFile) → ℕ → Pc → LockFile → Pc × LockFile
run_calls around temp others zero pc file = (pc, file)
run_calls around temp others (suc n) pc file =
    let now = call (around n) temp pc (others n file) in run_calls around temp others n now.0 now.1

-- The results of the calls in front of the loop: whether a directory is given, `stat_file(dir)`,
-- `make_dir`, `mkstemp` and `write`.
pub record LockFileCalls : Type 0 where
  pub dir : Bool
  pub has_dir : Bool
  pub made : Bool
  pub temp : Bool
  pub is_written : Bool

-- `_lock_file`. No run of the loop takes more than 9 system calls.
unfoldable pub lock_file :
    LockFileCalls → (ℕ → Around) → ℕ → (others : ℕ → LockFile → LockFile) → LockFile → Pc × LockFile
unfolding temp_pid
lock_file o around self others file =
    if not o.dir
    then (done failed, file)
    else if (if o.has_dir then false else not o.made)
    then (done failed, file)
    else if not o.temp
    then (done failed, file)
    else run_calls around (temp_pid o.is_written self) others 9 (linking 0) file

-- `_unlock_file`.
unfoldable pub unlock_file : (dir : Bool) → LockFile → LockFile
unlock_file dir file = if dir then none else file
