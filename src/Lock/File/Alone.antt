-- ===== src/Lock/File/Alone.antt =====
-- The lock file of one process: the loop ends, and what it does without other processes.
use libvzctl.Common.{
  ℕ, zero, suc, ◌*◌, ◌-◌, ◌≤◌, ◌<◌, ◌≡◌, refl, Bool, true, false, ◌&&◌, not, none, some, ◌==◌,
  if◌then◌else◌, arith,
}
use libvzctl.Lock.{LockRet, got, busy}
use libvzctl.Lock.File.{
  LockFile, LockFileCalls, Around, temp_pid, Pc, linking, reading, removing, done, call, run_calls,
  lock_file,
}

-- How many calls are left at most.
abbrev left : Pc → ℕ
left (linking r) = (3 - r) * 3
left (reading r) = (3 - r) * 3 - 1
left (removing r) = (3 - r) * 3 - 2
left (done ret) = 0

-- `retry < 3` inside the loop.
abbrev IsInLoop : Pc → Type 0
IsInLoop (linking r) = r < 3
IsInLoop (reading r) = r < 3
IsInLoop (removing r) = r < 3
IsInLoop (done ret) = Unit

abbrev pub is_done : Pc → Bool
is_done (done ret) = true
is_done pc = false

call-left :
    (w : Around) (temp : ℕ) (pc : Pc) (file : LockFile)
    → IsInLoop pc
    → IsInLoop (call w temp pc file).0 × (left (call w temp pc file).0 ≤ left pc - 1)
unfolding call
call-left w temp (linking r) none h = ground arith
call-left w temp (linking r) (some p) h = ground arith
call-left w temp (reading r) none h = ground arith
call-left w temp (reading r) (some p) h = ground arith
call-left w temp (removing r) file h = ground arith
call-left w temp (done ret) file h = ground arith

run_calls-ends :
    (around : ℕ → Around) (temp : ℕ) (others : ℕ → LockFile → LockFile) (n : ℕ) (pc : Pc)
    (file : LockFile)
    → IsInLoop pc
    → left pc ≤ n
    → is_done (run_calls around temp others n pc file).0 ≡ true
unfolding run_calls
run_calls-ends around temp others zero (linking r) file h l = absurd (omega arith)
run_calls-ends around temp others zero (reading r) file h l = absurd (omega arith)
run_calls-ends around temp others zero (removing r) file h l = absurd (omega arith)
run_calls-ends around temp others zero (done ret) file h l = refl
run_calls-ends around temp others (suc n) pc file h l =
    let now = call (around n) temp pc (others n file) in
    let less = call-left (around n) temp pc (others n file) h in
    run_calls-ends around temp others n now.0 now.1 less.0 (omega (arith, less.1))

-- Whatever other processes do to the lock file between its calls, and whichever of its calls fail,
-- the function returns.
pub lock_file-ends :
    (o : LockFileCalls) (around : ℕ → Around) (self : ℕ) (others : ℕ → LockFile → LockFile)
    (file : LockFile)
    → is_done (lock_file o around self others file).0 ≡ true
unfolding lock_file
lock_file-ends o around self others file =
    let temp = temp_pid o.is_written self in
    ground (arith, run_calls-ends around temp others 9 (linking 0) file (omega arith) (omega arith))

-- Calls that work, with these processes alive.
abbrev pub working : (ℕ → Bool) → Around
working is_alive = record { is_alive = is_alive; can_link = true; can_read = true }

run_calls-done :
    (is_alive : ℕ → Bool) (temp n : ℕ) (ret : LockRet) (file : LockFile)
    → run_calls (λ n. working is_alive) temp (λ n f. f) n (done ret) file ≡ (done ret, file)
unfolding run_calls call
run_calls-done is_alive temp zero ret file = refl
run_calls-done is_alive temp (suc n) ret file = run_calls-done is_alive temp n ret file

abbrev loop : (ℕ → Bool) → ℕ → LockFile → Pc × LockFile
loop is_alive temp = run_calls (λ n. working is_alive) temp (λ n f. f) 9 (linking 0)

loop_free : (is_alive : ℕ → Bool) (temp : ℕ) → loop is_alive temp none ≡ (done (got 0), some temp)
unfolding run_calls call
loop_free is_alive temp = run_calls-done is_alive temp 8 (got 0) (some temp)

loop_live :
    (is_alive : ℕ → Bool) (temp pid : ℕ)
    → (pid == 0) ≡ false
    → is_alive pid ≡ true
    → loop is_alive temp (some pid) ≡ (done busy, some pid)
unfolding run_calls call
loop_live is_alive temp pid z l = rw (z, l) (run_calls-done is_alive temp 7 busy (some pid))

loop_wrong :
    (is_alive : ℕ → Bool) (temp pid : ℕ)
    → (pid == 0) ≡ true
    → loop is_alive temp (some pid) ≡ (done (got 0), some temp)
unfolding run_calls call
loop_wrong is_alive temp pid z = rw z (run_calls-done is_alive temp 5 (got 0) (some temp))

loop_stale :
    (is_alive : ℕ → Bool) (temp pid : ℕ)
    → (pid == 0) ≡ false
    → is_alive pid ≡ false
    → loop is_alive temp (some pid) ≡ (done (got 0), some temp)
unfolding run_calls call
loop_stale is_alive temp pid z l = rw (z, l) (run_calls-done is_alive temp 5 (got 0) (some temp))

-- The result without other processes, from the lock file.
abbrev pub alone : (ℕ → Bool) → ℕ → LockFile → Pc × LockFile
alone is_alive temp none = (done (got 0), some temp)
alone is_alive temp (some pid) =
    if not (pid == 0) && is_alive pid then (done busy, some pid) else (done (got 0), some temp)

-- Without other processes, when its calls work, a failed `write` apart: the file of a live process is
-- kept, and -2 returned; otherwise the lock is taken, also from a dead process, and when the file
-- holds no process id.
pub lock_file-alone :
    (o : LockFileCalls) (is_alive : ℕ → Bool) (self : ℕ) (file : LockFile)
    → o.dir ≡ true
    → o.made ≡ true
    → o.temp ≡ true
    → lock_file o (λ n. working is_alive) self (λ n f. f) file
      ≡ alone is_alive (temp_pid o.is_written self) file
unfolding lock_file
lock_file-alone o is_alive self none d m t =
    ground (arith, loop_free is_alive (temp_pid o.is_written self))
lock_file-alone o is_alive self (some pid) d m t =
    let temp = temp_pid o.is_written self in
    ground (
      arith,
      loop_live is_alive temp pid,
      loop_wrong is_alive temp pid,
      loop_stale is_alive temp pid,
    )
