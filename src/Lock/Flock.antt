-- ===== src/Lock/Flock.antt =====
-- `_open_lock_file`, `_lock_flock`, `_lock_fcntl` and `vzctl2_lock` of lib/lock.c.
pub mod Paths
use libvzctl.Common.{
  ℕ, zero, suc, ◌+◌, Bool, true, false, not, ◌&&◌, ◌||◌, Option, none, some, List, [], ◌∷◌, ◌==◌,
  if◌then◌else◌,
}
use libvzctl.Lock.{LockRet, got, failed, busy}

-- One round of `_open_lock_file`: `open` makes or refuses the file, or it exists and is opened, is
-- gone again, or is refused.
pub data OpenTry : Type 0 where
  created opened : ℕ → OpenTry
  refused gone : OpenTry

-- The loop of `_open_lock_file`, from round `i` on; the descriptor, or none for -1.
open_from : (ℕ → OpenTry) → ℕ → ℕ → Option ℕ
open_from tries i zero = none
open_from tries i (suc k) =
    let rest = open_from tries (i + 1) k in
    elim (tries i) [ created fd ↦ some fd | opened fd ↦ some fd | refused ↦ none | gone ↦ rest ]

pub open_lock_file : (ℕ → OpenTry) → Option ℕ
unfolding open_from
open_lock_file tries = open_from tries 0 3

-- What one `flock`, or one `fcntl` with F_SETLK, yields: the lock, EINTR with whether the time is
-- over by then, EAGAIN, or another error.
pub data LockTry : Type 0 where
  locked : LockTry
  interrupted : (expired : Bool) → LockTry
  would_block : LockTry
  broken : LockTry

-- The end of the `while` loop: `r` is 0, or `_errno` is EAGAIN or another error. With no time
-- limit an interrupted call is made again.
pub data LoopEnd : Type 0 where
  taken again other : LoopEnd

loop_from : (has_timeout : Bool) → (ℕ → LockTry) → ℕ → ℕ → Option LoopEnd
loop_from t tries i zero = none
loop_from t tries i (suc k) =
    let rest = loop_from t tries (i + 1) k in
    elim (tries i) [
      | locked ↦ some taken
      | interrupted expired ↦ if t && expired then some again else rest
      | would_block ↦ some again
      | broken ↦ some other
    ]

-- The calls that open, close or set something, in order. `set_timer` leaves no timer when it fails.
pub data LockEvent : Type 0 where
  open_fd close_fd : LockEvent
  set_handler restore_handler : LockEvent
  set_timer : Bool → LockEvent
  delete_timer : LockEvent

-- The value returned, and the calls made.
pub record LockEnd : Type 0 where
  pub ret : LockRet
  pub trace : List LockEvent

abbrev pub lock_returns : LockRet → LockEnd
lock_returns ret = record { ret = ret; trace = [] }

infixr 6 ◌then_lock◌
abbrev pub ◌then_lock◌ : LockEvent → LockEnd → LockEnd
e then_lock o = record o { trace = e ∷ o.trace }

-- The same for a function that has run out of rounds.
infixr 6 ◌then_try◌
abbrev pub ◌then_try◌ : LockEvent → Option LockEnd → Option LockEnd
e then_try none = none
e then_try (some o) = some (e then_lock o)

-- The label err, and the other ends that close the descriptor.
close_with : LockRet → LockEnd
close_with ret = close_fd then_lock lock_returns ret

-- The second block under `if (timeout)`.
end_timer : (has_timeout : Bool) → LockEnd → LockEnd
end_timer has_timeout o =
    if has_timeout then delete_timer then_lock restore_handler then_lock o else o

-- The end of `_lock_flock`.
end_flock : ℕ → LoopEnd → LockEnd
unfolding close_with
end_flock fd taken = lock_returns (got fd)
end_flock fd again = close_with busy
end_flock fd other = close_with failed

-- The loop of `_lock_flock` or `_lock_fcntl` and what follows it, within a number of rounds.
wait_lock : ℕ → (has_timeout : Bool) → (ℕ → LockTry) → (at_end : LoopEnd → LockEnd) → Option LockEnd
unfolding loop_from end_timer
wait_lock k has_timeout tries at_end = elim (loop_from has_timeout tries 0 k) [
  | none ↦ none
  | some e ↦ some (end_timer has_timeout (at_end e))
]

-- From the first block under `if (timeout)` on; `timer` is what `set_timer` yields.
with_timer :
    ℕ → (has_timeout timer : Bool) → (ℕ → LockTry) → (at_end : LoopEnd → LockEnd) → Option LockEnd
unfolding wait_lock close_with
with_timer k has_timeout timer tries at_end =
    if has_timeout
    then set_handler
      then_try set_timer timer
      then_try (if timer then wait_lock k has_timeout tries at_end else some (close_with failed))
    else wait_lock k has_timeout tries at_end

-- `_lock_flock` within a number of rounds.
pub lock_flock : ℕ → (fd : ℕ) → (has_timeout timer : Bool) → (ℕ → LockTry) → Option LockEnd
unfolding with_timer end_flock
lock_flock k fd has_timeout timer tries = with_timer k has_timeout timer tries (end_flock fd)

-- The end of `_lock_fcntl`.
end_fcntl : ℕ → LoopEnd → LockEnd
unfolding close_with
end_fcntl fd taken = lock_returns (got fd)
end_fcntl fd again = close_with failed
end_fcntl fd other = close_with failed

-- `F_GETLK`: an error, a lock of another process, or none.
pub data Probe : Type 0 where
  probe_failed held free : Probe

-- `_lock_fcntl` within a number of rounds; `is_nb` is VZCTL_LOCK_NB.
pub lock_fcntl :
    ℕ
    → (fd : ℕ) → (is_nb : Bool) → Probe
    → (has_timeout timer : Bool) → (ℕ → LockTry)
    → Option LockEnd
unfolding with_timer end_fcntl close_with
lock_fcntl k fd is_nb probe has_timeout timer tries =
    if is_nb
    then elim probe [
      | probe_failed ↦ some (close_with failed)
      | held ↦ some (close_with busy)
      | free ↦ with_timer k has_timeout timer tries (end_fcntl fd)
    ]
    else with_timer k has_timeout timer tries (end_fcntl fd)

-- The results of the calls of `vzctl2_lock`.
pub record LockCalls : Type 0 where
  pub opens : ℕ → OpenTry
  pub is_nfs : Bool
  pub probe : Probe
  pub timer : Bool
  pub tries : ℕ → LockTry

-- `vzctl2_lock`, within a number of rounds.
pub take_lock : ℕ → LockCalls → (is_nb has_timeout : Bool) → Option LockEnd
unfolding lock_fcntl lock_flock open_lock_file
take_lock k o is_nb has_timeout = elim (open_lock_file o.opens) [
  | none ↦ some (lock_returns failed)
  | some fd ↦
      open_fd
      then_try (if o.is_nfs
          then lock_fcntl k fd is_nb o.probe has_timeout o.timer o.tries
          else lock_flock k fd has_timeout o.timer o.tries)
]
