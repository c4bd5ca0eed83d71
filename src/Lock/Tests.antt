-- ===== src/Lock/Tests.antt =====
-- The locks at concrete inputs.
use libvzctl.Common.{
  ℕ, ◌≡◌, refl, Bool, true, false, ◌&&◌, none, some, List, [], ◌∷◌, map, arith, ◌==◌, if◌then◌else◌,
}
use libvzctl.Snapshot.Flow.{exists}
use libvzctl.Lock.{is_got, got, failed, busy}
use libvzctl.Lock.Env.{EnvLockCalls, env_unlock, is_enter_locked}
use libvzctl.Lock.File.{
  LockFile, LockFileCalls, temp_pid, call, run_calls, done, lock_file, unlock_file,
}
use libvzctl.Lock.File.Alone.{is_done, working, lock_file-ends}
use libvzctl.Lock.File.Exclusion.{
  AllLive, Turn, has_lock, start, turns, turns-exclusive, turns_race,
}
use libvzctl.Lock.Flock.{
  LockCalls, LockEnd, LockTry, free, gone, interrupted, take_lock, locked, opened,
}
use libvzctl.Lock.Flock.Paths.{is_open, has_timer, has_handler, take_lock-cleans}

-- The processes 7 and 8 live.
abbrev alive : ℕ → Bool
alive pid = if pid == 7 then true else pid == 8

abbrev file_calls : LockFileCalls
file_calls = record { dir = true; has_dir = true; made = true; temp = true; is_written = true }

-- Another process puts its file back before each call.
abbrev nasty : ℕ → LockFile → LockFile
nasty n file = some 9

nasty_result : lock_file file_calls (λ n. working alive) 7 nasty none ≡ (done failed, none)
unfolding lock_file run_calls call
nasty_result = refl

unlock_file_twice : unlock_file true (unlock_file true (some 7)) ≡ none
unfolding unlock_file
unlock_file_twice = refl

lock_file-ends_example : is_done (lock_file file_calls (λ n. working alive) 7 nasty none).0 ≡ true
lock_file-ends_example = lock_file-ends file_calls (λ n. working alive) 7 nasty none

-- The calls of both, by turns.
abbrev mixed : List Turn
mixed = map (λ w. (w, working alive)) (true ∷ false ∷ true ∷ false ∷ true ∷ false ∷ [])

live : AllLive 7 8 (some 8) (true, working alive)
live = (refl, refl, refl)

turns-exclusive_example :
    (has_lock (turns 7 8 mixed (start (some 8))).first
      && has_lock (turns 7 8 mixed (start (some 8))).second)
    ≡ false
unfolding temp_pid
turns-exclusive_example =
    turns-exclusive 7 8 true true mixed (some 8) refl refl (omega arith)
      (live, (live, (live, (live, (live, (live, tt))))))

turns_race_example :
    (ws : List Bool) × (has_lock
        (turns 7 8 (map (λ w. (w, working alive)) ws) (start (some 9))).first
      ≡ true)
    × (has_lock (turns 7 8 (map (λ w. (w, working alive)) ws) (start (some 9))).second ≡ true)
turns_race_example = turns_race alive 7 8 9 refl

-- The second call of `flock` gets the lock.
abbrev tries : ℕ → LockTry
tries n = if n == 0 then interrupted false else locked

abbrev lock_calls : LockCalls
lock_calls = record {
  opens = λ n. if n == 0 then gone else opened 5;
  is_nfs = false;
  probe = free;
  timer = true;
  tries = tries;
}

take_lock-cleans_example :
    (e : LockEnd) × (take_lock 3 lock_calls false true ≡ some e)
    × (is_open e.trace ≡ is_got e.ret)
    × (has_timer e.trace ≡ false)
    × (has_handler e.trace ≡ false)
take_lock-cleans_example = take_lock-cleans 3 lock_calls false true 1 (omega arith) refl refl

abbrev env_calls : EnvLockCalls
env_calls = record { conf = true; prvt = true; prvt_there = exists; lock = got 4; file = got 0 }

-- `vzctl2_env_unlock` leaves the file .lck.
env_unlock_lck :
    env_unlock true true (got 4) (record { held = some 4; lck = true; file = true })
    ≡ record { held = none; lck = true; file = false }
unfolding env_unlock
env_unlock_lck = refl

enter_busy :
    is_enter_locked (record { has_dir = true; is_enoent = false; made = false; lock = busy }) ≡ true
unfolding is_enter_locked
enter_busy = refl
