-- ===== src/Lock/File/Exclusion.antt =====
-- Two processes that take the same lock file, in any order of their system calls.
use libvzctl.Common.{
  ℕ, ◌≡◌, ◌≢◌, refl, Bool, true, false, not, ◌&&◌, ◌||◌, none, some, List, [], ◌∷◌, All, map, ◌==◌,
  if◌then◌else◌, arith,
}
use libvzctl.Lock.{got, busy}
use libvzctl.Lock.File.{LockFile, Around, Pc, linking, reading, removing, done, temp_pid, call}
use libvzctl.Lock.File.Alone.{working}

pub record Two : Type 0 where
  pub first : Pc
  pub second : Pc
  pub file : LockFile

-- A system call of one of the two processes, the first one if the Boolean is `true`, with what it
-- finds around it; `a` and `b` are what their temporary files hold.
abbrev pub Turn : Type 0
Turn = Bool × Around

abbrev pub take_turn : (a b : ℕ) → Turn → Two → Two
take_turn a b (true, w) t =
    let now = call w a t.first t.file in record t { first = now.0; file = now.1 }
take_turn a b (false, w) t =
    let now = call w b t.second t.file in record t { second = now.0; file = now.1 }

abbrev pub turns : (a b : ℕ) → List Turn → Two → Two
turns a b [] t = t
turns a b (w ∷ ws) t = turns a b ws (take_turn a b w t)

-- The process has the lock.
abbrev pub has_lock : Pc → Bool
has_lock (done (got n)) = true
has_lock pc = false

-- The process is about to unlink the file.
abbrev is_removing : Pc → Bool
is_removing (removing r) = true
is_removing pc = false

-- The file names no process, or one that lives.
abbrev pub is_live : (ℕ → Bool) → LockFile → Bool
is_live is_alive none = true
is_live is_alive (some pid) = not (pid == 0) && is_alive pid

abbrev is_of : LockFile → ℕ → Bool
is_of none self = false
is_of (some pid) self = pid == self

-- At a turn both processes live, and so does the process that the file named at the start.
abbrev pub AllLive : (a b : ℕ) → LockFile → Turn → Type 0
AllLive a b file t =
    (is_live t.1.is_alive (some a) ≡ true)
    × (is_live t.1.is_alive (some b) ≡ true)
    × (is_live t.1.is_alive file ≡ true)

-- The file is of one of the two, or as it was at the start.
abbrev is_known : (a b : ℕ) → (start file : LockFile) → Bool
is_known a b start none = true
is_known a b start (some pid) = pid == a || pid == b || is_of start pid

-- Nobody is about to unlink the file, and it is of the process that has the lock.
record IsFair (a b : ℕ) (file : LockFile) (t : Two) : Type 0 where
  first_keeps : is_removing t.first ≡ false
  second_keeps : is_removing t.second ≡ false
  first_owns : (not (has_lock t.first) || is_of t.file a) ≡ true
  second_owns : (not (has_lock t.second) || is_of t.file b) ≡ true
  known : is_known a b file t.file ≡ true

known_live :
    (is_alive : ℕ → Bool) (a b : ℕ) (start file : LockFile)
    → is_live is_alive (some a) ≡ true
    → is_live is_alive (some b) ≡ true
    → is_live is_alive start ≡ true
    → is_known a b start file ≡ true
    → is_live is_alive file ≡ true
known_live is_alive a b start none la lb ls k = refl
known_live is_alive a b none (some p) la lb ls k = ground arith
known_live is_alive a b (some q) (some p) la lb ls k = ground arith

-- A call that finds the file of a live process keeps it, and a lock that is got is in the file.
call-fair :
    (w : Around) (self other : ℕ) (pc : Pc) (file : LockFile)
    → is_removing pc ≡ false
    → (not (has_lock pc) || is_of file self) ≡ true
    → is_live w.is_alive file ≡ true
    → (is_removing (call w self pc file).0 ≡ false)
      × ((not (has_lock (call w self pc file).0) || is_of (call w self pc file).1 self) ≡ true)
      × ((not (is_of file other) || is_of (call w self pc file).1 other) ≡ true)
unfolding call
call-fair w self other (linking r) none k o l = ground arith
call-fair w self other (linking r) (some p) k o l = ground arith
call-fair w self other (reading r) none k o l = ground arith
call-fair w self other (reading r) (some p) k o l = ground arith
call-fair w self other (removing r) file k o l = ground arith
call-fair w self other (done ret) none k o l = ground arith
call-fair w self other (done ret) (some p) k o l = ground arith

call-known :
    (w : Around) (a b self : ℕ) (start : LockFile) (pc : Pc) (file : LockFile)
    → (self == a || self == b) ≡ true
    → is_known a b start file ≡ true
    → is_known a b start (call w self pc file).1 ≡ true
unfolding call
call-known w a b self start (linking r) none s k = ground arith
call-known w a b self start (linking r) (some p) s k = k
call-known w a b self start (reading r) none s k = k
call-known w a b self start (reading r) (some p) s k = ground arith
call-known w a b self start (removing r) file s k = refl
call-known w a b self start (done ret) file s k = k

one_owner : (file : LockFile) (a b : ℕ) → is_of file a ≡ true → is_of file b ≡ true → a ≡ b
one_owner none a b h i = absurd (ground arith)
one_owner (some pid) a b h i = ground arith

-- Both processes in front of their first call.
abbrev pub start : LockFile → Two
start file = record { first = linking 0; second = linking 0; file = file }

take_turn-IsFair :
    (a b : ℕ) (file : LockFile) (w : Turn) (t : Two)
    → AllLive a b file w
    → IsFair a b file t
    → IsFair a b file (take_turn a b w t)
take_turn-IsFair a b file (true, w) t live f =
    let l = known_live w.is_alive a b file t.file live.0 live.1 live.2 f.known in
    let c = call-fair w a b t.first t.file f.first_keeps f.first_owns l in
    record {
      first_keeps = c.0;
      second_keeps = f.second_keeps;
      first_owns = c.1;
      second_owns = ground (arith, c.2, f.second_owns);
      known = call-known w a b a file t.first t.file (ground arith) f.known;
    }
take_turn-IsFair a b file (false, w) t live f =
    let l = known_live w.is_alive a b file t.file live.0 live.1 live.2 f.known in
    let c = call-fair w b a t.second t.file f.second_keeps f.second_owns l in
    record {
      first_keeps = f.first_keeps;
      second_keeps = c.0;
      first_owns = ground (arith, c.2, f.first_owns);
      second_owns = c.1;
      known = call-known w a b b file t.second t.file (ground arith) f.known;
    }

turns-IsFair :
    (a b : ℕ) (file : LockFile) (ws : List Turn) (t : Two)
    → All (AllLive a b file) ws
    → IsFair a b file t
    → IsFair a b file (turns a b ws t)
turns-IsFair a b file [] t live f = f
turns-IsFair a b file (w ∷ ws) t (l, live) f =
    turns-IsFair a b file ws (take_turn a b w t) live (take_turn-IsFair a b file w t l f)

-- In any order of their calls, two processes do not both get the lock, if at each call both live, and
-- the process that the lock file named at the start lives too, if it named one. Both have written
-- their process ids to their temporary files, and nobody else acts on the lock file. Calls of `link`
-- and reads of the file may fail.
pub turns-exclusive :
    (a b : ℕ) (wrote_a wrote_b : Bool) (ws : List Turn) (file : LockFile)
    → wrote_a ≡ true
    → wrote_b ≡ true
    → a ≢ b
    → All (AllLive a b file) ws
    → let t = turns (temp_pid wrote_a a) (temp_pid wrote_b b) ws (start file) in
      (has_lock t.first && has_lock t.second) ≡ false
unfolding temp_pid
turns-exclusive a b wrote_a wrote_b ws file wa wb n live =
    rw (wa, wb)
      (let f = turns-IsFair a b file ws (start file) live (record {
        first_keeps = refl;
        second_keeps = refl;
        first_owns = refl;
        second_owns = refl;
        known = known_start a b file;
      }) in
        let t = turns a b ws (start file) in
        ground (arith, f.first_owns, f.second_owns, one_owner t.file a b))
  where
    known_start : (a b : ℕ) (file : LockFile) → is_known a b file file ≡ true
    known_start a b none = refl
    known_start a b (some p) = ground arith

read_stale :
    (is_alive : ℕ → Bool) (pid r : ℕ)
    → is_live is_alive (some pid) ≡ false
    → (if pid == 0 then removing r else if is_alive pid then done busy else removing r) ≡ removing r
read_stale is_alive pid r d = ground arith

-- When the lock file names a dead process or none, an order of the calls of two processes, which all
-- work, gives the lock to both: the second one removes the file of the first.
pub turns_race :
    (is_alive : ℕ → Bool) (a b pid : ℕ)
    → is_live is_alive (some pid) ≡ false
    → (ws : List Bool) × (has_lock
          (turns a b (map (λ w. (w, working is_alive)) ws) (start (some pid))).first
        ≡ true)
      × (has_lock (turns a b (map (λ w. (w, working is_alive)) ws) (start (some pid))).second
          ≡ true)
unfolding call
turns_race is_alive a b pid d = (
  true ∷ true ∷ false ∷ false ∷ true ∷ true ∷ false ∷ false ∷ [],
  rw (read_stale is_alive pid 0 d) refl,
  rw (read_stale is_alive pid 0 d) refl,
)
