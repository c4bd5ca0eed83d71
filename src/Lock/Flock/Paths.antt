-- ===== src/Lock/Flock/Paths.antt =====
-- What taking a file lock leaves behind, and when it ends.
use libvzctl.Common.{
  ℕ, zero, suc, ◌+◌, ◌<◌, ◌≤◌, ◌≡◌, ◌⊎◌, refl, Bool, true, false, ◌&&◌, Option, none, some, ◌==◌,
  arith, inl, inr, Bool-cases, Option-cases, List, after_calls,
}
use libvzctl.Lock.{is_got}
use libvzctl.Lock.Flock.{
  LockEvent, open_fd, close_fd, set_handler, restore_handler, set_timer, delete_timer, LockTry,
  locked, interrupted, would_block, broken, taken, LockCalls, LockEnd, take_lock, loop_from,
}

abbrev is_locked : LockTry → Bool
is_locked locked = true
is_locked try = false

LockTry-cases : (a : LockTry) → (a ≡ locked) ⊎ (is_locked a ≡ false)
LockTry-cases locked = inl refl
LockTry-cases (interrupted e) = inr refl
LockTry-cases would_block = inr refl
LockTry-cases broken = inr refl

-- The round ends the loop: the time is over, or `flock` was not interrupted.
abbrev pub is_last : (has_timeout : Bool) → LockTry → Bool
is_last t (interrupted expired) = t && expired
is_last t try = true

abbrev pub is_set {ℓ} : {A : Type ℓ} → Option A → Bool
is_set none = false
is_set (some a) = true

loop_from-ends :
    (t : Bool) (tries : ℕ → LockTry) (i k n : ℕ)
    → i ≤ n
    → n < i + k
    → is_last t (tries n) ≡ true
    → is_set (loop_from t tries i k) ≡ true
unfolding loop_from
loop_from-ends t tries i zero n h l e = absurd (omega arith)
loop_from-ends t tries i (suc k) n h l e = elim (Bool-cases (n == i)) [
  | inl q ↦ ground arith
  | inr q ↦ ground (arith, loop_from-ends t tries (i + 1) k n (ground arith) (omega arith) e)
]

abbrev pub open_by : Bool → LockEvent → Bool
open_by b open_fd = true
open_by b close_fd = false
open_by b e = b

abbrev pub timer_by : Bool → LockEvent → Bool
timer_by b (set_timer true) = true
timer_by b delete_timer = false
timer_by b e = b

abbrev pub handler_by : Bool → LockEvent → Bool
handler_by b set_handler = true
handler_by b restore_handler = false
handler_by b e = b

-- Whether a descriptor is open, whether a timer exists, and whether the handler of SIGRTMIN is the
-- one of these functions, after some calls.
abbrev pub is_open : List LockEvent → Bool
is_open = after_calls open_by false

abbrev pub has_timer : List LockEvent → Bool
has_timer = after_calls timer_by false

abbrev pub has_handler : List LockEvent → Bool
has_handler = after_calls handler_by false

take_lock-ends :
    (k : ℕ) (o : LockCalls) (is_nb has_timeout : Bool) (n : ℕ)
    → n < k
    → is_last has_timeout (o.tries n) ≡ true
    → (e : LockEnd) × (take_lock k o is_nb has_timeout ≡ some e)
unfolding take_lock
take_lock-ends k o is_nb has_timeout n l e =
    elim (Option-cases (loop_from has_timeout o.tries 0 k)) [
      | inl a ↦ absurd (
          ground
            (arith, a, loop_from-ends has_timeout o.tries 0 k n (omega arith) (ground arith) e))
      | inr (x, a) ↦ elim (Option-cases (take_lock k o is_nb has_timeout)) [
        | inl b ↦ absurd (ground (arith, a, b))
        | inr b ↦ b
      ]
    ]

take_lock-clean :
    (k : ℕ) (o : LockCalls) (is_nb has_timeout : Bool) (e : LockEnd)
    → take_lock k o is_nb has_timeout ≡ some e
    → o.timer ≡ true
    → (is_open e.trace ≡ is_got e.ret) × (has_timer e.trace ≡ false) × (has_handler e.trace ≡ false)
unfolding take_lock
take_lock-clean k o is_nb has_timeout e h t = ground arith

-- If one call of `flock` or `fcntl` is not interrupted, or is interrupted when the time is over, and
-- the timer can be set, then `vzctl2_lock` returns, with any number of rounds that includes that
-- call. A descriptor is open exactly if it is returned, the timer is deleted, and the handler of its
-- signal is the old one.
pub take_lock-cleans :
    (k : ℕ) (o : LockCalls) (is_nb has_timeout : Bool) (n : ℕ)
    → n < k
    → is_last has_timeout (o.tries n) ≡ true
    → o.timer ≡ true
    → (e : LockEnd) × (take_lock k o is_nb has_timeout ≡ some e)
      × (is_open e.trace ≡ is_got e.ret)
      × (has_timer e.trace ≡ false)
      × (has_handler e.trace ≡ false)
take_lock-cleans k o is_nb has_timeout n l last t =
    let (e, h) = take_lock-ends k o is_nb has_timeout n l last in
    let c = take_lock-clean k o is_nb has_timeout e h t in (e, h, c.0, c.1, c.2)

loop_from-taken :
    (t : Bool) (tries : ℕ → LockTry) (i k : ℕ)
    → loop_from t tries i k ≡ some taken
    → (n : ℕ) × (tries n ≡ locked) × (i ≤ n) × (n < i + k)
unfolding loop_from
loop_from-taken t tries i zero h = absurd (ground arith)
loop_from-taken t tries i (suc k) h = elim (LockTry-cases (tries i)) [
  | inl e ↦ (i, e, omega arith, omega arith)
  | inr n ↦
      let (m, e, l, u) = loop_from-taken t tries (i + 1) k (ground arith) in
      (m, e, omega (arith, l), omega (arith, u))
]

-- A descriptor is returned only when a call of `flock` or `fcntl` got the lock.
pub take_lock-acquires :
    (k : ℕ) (o : LockCalls) (is_nb has_timeout : Bool) (e : LockEnd)
    → take_lock k o is_nb has_timeout ≡ some e
    → is_got e.ret ≡ true
    → (n : ℕ) × (o.tries n ≡ locked) × (n < k)
unfolding take_lock
take_lock-acquires k o is_nb has_timeout e h g =
    let (n, a, l, u) = loop_from-taken has_timeout o.tries 0 k (ground arith) in
    (n, a, ground (arith, u))
