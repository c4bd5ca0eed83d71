-- ===== src/Env/State.antt =====
-- `wait_env_state` of lib/env.c. The answers of `is_env_run`, in the order of the polls, are an
-- argument: the container changes while the function sleeps.
use libvzctl.Common.{
  ℕ, zero, suc, ◌+◌, ◌*◌, ◌%◌, ◌^◌, ◌<◌, ◌≤◌, ◌≡◌, ◌==◌, Bool, true, false, if◌then◌else◌, arith,
  inl, inr, Bool-cases, Option-cases, leb, Option, none, some,
}
use libvzctl.Snapshot.Flow.{Run, running, stopped}

-- `VZCTL_ENV_STARTED` and `VZCTL_ENV_STOPPED`.
pub data Awaited : Type 0 where
  started ended : Awaited

-- The `switch` of the loop.
unfoldable pub is_reached : Awaited → Run → Bool
is_reached started running = true
is_reached ended stopped = true
is_reached _ _ = false

-- The loop, from poll `i` on, with the number of rounds left: the number of the poll that returns 0.
poll_from : (ℕ → Run) → Awaited → ℕ → ℕ → Option ℕ
unfolding is_reached
poll_from runs s i zero = none
poll_from runs s i (suc k) =
    let rest = poll_from runs s (i + 1) k in if is_reached s (runs i) then some i else rest

-- `i < timeout * 2` is an unsigned comparison.
pub wait_env_state : (ℕ → Run) → Awaited → ℕ → Option ℕ
unfolding poll_from
wait_env_state runs s timeout = poll_from runs s 0 ((timeout * 2) % 2 ^ 32)

poll-missed :
    (runs : ℕ → Run) (s : Awaited) (i k : ℕ)
    → poll_from runs s i k ≡ none
    → (n : ℕ) → i ≤ n
    → n < i + k
    → is_reached s (runs n) ≡ false
unfolding poll_from
poll-missed runs s i zero h n l u = absurd (omega arith)
poll-missed runs s i (suc k) h n l u = elim (Bool-cases (n == i)) [
  | inl e ↦ ground arith
  | inr e ↦ poll-missed runs s (i + 1) k (ground arith) n (ground arith) (ground arith)
]

poll-found :
    (runs : ℕ → Run) (s : Awaited) (i k m : ℕ)
    → poll_from runs s i k ≡ some m
    → (i ≤ m)
      × (m < i + k)
      × (is_reached s (runs m) ≡ true)
      × ((n : ℕ) → i ≤ n → n < m → is_reached s (runs n) ≡ false)
unfolding poll_from
poll-found runs s i zero m h = ground arith
poll-found runs s i (suc k) m h = elim (Bool-cases (is_reached s (runs i))) [
  | inl e ↦ ground arith
  | inr e ↦
      let next = poll-found runs s (i + 1) k m (ground arith) in
      (
        ground (arith, next.0),
        ground (arith, next.1),
        next.2,
        λ n l u. elim (Bool-cases (n == i)) [
          | inl q ↦ ground arith
          | inr q ↦ next.3 n (ground arith) u
        ],
      )
]

pub wait_env_state-first :
    (runs : ℕ → Run) (s : Awaited) (timeout m : ℕ)
    → wait_env_state runs s timeout ≡ some m
    → (m < (timeout * 2) % 2 ^ 32)
      × (is_reached s (runs m) ≡ true)
      × ((n : ℕ) → n < m → is_reached s (runs n) ≡ false)
unfolding wait_env_state
wait_env_state-first runs s timeout m h =
    let found = poll-found runs s 0 ((timeout * 2) % 2 ^ 32) m h in
    (ground (arith, found.1), found.2, λ n l. found.3 n (omega arith) l)

-- When the container reaches the awaited state at some poll within the time, the wait ends, at that
-- poll or before.
pub wait_env_state-ends :
    (runs : ℕ → Run) (s : Awaited) (timeout n : ℕ)
    → n < (timeout * 2) % 2 ^ 32
    → is_reached s (runs n) ≡ true
    → (m : ℕ) × (wait_env_state runs s timeout ≡ some m) × (m ≤ n)
unfolding wait_env_state
wait_env_state-ends runs s timeout n l h = elim (Option-cases (wait_env_state runs s timeout)) [
  | inl e ↦
      ground (arith, poll-missed runs s 0 ((timeout * 2) % 2 ^ 32) e n (omega arith) (ground arith))
  | inr (m, e) ↦ (
    m,
    e,
    elim (Bool-cases (leb m n)) [
      | inl q ↦ ground arith
      | inr q ↦ ground (arith, (wait_env_state-first runs s timeout m e).2 n (ground arith))
    ],
  )
]
