-- ===== src/Hook.antt =====
-- The hooks of lib/hook.c and the cleanup hooks of lib/cleanup.c. A context is a list head of
-- Links; the callbacks are arguments.
mod Tests
use libvzctl.Common.{
  ℕ, ◌+◌, ◌≡◌, ◌≢◌, ap, ◌<◌, ◌%◌, ◌^◌, Bool, true, false, Option, none, some, List, [], ◌∷◌, ◌++◌,
  arith, length, length-append, ◌==◌, if◌then◌else◌,
}
use libvzctl.Links.{Ptr, null, Memory, list_add, list_add_tail, list_for_each}
use libvzctl.Links.Ring.{IsRing, is_in, list_add-refines, list_add_tail-refines}
use libvzctl.Links.Walk.{list_for_each-visits}

-- `register_hook` behind the allocation, whose result is the argument; with the element, the memory
-- and the next parameter offset.
pub register_hook : Ptr → (head : Ptr) → (tail : Bool) → ℕ → Memory → Option (Ptr × ℕ × Memory)
register_hook h head tail offset m =
    let added = if tail then list_add_tail h head m else list_add h head m in
    if h == null
    then some (null, offset, m)
    else elim added [ none ↦ none | some g ↦ some (h, (offset + 1) % 2 ^ 32, g) ]

-- The result of one callback; without one, the result before it stays.
abbrev result_or : ℕ → Option ℕ → ℕ
result_or ret none = ret
result_or ret (some code) = code

-- The loop of `call_hook`: what it returns, and the hooks that it visits. `callback` is none for a
-- hook without the operation, and the code 0 for an operation without a result.
pub call_hooks : (callback : Ptr → Option ℕ) → ℕ → List Ptr → ℕ × List Ptr
call_hooks callback ret [] = (ret, [])
call_hooks callback ret (h ∷ hs) =
    let code = result_or ret (callback h) in
    let rest = call_hooks callback code hs in
    if code == 0 then (rest.0, h ∷ rest.1) else (code, h ∷ [])

-- `call_hook`, within a number of rounds.
pub call_hook : (callback : Ptr → Option ℕ) → ℕ → Ptr → Memory → Option (ℕ × List Ptr)
unfolding call_hooks
call_hook callback k head m = elim (list_for_each k head m) [
  | none ↦ none
  | some hs ↦ some (call_hooks callback 0 hs)
]

-- `register_cleanup_hook` behind the allocation.
pub register_cleanup_hook : Ptr → (ctx : Ptr) → Memory → Option (Ptr × Memory)
register_cleanup_hook h ctx m =
    let added = list_add h ctx m in
    if h == null then some (null, m) else elim added [ none ↦ none | some g ↦ some (h, g) ]

-- `vzctl2_cancel_last_operation`: the cleanup hooks in the order of their calls.
pub cancel_last_operation : ℕ → (ctx : Ptr) → Memory → Option (List Ptr)
cancel_last_operation k ctx m = list_for_each k ctx m

call_hooks-append :
    (callback : Ptr → Option ℕ) (hs : List Ptr) (h : Ptr)
    → call_hooks callback 0 (hs ++ h ∷ []) ≡ (
        if (call_hooks callback 0 hs).0 == 0
        then (result_or 0 (callback h), hs ++ h ∷ [])
        else call_hooks callback 0 hs)
unfolding call_hooks
call_hooks-append callback [] h = ground arith
call_hooks-append callback (x ∷ hs) h = ground (arith, call_hooks-append callback hs h)

-- A hook that is registered at the tail is called behind the hooks that were there, if all of them
-- return 0, and its result is the result of the call; otherwise the first error is returned, and no
-- hook behind it is called.
pub call_hook-register :
    (callback : Ptr → Option ℕ) (m : Memory) (h head : Ptr) (hs : List Ptr) (offset k : ℕ)
    → IsRing m head hs
    → is_in h (head ∷ hs) ≡ false
    → h ≢ null
    → length hs + 1 < k
    → (g : Memory) × (register_hook h head true offset m ≡ some (h, (offset + 1) % 2 ^ 32, g))
      × (call_hook callback k head g
          ≡ some (
              if (call_hooks callback 0 hs).0 == 0
              then (result_or 0 (callback h), hs ++ h ∷ [])
              else call_hooks callback 0 hs))
unfolding register_hook call_hook
call_hook-register callback m h head hs offset k r i n l =
    let (g, e, s) = list_add_tail-refines m h head hs r i n in
    let v =
      list_for_each-visits g head (hs ++ h ∷ []) k s (ground (arith, length-append hs (h ∷ []))) in
    (g, ground arith, rw (v, call_hook) (ap some (call_hooks-append callback hs h)))

-- Cancelling calls the cleanup hook that was registered last first, and then the others.
pub cancel-register :
    (m : Memory) (h ctx : Ptr) (hs : List Ptr) (k : ℕ)
    → IsRing m ctx hs
    → is_in h (ctx ∷ hs) ≡ false
    → h ≢ null
    → length hs + 1 < k
    → (g : Memory) × (register_cleanup_hook h ctx m ≡ some (h, g))
      × (cancel_last_operation k ctx g ≡ some (h ∷ hs))
unfolding register_cleanup_hook cancel_last_operation
cancel-register m h ctx hs k r i n l =
    let (g, e, s) = list_add-refines m h ctx hs r i n in
    (g, ground arith, list_for_each-visits g ctx (h ∷ hs) k s (omega arith))
