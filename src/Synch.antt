-- ===== src/Synch.antt =====
-- threads/synch.c: semaphores, locks with priority donation, condition variables. A function that
-- may sleep stops where it does: `sema_down` is one round of its loop, and the two halves of
-- lock_acquire() and cond_wait() stand before and after it.
pub mod Waiters
pub mod Up
pub mod Down
pub mod Frame
pub mod Donate
pub mod Raise
pub mod Effect
pub mod LockEffect
pub mod System
pub mod Mutex
pub mod Exclusion
pub mod Locks
pub mod Conditions
use pint_os_assignment.Common.{
  ℕ, zero, suc, ◌+◌, ◌-◌, ◌%◌, ◌^◌, Bool, true, false, not, ◌&&◌, Option, none, some, List, [], ◌∷◌,
  ltb, ◌==◌, if◌then◌else◌, Result, ok, no_fuel, ◌>>=◌, ◌>>◌, assert, need, get_or,
}
use pint_os_assignment.KernelList.{
  list_sort, list_insert_ordered, list_remove, list_empty, list_front, list_pop_front,
  list_push_back,
}
use pint_os_assignment.KernelList.Fallible.{sort}
use pint_os_assignment.Kernel.{
  Kernel, set_thread, set_sema, set_lock, great_priority_threads, great_priority_lock,
}
use pint_os_assignment.Threads.{
  thread_unblock, thread_block, thread_yield, thread_update_priority, thread_donate_priority,
}

-- `unsigned`
abbrev pub uint_mod : ℕ
uint_mod = 2 ^ 32

unfoldable pub sema_init : Kernel → ℕ → ℕ → Kernel
sema_init k s v = set_sema k s (record { value = v % uint_mod; waiters = [] })

-- The state in which the current thread blocks on the semaphore.
unfoldable pub enqueue_waiter : Kernel → ℕ → Kernel
enqueue_waiter k s = set_sema k s (record (k.semas s) {
  waiters = list_insert_ordered (great_priority_threads k) (k.semas s).waiters k.cur;
})

-- One round of the loop of sema_down(): `true` with the semaphore decremented, or `false` in the
-- state that runs while the caller sleeps. Woken, it does the next round.
unfoldable pub sema_down : Kernel → ℕ → Result (Bool × Kernel)
unfolding enqueue_waiter
sema_down k s = do
  assert (not k.in_interrupt)
  if (k.semas s).value == 0
      then (do k' ← thread_block (enqueue_waiter k s); ok (false, k'))
      else ok (true, set_sema k s (record (k.semas s) { value = (k.semas s).value - 1 }))

unfoldable pub sema_try_down : Kernel → ℕ → Bool × Kernel
sema_try_down k s =
    if ltb 0 (k.semas s).value
    then (true, set_sema k s (record (k.semas s) { value = (k.semas s).value - 1 }))
    else (false, k)

-- The first part of sema_up(): the front of the sorted waiters, if any, is made ready.
unfoldable pub wake_waiter : Kernel → ℕ → Result Kernel
wake_waiter k s = if list_empty (k.semas s).waiters then ok k else do
  (t, rest) ← need (list_pop_front (list_sort (great_priority_threads k) (k.semas s).waiters))
  thread_unblock (set_sema k s (record (k.semas s) { waiters = rest })) t

-- The rest of sema_up(): the value goes up, and outside an interrupt the thread yields.
unfoldable pub raise_value : Kernel → ℕ → Result Kernel
raise_value k s =
    let raised = set_sema k s (record (k.semas s) { value = ((k.semas s).value + 1) % uint_mod }) in
    if k.in_interrupt then ok raised else thread_yield raised

unfoldable pub sema_up : Kernel → ℕ → Result Kernel
sema_up k s = do k' ← wake_waiter k s; raise_value k' s

unfoldable pub lock_init : Kernel → ℕ → Kernel
unfolding sema_init
lock_init k l =
    sema_init (set_lock k l (record (k.locks l) { holder = none })) (k.locks l).semaphore 1

unfoldable pub lock_held_by_current_thread : Kernel → ℕ → Bool
lock_held_by_current_thread k l = elim (k.locks l).holder [ none ↦ false | some t ↦ t == k.cur ]

-- The highest priority waiting, by the front of the waiters.
unfoldable pub lock_update_priority : Kernel → ℕ → Kernel
lock_update_priority k l =
    let waiting = (k.semas (k.locks l).semaphore).waiters in
    let front : ℕ = elim (list_front waiting) [ none ↦ 0 | some t ↦ (k.threads t).priority ] in
    set_lock k l (record (k.locks l) { max_priority = front })

-- One round of the donation loop, at a lock whose recorded priority is lower than the donor's. A
-- lock without a holder is a null pointer that the code follows.
unfoldable pub donate_to : Kernel → ℕ → Result (Kernel × Option ℕ)
donate_to k l =
    let k' = set_lock k l (record (k.locks l) { max_priority = (k.threads k.cur).priority }) in
    do
      h ← need (k.locks l).holder
      let k'' = thread_donate_priority k' h
      ok (k'', (k''.threads h).waiting_lock)

-- The donation loop of lock_acquire(), with fuel.
unfoldable pub donate_chain : ℕ → Kernel → Option ℕ → Result Kernel
donate_chain zero k l = no_fuel
donate_chain (suc f) k none = ok k
donate_chain (suc f) k (some l) =
    let rest = (do (k', next) ← donate_to k l; donate_chain f k' next) in
    if ltb (k.locks l).max_priority (k.threads k.cur).priority then rest else ok k

-- lock_acquire() up to its call of sema_down(). The caller does not hold the lock.
unfoldable pub lock_acquire_start : ℕ → Kernel → ℕ → Result Kernel
lock_acquire_start fuel k l = do
  assert (not k.in_interrupt)
  assert (not (lock_held_by_current_thread k l))
  let waiting = set_thread k k.cur (record (k.threads k.cur) { waiting_lock = some l })
  if k.mlfqs
      then ok k
      else elim (k.locks l).holder [ none ↦ ok k | some h ↦ donate_chain fuel waiting (some l) ]

-- What the new holder of a lock does for its own priority.
unfoldable pub take_lock : Kernel → ℕ → Kernel
unfolding lock_update_priority
take_lock k l =
    let k₁ = set_thread k k.cur (record (k.threads k.cur) { waiting_lock = none }) in
    let k₂ = lock_update_priority k₁ l in
    let held = list_insert_ordered (great_priority_lock k₂) (k₂.threads k.cur).locks l in
    let k₃ = set_thread k₂ k.cur (record (k₂.threads k.cur) { locks = held }) in
    thread_update_priority k₃ k.cur

-- lock_acquire() after sema_down() has returned.
unfoldable pub lock_acquire_finish : Kernel → ℕ → Kernel
lock_acquire_finish k l =
    let k' = set_lock k l (record (k.locks l) { holder = some k.cur }) in
    if k'.mlfqs then k' else take_lock k' l

unfoldable pub lock_try_acquire : Kernel → ℕ → Result (Bool × Kernel)
lock_try_acquire k l = do
  assert (not (lock_held_by_current_thread k l))
  let (success, k') = sema_try_down k (k.locks l).semaphore
  if success then ok (true, lock_acquire_finish k' l) else ok (false, k')

-- The state in which lock_release() raises the semaphore.
unfoldable pub drop_lock : Kernel → ℕ → Kernel
drop_lock k l =
    let k₁ = set_lock k l (record (k.locks l) { holder = none }) in
    let held = list_remove (k₁.threads k.cur).locks l in
    let k₂ = set_thread k₁ k.cur (record (k₁.threads k.cur) { locks = held }) in
    if k.mlfqs then k₁ else thread_update_priority k₂ k.cur

unfoldable pub lock_release : Kernel → ℕ → Result Kernel
lock_release k l = do
  assert (lock_held_by_current_thread k l)
  sema_up (drop_lock k l) (k.locks l).semaphore

-- `struct condition`, as the addresses of the semaphores inside the elements of `waiters`.
abbrev pub Condition : Type 0
Condition = List ℕ

-- The comparison of the waiters, by the threads at their fronts. A semaphore in which no thread
-- sleeps fails the assertion of list_front.
unfoldable pub great_priority_semaphore : Kernel → ℕ → ℕ → Result Bool
great_priority_semaphore k x y = do
  first ← need (list_front (k.semas x).waiters)
  second ← need (list_front (k.semas y).waiters)
  ok (great_priority_threads k first second)

-- cond_wait() up to its call of sema_down() on the new semaphore `w`.
unfoldable pub cond_wait_start : Kernel → Condition → ℕ → ℕ → Result (Condition × Kernel)
cond_wait_start k c l w = do
  assert (not k.in_interrupt)
  assert (lock_held_by_current_thread k l)
  let c' = list_push_back c w
  k' ← lock_release (sema_init k w 0) l
  ok (c', k')

-- cond_signal() on the sorted waiters: the front one, if any, is taken out and its semaphore raised.
unfoldable pub signal_first : Kernel → Condition → Result (Condition × Kernel)
signal_first k [] = ok ([], k)
signal_first k (s ∷ rest) = do k' ← sema_up k s; ok (rest, k')

unfoldable pub cond_signal : Kernel → Condition → ℕ → Result (Condition × Kernel)
cond_signal k c l = do
  assert (not k.in_interrupt)
  assert (lock_held_by_current_thread k l)
  sorted ← sort (great_priority_semaphore k) c
  signal_first k sorted
