-- ===== src/Threads.antt =====
-- threads/thread.c: the ready list, switching, priorities.
pub mod Invariant
pub mod Schedule
pub mod Priority
pub mod Yield
use pint_os_assignment.Common.{
  ℕ, suc, ◌%◌, ◌^◌, Bool, not, ◌&&◌, Option, none, some, ◌∷◌, ltb, ◌==◌, if◌then◌else◌, Result, ok,
  ◌>>=◌, ◌>>◌, assert, need,
}
use pint_os_assignment.KernelList.{
  list_sort, list_insert_ordered, list_remove, list_empty, list_front, list_pop_front,
}
use pint_os_assignment.Kernel.{
  running, ready, blocked, dying, is_status, Kernel, pri_min, set_thread, set_status,
  great_priority_threads, great_priority_lock,
}

unfoldable pub thread_unblock : Kernel → ℕ → Result Kernel
thread_unblock k t = do
  assert (is_status (k.threads t).status blocked)
  ok (
      set_status
        (record k { ready_list = list_insert_ordered (great_priority_threads k) k.ready_list t }) t
        ready)

-- The thread to run, and the state with it taken off the ready list.
unfoldable pub next_thread_to_run : Kernel → Result (ℕ × Kernel)
next_thread_to_run k = if list_empty k.ready_list then ok (k.idle_thread, k) else do
  (t, rest) ← need (list_pop_front (list_sort (great_priority_threads k) k.ready_list))
  ok (t, record k { ready_list = rest })

-- `prev` is the thread switched from, if any. `freed` records the pages given back.
unfoldable pub thread_schedule_tail : Kernel → Option ℕ → Result Kernel
thread_schedule_tail k none = ok (record (set_status k k.cur running) { thread_ticks = 0 })
thread_schedule_tail k (some prev) =
    let k' = record (set_status k k.cur running) { thread_ticks = 0 } in
    if is_status (k'.threads prev).status dying && not (prev == k.initial_thread)
    then (do assert (not (prev == k.cur)); ok (record k' { freed = prev ∷ k.freed }))
    else ok k'

unfoldable pub schedule : Kernel → Result Kernel
schedule k = do
  (next, k') ← next_thread_to_run k
  assert (not (is_status (k.threads k.cur).status running))
  if k.cur == next
      then thread_schedule_tail k' none
      else thread_schedule_tail (record k' { cur = next }) (some k.cur)

unfoldable pub thread_block : Kernel → Result Kernel
thread_block k = do assert (not k.in_interrupt); schedule (set_status k k.cur blocked)

unfoldable pub thread_yield : Kernel → Result Kernel
thread_yield k = do
  assert (not k.in_interrupt)
  let queue = list_insert_ordered (great_priority_threads k) k.ready_list k.cur
  let ready_list' = if k.cur == k.idle_thread then k.ready_list else queue
  schedule (set_status (record k { ready_list = ready_list' }) k.cur ready)

-- The end of `thread_exit`, after the process is taken apart.
unfoldable pub thread_die : Kernel → Result Kernel
thread_die k = schedule (set_status k k.cur dying)

-- The highest priority among the locks in the sorted list, or the lowest there is.
unfoldable pub thread_update_priority : Kernel → ℕ → Kernel
thread_update_priority k t =
    let th = k.threads t in
    let sorted = list_sort (great_priority_lock k) th.locks in
    let donated : ℕ = elim (list_front sorted) [
      | none ↦ pri_min
      | some l ↦ (k.locks l).max_priority
    ] in
    let own = th.original_priority in
    set_thread k t
      (record th { locks = sorted; priority = if ltb donated own then own else donated })

unfoldable pub thread_donate_priority : Kernel → ℕ → Kernel
thread_donate_priority k t =
    let k' = thread_update_priority k t in
    let queue = list_insert_ordered (great_priority_threads k') (list_remove k'.ready_list t) t in
    if is_status (k'.threads t).status ready then record k' { ready_list = queue } else k'

unfoldable pub thread_set_priority : Kernel → ℕ → Result Kernel
thread_set_priority k p =
    let k' =
      thread_update_priority
        (set_thread k k.cur (record (k.threads k.cur) { original_priority = p })) k.cur in
    if k.in_interrupt then ok k' else thread_yield k'

-- The preemption test of `thread_tick`: a slice of four ticks has run out.
unfoldable pub thread_tick : Kernel → Kernel × Bool
thread_tick k =
    let n = suc k.thread_ticks % 2 ^ 32 in (record k { thread_ticks = n }, not (ltb n 4))
